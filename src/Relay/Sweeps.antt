-- ===== src/Relay/Sweeps.antt =====
-- What the goroutine of the clean-up leaves over its ticks.
use gitstafette.Common.{
  ℕ, ◌≡◌, refl, String, Bool, true, false, List, [], ◌∷◌, ◌++◌, member, if◌then◌else◌,
}
use gitstafette.Cache.InMemory.{InMemoryStore}
use gitstafette.Cache.InMemory.Invariant.{IsWellFormed}
use gitstafette.Cache.Spec.{view}
use gitstafette.Server.{Change, changes}
use gitstafette.Server.Changes.{changes-IsWellFormed}
use gitstafette.Telemetry.Setup.{
  Sdk, provider, nil_provider, exits, Outcome, returns, process_exits, setup_otel_sdk,
}
use gitstafette.Relay.Cleanup.{not_due, cleanup_tick, cleanup_tick-IsWellFormed, view-cleanup_tick}
use gitstafette.Relay.Run.{
  waits, Call, sweeps, stops, cleanup_loop, with_counter, cleanup_relayed_events,
}

module _ (repositories : List String) where
  IsWellFormed-cleanup_loop :
      (schedule : List Call) (s : InMemoryStore)
      → IsWellFormed s
      → IsWellFormed (cleanup_loop repositories schedule s).store
  unfolding cleanup_loop
  IsWellFormed-cleanup_loop [] s v = v
  IsWellFormed-cleanup_loop (stops ∷ rest) s v = v
  IsWellFormed-cleanup_loop (sweeps now before ∷ rest) s v =
      IsWellFormed-cleanup_loop rest (cleanup_tick now repositories (changes before s)) (
        cleanup_tick-IsWellFormed now repositories (changes before s)
          (changes-IsWellFormed before s v))

  cleanup_loop-append :
      (prefix rest : List Call) (s : InMemoryStore)
      → (cleanup_loop repositories prefix s).ending ≡ waits
      → cleanup_loop repositories (prefix ++ rest) s
        ≡ cleanup_loop repositories rest (cleanup_loop repositories prefix s).store
  unfolding cleanup_loop
  cleanup_loop-append [] rest s h = refl
  cleanup_loop-append (stops ∷ prefix) rest s h = cc
  cleanup_loop-append (sweeps now before ∷ prefix) rest s h =
      cleanup_loop-append prefix rest (cleanup_tick now repositories (changes before s)) h

  -- A counter without a provider does not wait.
  counter_ready :
      (o : Outcome) (prefix schedule : List Call) (s : InMemoryStore)
      → (with_counter repositories prefix s o).ending ≡ waits
      → with_counter repositories schedule s o ≡ cleanup_loop repositories schedule s
  counter_ready process_exits prefix schedule s h = cc
  counter_ready (returns st exits) prefix schedule s h = cc
  counter_ready (returns st nil_provider) prefix schedule s h = cc
  counter_ready (returns st provider) prefix schedule s h = refl

  loop_runs :
      (sdk : Sdk) (otel_enabled : Bool) (prefix schedule : List Call) (s : InMemoryStore)
      → (cleanup_relayed_events sdk otel_enabled repositories prefix s).ending ≡ waits
      → cleanup_relayed_events sdk otel_enabled repositories schedule s
        ≡ cleanup_loop repositories schedule s
  unfolding cleanup_relayed_events
  loop_runs sdk true prefix schedule s h =
      counter_ready (setup_otel_sdk sdk true) prefix schedule s h
  loop_runs sdk false prefix schedule s h = refl

  -- Where the clean-up still waits after some ticks, whether the telemetry is enabled or not, the
  -- next tick leaves of the events that a watched repository of a well-formed store then has exactly
  -- those that are not relayed or not for more than two minutes, and other repositories as they are.
  pub cleanup_relayed_events-leaves :
      (sdk : Sdk) (otel_enabled : Bool) (prefix : List Call) (now : ℕ) (before : List Change)
      (s : InMemoryStore) (r : String)
      → (cleanup_relayed_events sdk otel_enabled repositories prefix s).ending ≡ waits
      → IsWellFormed s
      → view
          (cleanup_relayed_events sdk otel_enabled repositories
            (prefix ++ sweeps now before ∷ [])
            s).store
          r
        ≡ (let found =
              changes before
                (cleanup_relayed_events sdk otel_enabled repositories prefix s).store in
            if member r repositories then not_due now (view found r) else view found r)
  unfolding cleanup_loop
  cleanup_relayed_events-leaves sdk otel_enabled prefix now before s r waiting v =
      let same = loop_runs sdk otel_enabled prefix prefix s waiting in
      let reached = (cleanup_loop repositories prefix s).store in
      let runs : (cleanup_loop repositories prefix s).ending ≡ waits = rw same at waiting in
      rw
        (
          loop_runs sdk otel_enabled prefix (prefix ++ sweeps now before ∷ []) s waiting,
          same,
          cleanup_loop-append prefix (sweeps now before ∷ []) s runs,
        )
        (view-cleanup_tick now repositories (changes before reached)
          (changes-IsWellFormed before reached (IsWellFormed-cleanup_loop prefix s v)) r)
