-- ===== src/System/Reached.antt =====
-- What holds of every state that the goroutines of a server reach, in any order of their steps.
use gitstafette.Common.{
  map, eq_iff, ℕ, ◌≡◌, inl, inr, ◌↔◌, String, Bool, true, ◌||◌, List, [], ◌∷◌, arith, member,
  Bool-cases, slice_at,
}
use gitstafette.Cache.InMemory.{new_in_memory_store}
use gitstafette.Cache.InMemory.Invariant.{new_in_memory_store-IsWellFormed}
use gitstafette.Cache.Heap.{Heap, ids}
use gitstafette.Cache.InMemory.Invariant.{IsWellFormed}
use gitstafette.Cache.Spec.{view, event_ids}
use gitstafette.Cache.Refinement.{event_ids-view, view-eq-map}
use gitstafette.Server.Pending.{relayed}
use gitstafette.Cache.Watcher.{RepositoryWatcher}
use gitstafette.Relay.Config.{RelayConfig}
use gitstafette.System.{System, new_system, Reach, start, later}
use gitstafette.System.Invariant.{Inv, AllMade}
use gitstafette.System.Steps.{Step-Inv}
use gitstafette.System.Steps.Streams.{member-made}

module _ (w : RepositoryWatcher) (relay : RelayConfig) (stream_of relay_of : ℕ → String) where
  start-Inv :
      (heap : Heap) (otel_enabled meter_ok : Bool)
      → heap.next ≡ 0
      → Inv stream_of relay_of (new_system heap otel_enabled meter_ok)
  unfolding new_in_memory_store
  start-Inv heap otel_enabled meter_ok none_made = record {
    lossless = record {
      well_formed = new_in_memory_store-IsWellFormed heap otel_enabled meter_ok;
      made = λ r p m. cc;
      told = λ p l m. absurd (omega (arith, l, none_made));
      kept = λ r x m. cc;
      known = λ r x m. cc;
    };
    streams_hold = λ i. tt;
    relays_hold = λ i. tt;
    sweep_holds = tt;
  }

  pub Reach-Inv : {s : System} → Reach w relay stream_of relay_of s → Inv stream_of relay_of s
  Reach-Inv (start heap otel_enabled meter_ok none_made) =
      start-Inv heap otel_enabled meter_ok none_made
  Reach-Inv (later r step) = Step-Inv w relay stream_of relay_of _ (Reach-Inv r) step

  kept_or_known :
      (s : System)
      → Inv stream_of relay_of s
      → (r x : String)
      → (member x (s.accepted r) ≡ true) ↔ (
          (member x (ids s.store.heap (slice_at r s.store.events)) || member x (s.handed r)) ≡ true)
  kept_or_known s inv r x = (
    inv.lossless.kept r x,
    λ m. elim (Bool-cases (member x (s.handed r))) [
      | inl sent ↦ inv.lossless.known r x sent
      | inr unsent ↦
          member-made s.store.heap s.origin s.accepted r x (slice_at r s.store.events)
            (inv.lossless.made r) (ground (arith, m, unsent))
    ],
  )

  relayed_handed :
      (s : System)
      → Inv stream_of relay_of s
      → (r x : String) (ps : List ℕ) → AllMade s.store.heap s.origin s.accepted r ps
      → member x (event_ids (relayed (map s.store.heap.cell ps))) ≡ true
      → member x (s.handed r) ≡ true
  relayed_handed s inv r x [] made m = cc
  relayed_handed s inv r x (p ∷ ps) made m = ground (
    arith,
    m,
    (made p (ground arith)).from,
    inv.lossless.told p (made p (ground arith)).alive,
    eq_iff (s.store.heap.cell p).id x,
    relayed_handed s inv r x ps (λ q n. made q (ground (arith, n))),
  )

  pub Reach-keeps :
      (s : System)
      → Reach w relay stream_of relay_of s
      → (r x : String)
      → (member x (s.accepted r) ≡ true)
        ↔ ((member x (event_ids (view s.store r)) || member x (s.handed r)) ≡ true)
  Reach-keeps s reached r x = rw event_ids-view (kept_or_known s (Reach-Inv reached) r x)

  -- Every store that is reached is well formed.
  pub Reach-IsWellFormed : (s : System) → Reach w relay stream_of relay_of s → IsWellFormed s.store
  Reach-IsWellFormed s reached = (Reach-Inv reached).lossless.well_formed

  -- In every state that is reached, each event that a repository has and that is marked relayed was
  -- sent on for that repository.
  pub Reach-relayed :
      (s : System)
      → Reach w relay stream_of relay_of s
      → (r x : String) → member x (event_ids (relayed (view s.store r))) ≡ true
      → member x (s.handed r) ≡ true
  Reach-relayed s reached r x m =
      let inv = Reach-Inv reached in
      relayed_handed s inv r x (slice_at r s.store.events) (inv.lossless.made r)
        (rw view-eq-map at m)
