-- ===== src/Examples/Relay.antt =====
-- Tests of the relay, the clean-up and the health check.
use gitstafette.Common.{
  none, ◌++◌, ℕ, ◌+◌, ◌*◌, ◌≡◌, inl, refl, Bool, true, false, some, List, [], ◌∷◌, ◌==◌, map,
  length, member, arith, if◌then◌else◌,
}
use gitstafette.Cache.InMemory.{store, new_in_memory_store, retrieve_events_for_repository}
use gitstafette.Cache.Heap.{alloc}
use gitstafette.Cache.Ingest.{insert}
use gitstafette.Cache.Spec.{view}
use gitstafette.Server.{second, Change, arrives, changes}
use gitstafette.Relay.Config.{RelayConfig}
use gitstafette.Relay.{set_relayed, relay_tick}
use gitstafette.Relay.Pass.{view-relay_tick}
use gitstafette.Relay.Cleanup.{not_due, cleanup_tick}
use gitstafette.Relay.Run.{Wake, ticks, done, waits, asks_nil_provider, relay_cached_events}
use gitstafette.Relay.Run.{Call, sweeps, cleanup_relayed_events}
use gitstafette.Relay.Sweeps.{cleanup_relayed_events-leaves}
use gitstafette.Relay.Rounds.{relay_cached_events-disabled}
use gitstafette.Telemetry.Setup.{Sdk, State, tracer_provider, meter_provider}
use gitstafette.Relay.Early.{never_stamped, cleanup-relay_tick}
use gitstafette.Relay.Health.{
  Status, initial_status, serving, HttpAnswer, response, http_error, Probe, health_ticks,
  failures_in_a_row, http_answers, http-health_ticks, grpc-health_ticks,
}
use gitstafette.Examples.{
  event_named, repo, one_event, one_event-IsWellFormed, http_target, http_target_up,
}

abbrev works : ℕ → Bool
works p = false

abbrev tomorrow : ℕ
tomorrow = 86_400 * second

view-relay_tick_example :
    view (relay_tick http_target repo works one_event).0
    ≡ (λ q. if repo == q then map set_relayed (view one_event q) else view one_event q)
view-relay_tick_example =
    view-relay_tick http_target repo works http_target_up one_event one_event-IsWellFormed

not_stamped : never_stamped (view one_event repo) ≡ true
unfolding view retrieve_events_for_repository insert store new_in_memory_store alloc
not_stamped = refl

cleanup-relay_tick_example :
    view (cleanup_tick tomorrow (repo ∷ []) (relay_tick http_target repo works one_event).0) repo
    ≡ []
cleanup-relay_tick_example =
    cleanup-relay_tick http_target repo works tomorrow (repo ∷ []) one_event http_target_up
      one_event-IsWellFormed (omega arith) refl not_stamped

abbrev probe_at : ℕ → HttpAnswer → Probe
probe_at now answer = record { grpc = serving; http = answer; checked = now; failed = now }

abbrev probes : List Probe
probes =
    probe_at 5 (response true)
    ∷ probe_at 10 (response false)
    ∷ probe_at 15 (http_error "refused")
    ∷ []

http-health_ticks_example :
    (done : Status) × (health_ticks http_target (repo ∷ []) probes (initial_status 0) ≡ some done)
    × (done.counter_of_failed_health_checks
        ≡ failures_in_a_row
            (initial_status 0).counter_of_failed_health_checks
            (http_answers probes))
http-health_ticks_example =
    http-health_ticks http_target repo [] probes (initial_status 0) (inl refl)

abbrev grpc_target : RelayConfig
grpc_target = record http_target { protocol = "grpc" }

grpc-health_ticks_example :
    (done : Status) × (health_ticks grpc_target [] probes (initial_status 0) ≡ some done)
    × (done.counter_of_failed_health_checks
        ≡ (initial_status 0).counter_of_failed_health_checks + length probes)
grpc-health_ticks_example = grpc-health_ticks grpc_target [] probes (initial_status 0) refl refl

-- The telemetry is set up, and the endpoint of the relay is reached over HTTP.
abbrev sdk : Sdk
sdk = record {
  new_resource = none;
  new_client = none;
  new_trace_exporter = none;
  new_metric_exporter = none;
  shutdown = λ p. none;
}

abbrev set_up : State
set_up = record { shutdown_funcs = tracer_provider ∷ meter_provider ∷ []; called = []; error = [] }

-- One tick, an arrival, and a tick that sends it.
abbrev first : List Wake
first = ticks [] works ∷ []

abbrev arrival : List Change
arrival = arrives repo (event_named "b") ∷ []

relay_cached_events-disabled_example :
    relay_cached_events sdk false http_target repo first one_event
    ≡ record { store = one_event; sent = []; ending = asks_nil_provider }
relay_cached_events-disabled_example =
    relay_cached_events-disabled sdk http_target repo first one_event

abbrev swept : List Call
swept = sweeps 1 arrival ∷ []

still_cleans : (cleanup_relayed_events sdk false (repo ∷ []) swept one_event).ending ≡ waits
unfolding cleanup_relayed_events
still_cleans = refl

cleanup_relayed_events-leaves_example :
    view
      (cleanup_relayed_events sdk false
        (repo ∷ [])
        (swept ++ sweeps tomorrow [] ∷ [])
        one_event).store
      repo
    ≡ (let found =
          changes [] (cleanup_relayed_events sdk false (repo ∷ []) swept one_event).store in
        if member repo (repo ∷ []) then not_due tomorrow (view found repo) else view found repo)
cleanup_relayed_events-leaves_example =
    cleanup_relayed_events-leaves (repo ∷ []) sdk false swept tomorrow [] one_event repo
      still_cleans one_event-IsWellFormed
