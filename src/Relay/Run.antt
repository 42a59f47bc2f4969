-- ===== src/Relay/Run.antt =====
-- internal/relay/relay.go, `RelayCachedEvents` and `CleanupRelayedEvents`: the goroutines with what
-- they set up, and their loops over the ticks.
use gitstafette.Common.{ℕ, String, Bool, true, List, [], ◌∷◌, ◌++◌, if◌then◌else◌}
use gitstafette.Cache.InMemory.{InMemoryStore}
use gitstafette.Server.{Change, changes}
use gitstafette.Telemetry.Setup.{
  Sdk, provider, nil_provider, exits, Outcome, returns, process_exits, setup_otel_sdk,
}
use gitstafette.Relay.Config.{RelayConfig}
use gitstafette.Relay.{Transmission, relay_tick}
use gitstafette.Relay.Cleanup.{cleanup_tick}

-- The goroutine still waits, has returned, has ended the process, or has asked a nil provider for
-- a meter.
pub data Ending : Type 0 where
  waits closes fatal asks_nil_provider : Ending

pub record Relaying : Type 0 where
  pub store : InMemoryStore
  pub sent : List Transmission
  pub ending : Ending

-- What wakes the `select`: the ticker, with what others do to the store before it and which pushes
-- succeed, or the end of the context.
pub data Wake : Type 0 where
  ticks : List Change → (ℕ → Bool) → Wake
  done : Wake

unfoldable pub relay_round : RelayConfig → String → List Change → (ℕ → Bool) → Relaying → Relaying
unfolding relay_tick
relay_round relay repository_id before grpc_works st =
    let tick = relay_tick relay repository_id grpc_works (changes before st.store) in
    record { store = tick.0; sent = st.sent ++ tick.1; ending = if tick.2 then fatal else waits }

unfoldable pub relay_loop : RelayConfig → String → List Wake → Relaying → Relaying
unfolding relay_round
relay_loop relay repository_id [] st = st
relay_loop relay repository_id (done ∷ rest) st = record st { ending = closes }
relay_loop relay repository_id (ticks before grpc_works ∷ rest) st =
    let next = relay_round relay repository_id before grpc_works st in
    elim next.ending [
      | waits ↦ relay_loop relay repository_id rest next
      | closes ↦ next
      | fatal ↦ next
      | asks_nil_provider ↦ next
    ]

-- The error of the set-up is only logged; the meter is asked of whatever provider it returned.
abbrev pub with_provider : RelayConfig → String → List Wake → InMemoryStore → Outcome → Relaying
with_provider relay repository_id schedule s process_exits = record {
  store = s;
  sent = [];
  ending = fatal;
}
with_provider relay repository_id schedule s (returns st exits) = record {
  store = s;
  sent = [];
  ending = fatal;
}
with_provider relay repository_id schedule s (returns st nil_provider) = record {
  store = s;
  sent = [];
  ending = asks_nil_provider;
}
with_provider relay repository_id schedule s (returns st provider) =
    relay_loop relay repository_id schedule (record { store = s; sent = []; ending = waits })

unfoldable pub relay_cached_events :
    Sdk → Bool → RelayConfig → String → List Wake → InMemoryStore → Relaying
unfolding relay_loop
relay_cached_events sdk otel_enabled relay repository_id schedule s =
    with_provider relay repository_id schedule s (setup_otel_sdk sdk otel_enabled)

-- For the clean-up a tick has the reading of the clock.
pub data Call : Type 0 where
  sweeps : ℕ → List Change → Call
  stops : Call

pub record Cleaning : Type 0 where
  pub store : InMemoryStore
  pub ending : Ending

unfoldable pub cleanup_loop : List String → List Call → InMemoryStore → Cleaning
unfolding cleanup_tick
cleanup_loop repositories [] s = record { store = s; ending = waits }
cleanup_loop repositories (stops ∷ rest) s = record { store = s; ending = closes }
cleanup_loop repositories (sweeps now before ∷ rest) s =
    cleanup_loop repositories rest (cleanup_tick now repositories (changes before s))

abbrev pub with_counter : List String → List Call → InMemoryStore → Outcome → Cleaning
with_counter repositories schedule s process_exits = record { store = s; ending = fatal }
with_counter repositories schedule s (returns st exits) = record { store = s; ending = fatal }
with_counter repositories schedule s (returns st nil_provider) = record {
  store = s;
  ending = asks_nil_provider;
}
with_counter repositories schedule s (returns st provider) = cleanup_loop repositories schedule s

-- The counter is set up only where the telemetry is enabled.
unfoldable pub cleanup_relayed_events :
    Sdk → Bool → List String → List Call → InMemoryStore → Cleaning
unfolding cleanup_loop
cleanup_relayed_events sdk otel_enabled repositories schedule s =
    if otel_enabled
    then with_counter repositories schedule s (setup_otel_sdk sdk true)
    else cleanup_loop repositories schedule s
