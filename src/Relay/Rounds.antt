-- ===== src/Relay/Rounds.antt =====
-- What the goroutine of a relay sends over its rounds.
use gitstafette.Common.{◌≡◌, String, false, List, [], arith}
use gitstafette.Cache.InMemory.{InMemoryStore}
use gitstafette.Telemetry.Setup.{Sdk, setup_otel_sdk}
use gitstafette.Relay.Config.{RelayConfig}
use gitstafette.Relay.Run.{asks_nil_provider, Wake, relay_cached_events}

-- With the telemetry disabled the relay of a repository never sends anything, whatever its target
-- and its ticks: it asks a nil provider for a meter.
pub relay_cached_events-disabled :
    (sdk : Sdk) (relay : RelayConfig) (r : String) (schedule : List Wake) (s : InMemoryStore)
    → relay_cached_events sdk false relay r schedule s
      ≡ record { store = s; sent = []; ending = asks_nil_provider }
unfolding relay_cached_events setup_otel_sdk
relay_cached_events-disabled sdk relay r schedule s = ground arith
