-- ===== src/Relay.antt =====
-- internal/relay/relay.go with api/v1/relay_config.go: what is sent to the relay target, the
-- clean-up of relayed events, and the health check of the target.
pub mod Config
pub mod Pass
pub mod Cleanup
pub mod Early
pub mod Health
pub mod Run
pub mod Rounds
pub mod Sweeps
use gitstafette.Common.{
  ℕ, String, Bool, true, false, Option, none, some, List, [], ◌∷◌, ◌++◌, ◌==◌, ◌<>◌, put,
  if◌then◌else◌,
}
use gitstafette.Event.{
  Bytes, WebhookEvent, WebhookEventHeader, WebhookEventInternal, internal_to_external_event,
}
use gitstafette.Cache.Heap.{Heap, write}
use gitstafette.Cache.InMemory.{InMemoryStore, retrieve_events_for_repository}
use gitstafette.Cache.Ingest.{HttpHeader}
use gitstafette.Server.{WebhookEventPushRequest}
use Config.{RelayConfig}

pub data Service : Type 0 where
  relay_health_check : Service
  relay_cached_events : String → Service

-- The goroutines that `InitiateRelay` starts.
unfoldable pub initiate_relay : RelayConfig → String → List Service
initiate_relay relay repository_id =
    if relay.enabled then relay_health_check ∷ relay_cached_events repository_id ∷ [] else []

-- `headers[key] = values`, header by header.
unfoldable pub set_headers : List WebhookEventHeader → HttpHeader → HttpHeader
set_headers [] headers = headers
set_headers (h ∷ hs) headers = set_headers hs (put h.key (h.first_value ∷ []) headers)

unfoldable pub event_headers_to_http_headers : List WebhookEventHeader → HttpHeader
unfolding set_headers
event_headers_to_http_headers hs = set_headers hs []

-- What leaves for the relay target: a POST, or a call of `WebhookEventPush` on a server.
pub data Transmission : Type 0 where
  http_post : String → HttpHeader → Bytes → Transmission
  grpc_push : String → WebhookEventPushRequest → Transmission

unfoldable pub http_relay : WebhookEventInternal → String → Transmission
unfolding event_headers_to_http_headers
http_relay event endpoint =
    http_post endpoint (event_headers_to_http_headers event.headers) event.event_body

unfoldable pub grpc_relay : WebhookEventInternal → RelayConfig → String → Transmission
grpc_relay event relay repository_id = grpc_push (relay.host <> ":" <> relay.port) (record {
  client_id = "myself";
  repository_id = repository_id;
  webhook_event = some (internal_to_external_event event);
})

abbrev pub is_grpc : RelayConfig → Bool
is_grpc relay = relay.protocol == "grpc"

unfoldable pub transmission : RelayConfig → String → WebhookEventInternal → Transmission
unfolding http_relay grpc_relay
transmission relay repository_id event =
    if is_grpc relay then grpc_relay event relay repository_id else http_relay event relay.endpoint

-- A pass over the cached events: the objects, every transmission that was tried, and whether the
-- process has exited.
pub record Progress : Type 0 where
  pub heap : Heap
  pub sent : List Transmission
  pub exited : Bool

-- The relay does not set the time.
abbrev pub set_relayed : WebhookEventInternal → WebhookEventInternal
set_relayed e = record e { is_relayed = true }

-- One event of the loop. `grpc_works` says whether the push of the event at an address succeeds:
-- if it fails the process exits, while what becomes of a POST is only logged.
unfoldable pub relay_event : RelayConfig → String → (ℕ → Bool) → ℕ → Progress → Progress
unfolding transmission write
relay_event relay repository_id grpc_works p st =
    let event = st.heap.cell p in
    if event.is_relayed
    then st
    else let sent = st.sent ++ transmission relay repository_id event ∷ [] in
      if is_grpc relay
      then (if grpc_works p
          then record st { heap = write st.heap p (set_relayed event); sent = sent }
          else record st { sent = sent; exited = true })
      else record st { heap = write st.heap p (set_relayed event); sent = sent }

unfoldable pub relay_events : RelayConfig → String → (ℕ → Bool) → List ℕ → Progress → Progress
unfolding relay_event
relay_events relay repository_id grpc_works [] st = st
relay_events relay repository_id grpc_works (p ∷ ps) st =
    let next = relay_event relay repository_id grpc_works p st in
    let rest = relay_events relay repository_id grpc_works ps next in
    if next.exited then next else rest

-- A tick of `RelayCachedEvents`: the store after it, what was sent, and whether the process exited.
unfoldable pub relay_tick :
    RelayConfig → String → (ℕ → Bool) → InMemoryStore → InMemoryStore × List Transmission × Bool
unfolding relay_events
relay_tick relay repository_id grpc_works s =
    let done =
      relay_events relay repository_id grpc_works (retrieve_events_for_repository s repository_id)
        (record { heap = s.heap; sent = []; exited = false }) in
    (record s { heap = done.heap }, done.sent, done.exited)
