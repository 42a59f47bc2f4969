-- ===== src/Network.antt =====
-- A server's goroutines and a client that reads one of their streams after another: the composition
-- of internal/server, internal/relay and cmd/client over a connection.
pub mod Own
pub mod Messages
pub mod Steps
pub mod Received
pub mod Kept
pub mod Accounted
pub mod Delivery
use gitstafette.Common.{
  ℕ, ◌≡◌, String, Bool, true, false, not, ◌&&◌, List, [], ◌∷◌, ◌++◌, ◌==◌, map, Distinct,
}
use gitstafette.Event.{WebhookEvent}
use gitstafette.Event.RoundTrip.{Wire, or_empty}
use gitstafette.Cache.Heap.{Heap}
use gitstafette.Cache.InMemory.{InMemoryStore, new_in_memory_store}
use gitstafette.Cache.Watcher.{RepositoryWatcher}
use gitstafette.Server.Marking.{sent_ids}
use gitstafette.Webhook.Signature.{Mac}
use gitstafette.Webhook.Delivered.{keys}
use gitstafette.Relay.Config.{RelayConfig}
use gitstafette.Relay.{relay_tick}
use gitstafette.Client.{GrpcClientConfig, going, receive_events}
use gitstafette.Client.Ingest.{id_of}
use gitstafette.Client.Round.{received_from}
use gitstafette.System.{
  System, set_at, note, Step, posts, pushes, retrieves, sends, marks, ends, fails, ticks,
  relays_one, passes, sweeps, sweeps_next, sweeps_one, sweeps_on, rests, holding, delivered,
  new_system,
}

-- The responses on the way in one list.
abbrev pub flatten : List (List WebhookEvent) → List WebhookEvent
flatten [] = []
flatten (es ∷ ess) = es ++ flatten ess

-- The ids that messages get where they are received: those of their delivery headers.
abbrev pub wire_ids : List WebhookEvent → List String
wire_ids = map (λ e. id_of (map or_empty e.headers))

-- The client reads the stream `reading`. Responses that were sent to it and not read stand in
-- `in_flight`, oldest first. `sent` and `abandoned` record what the streams that it read have sent, and what
-- was on the way when it turned from one of them.
pub record Network : Type 0 where
  pub system : System
  pub reading : ℕ
  pub in_flight : List (List WebhookEvent)
  pub cache : InMemoryStore
  pub sent : List WebhookEvent
  pub abandoned : List WebhookEvent

module _ (w : RepositoryWatcher) (relay : RelayConfig) (stream_of relay_of : ℕ → String) where
  -- Whether a step sends events of the repository on.
  abbrev pub sends_on : {s t : System} → String → Step w relay stream_of relay_of s t → Bool
  sends_on r (posts mac now ctx) = false
  sends_on r (pushes now request e store response h k) = false
  sends_on r (retrieves i es h k) = false
  sends_on r (sends i es h) = stream_of i == r
  sends_on r (marks i now es h) = false
  sends_on r (ends i h) = false
  sends_on r (fails i es h) = false
  sends_on r (ticks i h) = false
  sends_on r (relays_one i p ps works h x) = relay_of i == r
  sends_on r (passes i h) = false
  sends_on r (sweeps h) = false
  sends_on r (sweeps_next q rs h) = false
  sends_on r (sweeps_one now q p ps rs h) = false
  sends_on r (sweeps_on q rs h) = false
  sends_on r (rests h) = false

  -- The headers of a request are a map.
  abbrev pub HasMap : {s t : System} → Step w relay stream_of relay_of s t → Type 0
  HasMap (posts mac now ctx) = Distinct (keys ctx.headers)
  HasMap _ = Unit {0}

  module _ (wire : Wire) (mac : Mac) (client : GrpcClientConfig) (target : RelayConfig) where
    -- The server goes on, except that it sends events of the client's repository to this client only;
    -- the stream sends a response; the client reads it; the relay of the client runs; the client ends
    -- its loop over the stream and opens another, with which the connection is closed.
    pub data Move (n : Network) : Network → Type 0 where
      serves :
          (t : System) (step : Step w relay stream_of relay_of n.system t)
          → HasMap step
          → sends_on client.repository_id step ≡ false
          → Move n (record n { system = t })
      responds :
          (es : List WebhookEvent)
          → n.system.streams n.reading ≡ holding es
          → Move n (record n {
            system = record n.system {
              streams = set_at n.system.streams n.reading (delivered es);
              handed = note (stream_of n.reading) (sent_ids es) n.system.handed;
            };
            in_flight = n.in_flight ++ es ∷ [];
            sent = n.sent ++ es;
          })
      receives :
          (now : ℕ) (es : List WebhookEvent) (rest : List (List WebhookEvent)) (s : InMemoryStore)
          → n.in_flight ≡ es ∷ rest
          → receive_events mac client now (received_from wire es) n.cache ≡ going s
          → Move n (record n { in_flight = rest; cache = s })
      relays :
          (works : ℕ → Bool)
          → Move n (record n { cache = (relay_tick target client.repository_id works n.cache).0 })
      reopens :
          (i : ℕ)
          → stream_of i ≡ client.repository_id
          → Move n (record n {
            reading = i;
            in_flight = [];
            abandoned = n.abandoned ++ flatten n.in_flight;
          })

    -- What is reached from two new stores.
    pub data Reached : Network → Type 0 where
      begins :
          (heap cache_heap : Heap) (otel_enabled meter_ok client_otel client_meter_ok : Bool)
          (i : ℕ)
          → heap.next ≡ 0
          → cache_heap.next ≡ 0
          → stream_of i ≡ client.repository_id
          → Reached (record {
            system = new_system heap otel_enabled meter_ok;
            reading = i;
            in_flight = [];
            cache = new_in_memory_store cache_heap client_otel client_meter_ok;
            sent = [];
            abandoned = [];
          })
      moved : {n m : Network} → Reached n → Move n m → Reached m

    -- From one network to another in some moves.
    pub data Moves (n : Network) : Network → Type 0 where
      done : Moves n n
      next : {m k : Network} → Moves n m → Move m k → Moves n k
