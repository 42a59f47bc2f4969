-- ===== src/System.antt =====
-- The goroutines of a server together: the webhook endpoint, `WebhookEventPush`, the streams of
-- `FetchWebhookEvents`, the relays and the clean-up, interleaved on one in-memory store.
pub mod Lossless
pub mod Arrival
pub mod Invariant
pub mod Steps
pub mod Reached
pub mod Swept
pub mod Ledger
pub mod Objects
pub mod Acts
pub mod Unlost
use gitstafette.Server.{pushed_event}
use gitstafette.Common.{
  ℕ, ◌≡◌, String, Bool, true, false, Option, none, some, List, [], ◌∷◌, ◌++◌, ◌==◌, eqb,
  if◌then◌else◌,
}
use gitstafette.Event.{WebhookEvent, WebhookEventInternal, external_to_internal_event}
use gitstafette.Cache.Heap.{Heap}
use gitstafette.Cache.InMemory.{InMemoryStore, new_in_memory_store, retrieve_events_for_repository}
use gitstafette.Cache.Ingest.{GoError}
use gitstafette.Cache.Watcher.{RepositoryWatcher}
use gitstafette.Server.{
  WebhookEventPushRequest, WebhookEventPushResponse, webhook_event_push, fetched,
  retrieve_cached_events_for_repository, update_relay_status,
}
use gitstafette.Server.Marking.{sent_ids}
use gitstafette.Webhook.Signature.{Mac}
use gitstafette.Webhook.{GitstafetteContext, Reply, answers, panics, handle_github_post, is_empty}
use gitstafette.Webhook.Post.{target, incoming}
use gitstafette.Relay.Config.{RelayConfig}
use gitstafette.Relay.{Progress, relay_event}
use gitstafette.Relay.Cleanup.{cleanup_events}

-- Where a stream stands in its loop: at the `select`, with what it retrieved and not sent, with what
-- it sent and not marked, or behind the loop.
pub data Phase : Type 0 where
  waiting : Phase
  holding : List WebhookEvent → Phase
  delivered : List WebhookEvent → Phase
  over : Phase

-- A relay waits for its tick, or has addresses of a slice left.
pub data Pass : Type 0 where
  idle : Pass
  passing : List ℕ → Pass

-- The clean-up waits for its tick, or has repositories left, and addresses of one before them.
pub data Sweep : Type 0 where
  resting : Sweep
  between : List String → Sweep
  sweeping : String → List ℕ → List String → Sweep

-- `origin`, `accepted` and `handed` record what has happened: the repository that an object was
-- made for, and for each repository the ids of the events that were taken and that were sent on.
pub record System : Type 0 where
  pub store : InMemoryStore
  pub streams : ℕ → Phase
  pub relays : ℕ → Pass
  pub sweep : Sweep
  pub origin : ℕ → String
  pub accepted : String → List String
  pub handed : String → List String

abbrev pub set_at {ℓ} : {A : Type ℓ} → (ℕ → A) → ℕ → A → ℕ → A
set_at f i a j = if eqb i j then a else f j

abbrev pub note : String → List String → (String → List String) → String → List String
note r xs f q = if r == q then xs ++ f q else f q

abbrev pub accept : Bool → String → String → (String → List String) → String → List String
accept b r id f q = if r == q then (if b then id ∷ f q else f q) else f q

-- A status of 201.
abbrev pub is_created : Reply → Bool
is_created (answers status text) = eqb status 201
is_created panics = false

abbrev pub begin : Heap → Progress
begin heap = record { heap = heap; sent = []; exited = false }

abbrev pub new_system : Heap → Bool → Bool → System
new_system heap otel_enabled meter_ok = record {
  store = new_in_memory_store heap otel_enabled meter_ok;
  streams = λ i. waiting;
  relays = λ i. idle;
  sweep = resting;
  origin = λ p. "";
  accepted = λ r. [];
  handed = λ r. [];
}

-- The stream `i` is of the repository `stream_of i`, the relay `i` of `relay_of i`.
module _ (w : RepositoryWatcher) (relay : RelayConfig) (stream_of relay_of : ℕ → String) where
  pub data Step (s : System) : System → Type 0 where
    posts :
        (mac : Mac) (now : ℕ) (ctx : GitstafetteContext)
        → Step s (record s {
          store = (handle_github_post mac now w s.store ctx).1;
          origin = set_at s.origin s.store.heap.next (target ctx);
          accepted =
              accept
                (is_created (handle_github_post mac now w s.store ctx).0)
                (target ctx)
                (incoming now ctx).id
                s.accepted;
        })
    pushes :
        (now : ℕ) (request : WebhookEventPushRequest) (e : WebhookEventInternal)
        (store : InMemoryStore) (response : WebhookEventPushResponse)
        → pushed_event now request.webhook_event ≡ some e
        → webhook_event_push now s.store request ≡ some (store, response, none)
        → Step s (record s {
          store = store;
          origin = set_at s.origin s.store.heap.next request.repository_id;
          accepted = accept true request.repository_id e.id s.accepted;
        })
    retrieves :
        (i : ℕ) (es : List WebhookEvent)
        → s.streams i ≡ waiting
        → retrieve_cached_events_for_repository w s.store (stream_of i) ≡ fetched es
        → Step s (record s { streams = set_at s.streams i (holding es) })
    sends :
        (i : ℕ) (es : List WebhookEvent)
        → s.streams i ≡ holding es
        → Step s (record s {
          streams = set_at s.streams i (delivered es);
          handed = note (stream_of i) (sent_ids es) s.handed;
        })
    marks :
        (i now : ℕ) (es : List WebhookEvent)
        → s.streams i ≡ delivered es
        → Step s (record s {
          store = update_relay_status now es (stream_of i) s.store;
          streams = set_at s.streams i waiting;
        })
    ends : (i : ℕ) → s.streams i ≡ waiting → Step s (record s { streams = set_at s.streams i over })
    fails :
        (i : ℕ) (es : List WebhookEvent)
        → s.streams i ≡ holding es
        → Step s (record s { streams = set_at s.streams i over })
    ticks :
        (i : ℕ)
        → s.relays i ≡ idle
        → Step s (record s {
          relays =
              set_at s.relays i (passing (retrieve_events_for_repository s.store (relay_of i)));
        })
    relays_one :
        (i p : ℕ) (ps : List ℕ) (works : ℕ → Bool)
        → s.relays i ≡ passing (p ∷ ps)
        → (relay_event relay (relay_of i) works p (begin s.store.heap)).exited ≡ false
        → Step s (record s {
          store = record s.store {
            heap = (relay_event relay (relay_of i) works p (begin s.store.heap)).heap;
          };
          relays = set_at s.relays i (passing ps);
          handed =
              if is_empty (relay_event relay (relay_of i) works p (begin s.store.heap)).sent
              then s.handed
              else note (relay_of i) ((s.store.heap.cell p).id ∷ []) s.handed;
        })
    passes :
        (i : ℕ) → s.relays i ≡ passing [] → Step s (record s { relays = set_at s.relays i idle })
    sweeps : s.sweep ≡ resting → Step s (record s { sweep = between w.repositories })
    sweeps_next :
        (r : String) (rs : List String)
        → s.sweep ≡ between (r ∷ rs)
        → Step s (record s { sweep = sweeping r (retrieve_events_for_repository s.store r) rs })
    sweeps_one :
        (now : ℕ) (r : String) (p : ℕ) (ps : List ℕ) (rs : List String)
        → s.sweep ≡ sweeping r (p ∷ ps) rs
        → Step s
            (record s { store = cleanup_events now r (p ∷ []) s.store; sweep = sweeping r ps rs })
    sweeps_on :
        (r : String) (rs : List String)
        → s.sweep ≡ sweeping r [] rs
        → Step s (record s { sweep = between rs })
    rests : s.sweep ≡ between [] → Step s (record s { sweep = resting })

  -- What is reached from a new store.
  pub data Reach : System → Type 0 where
    start :
        (heap : Heap) (otel_enabled meter_ok : Bool)
        → heap.next ≡ 0
        → Reach (new_system heap otel_enabled meter_ok)
    later : {s t : System} → Reach s → Step s t → Reach t
