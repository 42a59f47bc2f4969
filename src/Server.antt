-- ===== src/Server.antt =====
-- internal/server/gsf_server.go: the gRPC side of the server. `FetchWebhookEvents` streams the
-- events that are not relayed yet, while other goroutines change the store.
pub mod Marking
pub mod Pending
pub mod Changes
pub mod Delivery
pub mod Rounds
pub mod Eventually
pub mod Push
pub mod Status
use gitstafette.Event.{external_to_internal_event}
use gitstafette.Common.{
  ℕ, ◌+◌, ◌*◌, String, Bool, true, false, Option, none, some, List, [], ◌∷◌, ◌++◌, ◌==◌, ltb,
  if◌then◌else◌,
}
use gitstafette.Event.{WebhookEvent, WebhookEventInternal, internal_to_external_event}
use gitstafette.Cache.Heap.{Heap, write}
use gitstafette.Cache.InMemory.{InMemoryStore, retrieve_events_for_repository, remove}
use gitstafette.Cache.Ingest.{GoError, insert, event}
use gitstafette.Cache.Watcher.{RepositoryWatcher, repository_is_watched}

pub data Fetched : Type 0 where
  fetched : List WebhookEvent → Fetched
  refused : String → Fetched

unfoldable pub not_relayed_events : Heap → List ℕ → List WebhookEvent
not_relayed_events h [] = []
not_relayed_events h (p ∷ ps) =
    if (h.cell p).is_relayed
    then not_relayed_events h ps
    else internal_to_external_event (h.cell p) ∷ not_relayed_events h ps

unfoldable pub retrieve_cached_events_for_repository :
    RepositoryWatcher → InMemoryStore → String → Fetched
unfolding not_relayed_events
retrieve_cached_events_for_repository w s repository_id =
    if repository_is_watched w repository_id
    then fetched (not_relayed_events s.heap (retrieve_events_for_repository s repository_id))
    else refused "cannot fetch events for empty repository id"

-- The inner loop of `updateRelayStatus`, for one event that was sent.
unfoldable pub mark_matching : ℕ → String → List ℕ → Heap → Heap
mark_matching now event_id [] h = h
mark_matching now event_id (p ∷ ps) h = mark_matching now event_id ps (
    if (h.cell p).id == event_id
    then write h p (record (h.cell p) { is_relayed = true; time_relayed = now })
    else h)

unfoldable pub mark_all : ℕ → List WebhookEvent → List ℕ → Heap → Heap
unfolding mark_matching
mark_all now [] ps h = h
mark_all now (e ∷ es) ps h = mark_all now es ps (mark_matching now e.event_id ps h)

-- `now` is what `time.Now()` reads, one reading for the whole call.
unfoldable pub update_relay_status : ℕ → List WebhookEvent → String → InMemoryStore → InMemoryStore
unfolding mark_all
update_relay_status now events repository_id s = record s {
  heap = mark_all now events (retrieve_events_for_repository s repository_id) s.heap;
}

-- A request may lack its event, which is then nil.
pub record WebhookEventPushRequest : Type 0 where
  pub client_id : String
  pub repository_id : String
  pub webhook_event : Option WebhookEvent

pub record WebhookEventPushResponse : Type 0 where
  pub response_code : String
  pub response_description : String
  pub accepted : Bool

abbrev push_response : Bool → WebhookEventPushResponse
push_response accepted = record {
  response_code = "200";
  response_description = "depends";
  accepted = accepted;
}

abbrev push_answer :
    Option (InMemoryStore × GoError) → Option (InMemoryStore × WebhookEventPushResponse × GoError)
push_answer none = none
push_answer (some (s, none)) = some (s, push_response true, none)
push_answer (some (s, some e)) = some (s, push_response false, some e)

-- `cache.Event` with the pointer of a request: a nil event is a nil dereference in
-- `ExternalToInternalEvent`.
abbrev pub event_at :
    ℕ → InMemoryStore → String → Option WebhookEvent → Option (InMemoryStore × GoError)
event_at now s repository_id none = none
event_at now s repository_id (some e) = event now s repository_id e

-- `none` is a panic, on a nil event or a nil header.
unfoldable pub webhook_event_push :
    ℕ
    → InMemoryStore
    → WebhookEventPushRequest
    → Option (InMemoryStore × WebhookEventPushResponse × GoError)
webhook_event_push now s request =
    push_answer (event_at now s request.repository_id request.webhook_event)

-- What the request of a push is for the cache, unless it makes the server panic.
abbrev pub pushed_event : ℕ → Option WebhookEvent → Option WebhookEventInternal
pushed_event now none = none
pushed_event now (some e) = external_to_internal_event now e

-- What another goroutine does to the store: an event arrives, a removal, another stream's marks.
pub data Change : Type 0 where
  arrives : String → WebhookEventInternal → Change
  removes : String → ℕ → Change
  marks : ℕ → List WebhookEvent → String → Change

unfoldable pub change : Change → InMemoryStore → InMemoryStore
change (arrives r e) s = (insert s r e).0
change (removes r p) s = (remove s r p).0
change (marks now es r) s = update_relay_status now es r s

unfoldable pub changes : List Change → InMemoryStore → InMemoryStore
unfolding change
changes [] s = s
changes (c ∷ cs) s = changes cs (change c s)

-- What wakes the `select` of `FetchWebhookEvents`. A tick has the clock's reading for the marks,
-- what `srv.Send` returns, and the changes of others before the retrieval and during the sending.
pub data Wake : Type 0 where
  tick : ℕ → GoError → List Change → List Change → Wake
  client_done : Wake
  main_done : Wake

-- The stream goes on, has ended, or has failed.
pub data Outcome : Type 0 where
  streaming : Outcome
  closed : Outcome
  failed : String → Outcome

-- `sent` holds the events of every response that was sent, in order.
pub record Stream : Type 0 where
  pub store : InMemoryStore
  pub sent : List WebhookEvent
  pub outcome : Outcome

-- What the round does with what was retrieved, and with what `srv.Send` returns.
abbrev pub answer : String → ℕ → List Change → Fetched → GoError → Stream → Stream
answer r now during (refused message) send_error st = record st { outcome = failed message }
answer r now during (fetched events) (some message) st = record st {
  store = changes during st.store;
  outcome = failed message;
}
answer r now during (fetched events) none st = record st {
  store = update_relay_status now events r (changes during st.store);
  sent = st.sent ++ events;
}

-- The case of the `select` in which the interval is over.
unfoldable pub respond :
    RepositoryWatcher → String → ℕ → GoError → List Change → List Change → Stream → Stream
unfolding changes
respond w r now send_error before during st =
    let s = changes before st.store in
    answer r now during (retrieve_cached_events_for_repository w s r) send_error
      (record st { store = s })

unfoldable pub wake : RepositoryWatcher → String → Wake → Stream → Stream
unfolding respond
wake w r (tick now send_error before during) st = respond w r now send_error before during st
wake w r client_done st = record st { outcome = closed }
wake w r main_done st = record st { outcome = closed }

-- The loop. The schedule gives, for each round, the clock's reading at the test and what wakes the
-- `select`. Where the schedule ends the stream still waits.
unfoldable pub fetch_loop : RepositoryWatcher → String → ℕ → List (ℕ × Wake) → Stream → Stream
unfolding wake
fetch_loop w r finish [] st = st
fetch_loop w r finish ((now, woken) ∷ rest) st =
    if ltb now finish
    then (let next = wake w r woken st in
        elim next.outcome [
          | streaming ↦ fetch_loop w r finish rest next
          | closed ↦ next
          | failed message ↦ next
        ])
    else record st { outcome = closed }

pub record WebhookEventsRequest : Type 0 where
  pub client_id : String
  pub repository_id : String
  pub last_received_event_id : ℕ
  pub duration_secs : ℕ

abbrev pub second : ℕ
second = 1_000_000_000

unfoldable pub fetch_webhook_events :
    RepositoryWatcher → WebhookEventsRequest → ℕ → List (ℕ × Wake) → InMemoryStore → Stream
unfolding fetch_loop
fetch_webhook_events w request now schedule s =
    fetch_loop w request.repository_id (now + second * request.duration_secs) schedule
      (record { store = s; sent = []; outcome = streaming })
