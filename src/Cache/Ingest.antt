-- ===== src/Cache/Ingest.antt =====
-- internal/cache/event_cache.go, `Event` and `InternalEvent`: what the gRPC side and the webhook
-- endpoint put into the store.
pub mod Invariant
use gitstafette.Common.{
  ℕ, String, Bool, false, Option, none, some, List, [], ◌∷◌, ◌++◌, length, replicate, slice_at,
}
use gitstafette.Event.{
  Bytes, WebhookEvent, WebhookEventInternal, WebhookEventHeader, external_to_internal_event,
  delivery_id_header,
}
use gitstafette.Cache.Heap.{alloc}
use gitstafette.Cache.InMemory.{InMemoryStore, store}

-- An `error` is nil or a message.
abbrev pub GoError : Type 0
GoError = Option String

-- The entries of an `http.Header` in some order, which is that in which `range` visits them.
abbrev pub HttpHeader : Type 0
HttpHeader = List (String × List String)

abbrev pub first_or_empty : List String → String
first_or_empty [] = ""
first_or_empty (v ∷ vs) = v

-- `headers.Get`, for a key in its canonical form.
unfoldable pub get_header : HttpHeader → String → String
get_header headers key = first_or_empty (slice_at key headers)

-- A new object is made, and `Store.Store` is given its address.
unfoldable pub insert : InMemoryStore → String → WebhookEventInternal → InMemoryStore × Bool
insert s repository_id event =
    store (record s { heap = alloc s.heap event }) repository_id s.heap.next

abbrev store_external :
    InMemoryStore → String → Option WebhookEventInternal → Option (InMemoryStore × GoError)
store_external s repository_id none = none
store_external s repository_id (some e) = some ((insert s repository_id e).0, none)

-- What `Store` returns is dropped. `none` is the panic on a nil header.
unfoldable pub event : ℕ → InMemoryStore → String → WebhookEvent → Option (InMemoryStore × GoError)
event now s repository_id e = store_external s repository_id (external_to_internal_event now e)

-- The loop over the headers of the request. `value[0]` of an empty list of values panics.
unfoldable pub append_headers :
    HttpHeader → List WebhookEventHeader → Option (List WebhookEventHeader)
append_headers [] found = some found
append_headers ((key, []) ∷ rest) found = none
append_headers ((key, value ∷ _) ∷ rest) found =
    append_headers rest (found ++ record { key = key; first_value = value } ∷ [])

abbrev pub empty_header : WebhookEventHeader
empty_header = record { key = ""; first_value = "" }

abbrev pub received : ℕ → String → Bytes → List WebhookEventHeader → WebhookEventInternal
received now delivery_id body headers = record {
  id = delivery_id;
  is_relayed = false;
  time_relayed = 0;
  time_received = now;
  headers = headers;
  event_body = body;
}

abbrev store_received :
    ℕ
    → InMemoryStore
    → String
    → Bytes
    → String
    → Option (List WebhookEventHeader)
    → Option (InMemoryStore × Bool × GoError)
store_received now s repository_id body delivery_id none = none
store_received now s repository_id body delivery_id (some headers) =
    let (s', stored) = insert s repository_id (received now delivery_id body headers) in
    some (s', stored, none)

-- `make([]api.WebhookEventHeader, len(headers))` has an empty header for each header, and `append`
-- adds behind them.
unfoldable pub internal_event :
    ℕ → InMemoryStore → String → Bytes → HttpHeader → Option (InMemoryStore × Bool × GoError)
unfolding append_headers get_header
internal_event now s repository_id body headers =
    store_received now s repository_id body (get_header headers delivery_id_header)
      (append_headers headers (replicate (length headers) empty_header))
