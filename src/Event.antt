-- ===== src/Event.antt =====
-- api/v1/webhook_event.go: a webhook event as the cache holds it and as it goes over the wire,
-- and the conversions between the two. The wire messages are those of api/v1/gitstafette.pb.go.
pub mod RoundTrip
use gitstafette.Common.{
  ℕ, String, Bool, false, not, ◌&&◌, Option, none, some, List, [], ◌∷◌, ◌++◌, map, ◌==◌, length,
  replicate, if◌then◌else◌,
}

-- A text of the wire is a `String`; a body, `[]byte` or the Go string made of it, is its bytes.
abbrev pub Bytes : Type 0
Bytes = List ℕ

pub record WebhookEventHeader : Type 0 where
  pub key : String
  pub first_value : String

-- The times are nanoseconds since Go's zero time, so an unset `TimeRelayed` is 0.
pub record WebhookEventInternal : Type 0 where
  pub id : String
  pub is_relayed : Bool
  pub time_relayed : ℕ
  pub time_received : ℕ
  pub headers : List WebhookEventHeader
  pub event_body : Bytes

pub record Header : Type 0 where
  pub name : String
  pub values : String

-- A message's headers are pointers, which may be nil.
pub record WebhookEvent : Type 0 where
  pub event_id : String
  pub body : Bytes
  pub headers : List (Option Header)

abbrev pub delivery_id_header : String
delivery_id_header = "X-Github-Delivery"

-- `key != "" && value != ""`
abbrev pub is_filled : String → String → Bool
is_filled key value = not (key == "") && not (value == "")

-- The loop of `ExternalToInternalEvent`: the delivery id and the headers found so far.
-- A nil header is a nil dereference, `none`.
unfoldable pub collect_headers :
    List (Option Header)
    → String
    → List WebhookEventHeader
    → Option (String × List WebhookEventHeader)
collect_headers [] delivery_id found = some (delivery_id, found)
collect_headers (none ∷ rest) delivery_id found = none
collect_headers (some header ∷ rest) delivery_id found =
    let filled = is_filled header.name header.values in
    collect_headers rest
      (if filled && header.name == delivery_id_header then header.values else delivery_id)
      (if filled
        then found ++ record { key = header.name; first_value = header.values } ∷ []
        else found)

abbrev pub internal_of : ℕ → Bytes → String × List WebhookEventHeader → WebhookEventInternal
internal_of now body (delivery_id, headers) = record {
  id = delivery_id;
  is_relayed = false;
  time_relayed = 0;
  time_received = now;
  headers = headers;
  event_body = body;
}

-- `now` is what `time.Now()` reads.
unfoldable pub external_to_internal_event : ℕ → WebhookEvent → Option WebhookEventInternal
unfolding collect_headers
external_to_internal_event now event = elim (collect_headers event.headers "" []) [
  | none ↦ none
  | some found ↦ some (internal_of now event.body found)
]

abbrev pub to_header : WebhookEventHeader → Option Header
to_header header = some (record { name = header.key; values = header.first_value })

-- `make([]*Header, len(headers))` has one nil for each header, and `append` adds behind them.
unfoldable pub internal_to_external_event : WebhookEventInternal → WebhookEvent
internal_to_external_event event = record {
  event_id = event.id;
  body = event.event_body;
  headers = replicate (length event.headers) none ++ map to_header event.headers;
}
