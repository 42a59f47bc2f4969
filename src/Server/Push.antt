-- ===== src/Server/Push.antt =====
-- `WebhookEventPush`, for any request: what the cache makes of the message of a push.
use gitstafette.Common.{
  ℕ, ◌≡◌, refl, String, Bool, true, false, Option, none, some, List, [], ◌∷◌, ◌++◌, map, arith,
  append-nil, append_assoc, Option-cases, inl, inr, if◌then◌else◌,
}
use gitstafette.Event.{
  Header, WebhookEventHeader, WebhookEvent, WebhookEventInternal, collect_headers,
  external_to_internal_event,
}
use gitstafette.Event.RoundTrip.{or_empty, of_header, filled, delivery_id_of}
use gitstafette.Cache.InMemory.{InMemoryStore}
use gitstafette.Cache.InMemory.Invariant.{IsWellFormed}
use gitstafette.Cache.Ingest.{GoError, event}
use gitstafette.Cache.Spec.{Events, view, spec_insert}
use gitstafette.Cache.Refinement.{view-insert}
use gitstafette.Server.{WebhookEventPushRequest, WebhookEventPushResponse, webhook_event_push}

-- Whether no header is nil, and whether there is an event at all.
abbrev pub has_headers : List (Option Header) → Bool
has_headers [] = true
has_headers (none ∷ hs) = false
has_headers (some h ∷ hs) = has_headers hs

abbrev pub is_whole : Option WebhookEvent → Bool
is_whole none = false
is_whole (some e) = has_headers e.headers

abbrev pub headers_of : List (Option Header) → List WebhookEventHeader
headers_of hs = map (λ h. of_header (or_empty h)) hs

-- The event as the receiver has it: its id is in its last filled delivery header.
abbrev pub received_event : ℕ → WebhookEvent → WebhookEventInternal
received_event now e = record {
  id = delivery_id_of "" (headers_of e.headers);
  is_relayed = false;
  time_relayed = 0;
  time_received = now;
  headers = filled (headers_of e.headers);
  event_body = e.body;
}

-- What a push of the message is to the specification: the events then, whether the push was accepted,
-- and its error; or a panic.
abbrev pub spec_push : ℕ → Events → String → Option WebhookEvent → Option (Events × Bool × GoError)
spec_push now v r none = none
spec_push now v r (some e) =
    if has_headers e.headers
    then some ((spec_insert v r (received_event now e)).0, true, none)
    else none

abbrev pub seen :
    Option (InMemoryStore × WebhookEventPushResponse × GoError) → Option (Events × Bool × GoError)
seen none = none
seen (some (s, response, e)) = some (view s, response.accepted, e)

collect-has_headers :
    (hs : List (Option Header)) (id : String) (found : List WebhookEventHeader)
    → collect_headers hs id found ≡ (
        if has_headers hs
        then some (delivery_id_of id (headers_of hs), found ++ filled (headers_of hs))
        else none)
unfolding collect_headers
collect-has_headers [] id found = rw append-nil
collect-has_headers (none ∷ hs) id found = refl
collect-has_headers (some h ∷ hs) id found = ground (
  arith,
  collect-has_headers hs id found,
  collect-has_headers hs id (found ++ of_header h ∷ []),
  collect-has_headers hs h.values (found ++ of_header h ∷ []),
  append_assoc found (of_header h ∷ []) (filled (headers_of hs)),
)

external-received_event :
    (now : ℕ) (e : WebhookEvent)
    → external_to_internal_event now e
      ≡ (if has_headers e.headers then some (received_event now e) else none)
unfolding external_to_internal_event
external-received_event now e = ground (arith, collect-has_headers e.headers "" [])

-- A push, of any request, panics exactly if the request has no event or one of its headers is nil.
-- Otherwise, on a well-formed store, it is accepted without an error, also if its id is known, and
-- the store does what the specification's insertion does with the event: its id is in its last
-- filled delivery header, and the headers that are not filled are dropped.
pub push_lem :
    (now : ℕ) (request : WebhookEventPushRequest) (s : InMemoryStore)
    → IsWellFormed s
    → seen (webhook_event_push now s request)
      ≡ spec_push now (view s) request.repository_id request.webhook_event
unfolding webhook_event_push event
push_lem now request s v = elim (Option-cases request.webhook_event) [
  | inl missing ↦ rw missing refl
  | inr (e, given) ↦
      rw (given, external-received_event)
        (ground (arith, (view-insert s request.repository_id (received_event now e) v).0))
]
