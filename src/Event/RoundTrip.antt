-- ===== src/Event/RoundTrip.antt =====
-- An event that is made a message, sent over gRPC and read back.
use gitstafette.Common.{
  ℕ, zero, suc, ◌≡◌, refl, String, false, ◌&&◌, Option, none, some, ◌↔◌, ◌≢◌, List, [], ◌∷◌, ◌++◌,
  map, append-nil, append_assoc, ◌==◌, arith, length, replicate, keep, if◌then◌else◌,
}
use gitstafette.Event.{
  WebhookEventHeader, WebhookEventInternal, Header, WebhookEvent, delivery_id_header, is_filled,
  collect_headers, external_to_internal_event, to_header, internal_to_external_event,
}

abbrev pub or_empty : Option Header → Header
or_empty none = record { name = ""; values = "" }
or_empty (some h) = h

-- google.golang.org/protobuf: what the receiver of a message reads. A nil entry of a repeated
-- field is written as an empty message.
pub record Wire : Type 0 where
  pub transmit : WebhookEvent → WebhookEvent
  pub transmit_lem :
      (e : WebhookEvent)
      → transmit e ≡ record e { headers = map (λ h. some (or_empty h)) e.headers }

abbrev pub filled : List WebhookEventHeader → List WebhookEventHeader
filled = keep (λ h. is_filled h.key h.first_value)

-- The last filled header that bears the delivery id gives it.
abbrev pub delivery_id_of : String → List WebhookEventHeader → String
delivery_id_of id [] = id
delivery_id_of id (h ∷ hs) =
    delivery_id_of
      (if is_filled h.key h.first_value && h.key == delivery_id_header then h.first_value else id)
      hs

abbrev pub of_header : Header → WebhookEventHeader
of_header h = record { key = h.name; first_value = h.values }

pub collect_lem :
    (hs : List Header) (id : String) (found : List WebhookEventHeader)
    → collect_headers (map some hs) id found
      ≡ some (delivery_id_of id (map of_header hs), found ++ filled (map of_header hs))
unfolding collect_headers
collect_lem [] id found = rw append-nil
collect_lem (h ∷ hs) id found = ground (
  arith,
  collect_lem hs id found,
  collect_lem hs id (found ++ of_header h ∷ []),
  collect_lem hs h.values (found ++ of_header h ∷ []),
  append_assoc found (of_header h ∷ []) (filled (map of_header hs)),
)

-- The empty headers that `make` put in front are filtered out.
pub filled-replicate :
    (n : ℕ) (hs : List WebhookEventHeader)
    → filled (replicate n (record { key = ""; first_value = "" }) ++ hs) ≡ filled hs
filled-replicate zero hs = refl
filled-replicate (suc n) hs = filled-replicate n hs

pub delivery_id_of-replicate :
    (n : ℕ) (id : String) (hs : List WebhookEventHeader)
    → delivery_id_of id (replicate n (record { key = ""; first_value = "" }) ++ hs)
      ≡ delivery_id_of id hs
delivery_id_of-replicate zero id hs = refl
delivery_id_of-replicate (suc n) id hs = delivery_id_of-replicate n id hs

-- What the receiver reads of the headers that `InternalToExternalEvent` makes.
wire_headers :
    (n : ℕ) (hs : List WebhookEventHeader)
    → map (λ h. some (or_empty h)) (replicate n none ++ map to_header hs)
      ≡ map some (
          replicate n (record { name = ""; values = "" })
          ++ map (λ h. record { name = h.key; values = h.first_value }) hs)
wire_headers zero [] = refl
wire_headers zero (h ∷ hs) = cc (wire_headers zero hs)
wire_headers (suc n) hs = cc (wire_headers n hs)

of_header-wire :
    (n : ℕ) (hs : List WebhookEventHeader)
    → map of_header (
        replicate n (record { name = ""; values = "" })
        ++ map (λ h. record { name = h.key; values = h.first_value }) hs)
      ≡ replicate n (record { key = ""; first_value = "" }) ++ hs
of_header-wire zero [] = refl
of_header-wire zero (h ∷ hs) = cc (of_header-wire zero hs)
of_header-wire (suc n) hs = cc (of_header-wire n hs)

-- An event that goes over the wire keeps its body and its filled headers, in order, is not relayed
-- for the receiver, and has the id that its last filled delivery header gives.
pub external_to_internal-transmit :
    (w : Wire) (now : ℕ) (e : WebhookEventInternal)
    → external_to_internal_event now (w.transmit (internal_to_external_event e))
      ≡ some (record {
        id = delivery_id_of "" e.headers;
        is_relayed = false;
        time_relayed = 0;
        time_received = now;
        headers = filled e.headers;
        event_body = e.event_body;
      })
unfolding external_to_internal_event internal_to_external_event
external_to_internal-transmit w now e =
    rw
      (
        w.transmit_lem, wire_headers, external_to_internal_event, collect_lem, of_header-wire,
        filled-replicate, delivery_id_of-replicate,
      )
      (rw w.transmit_lem)

-- Without the wire between them the two conversions do not fit: the nil headers in front make
-- `ExternalToInternalEvent` panic on any event that has a header.
pub external_to_internal_panics :
    (now : ℕ) (e : WebhookEventInternal)
    → (external_to_internal_event now (internal_to_external_event e) ≡ none) ↔ (e.headers ≢ [])
unfolding external_to_internal_event internal_to_external_event collect_headers
external_to_internal_panics now e = by_headers e.headers
  where
    by_headers :
        (hs : List WebhookEventHeader)
        → (external_to_internal_event now (record {
          event_id = e.id;
          body = e.event_body;
          headers = replicate (length hs) none ++ map to_header hs;
        })
            ≡ none)
          ↔ (hs ≢ [])
    by_headers [] = (λ h. cc, λ h. absurd (h refl))
    by_headers (h ∷ hs) = (λ x y. cc, λ y. refl)
