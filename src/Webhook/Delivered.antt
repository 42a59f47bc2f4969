-- ===== src/Webhook/Delivered.antt =====
-- An event from GitHub's request to the cache of a client.
use gitstafette.Common.{
  ℕ, ◌≡◌, refl, String, false, some, List, [], ◌∷◌, map, eq_iff, arith, member, Distinct,
}
use gitstafette.Event.{delivery_id_header, external_to_internal_event, internal_to_external_event}
use gitstafette.Event.RoundTrip.{
  Wire, filled, delivery_id_of, filled-replicate, delivery_id_of-replicate,
  external_to_internal-transmit,
}
use gitstafette.Cache.Ingest.{HttpHeader, first_or_empty, get_header}
use gitstafette.Webhook.{GitstafetteContext}
use gitstafette.Webhook.Post.{incoming, first_values}

abbrev pub keys : HttpHeader → List String
keys = map (λ h. h.0)

no_delivery_header :
    (id : String) (hs : HttpHeader)
    → member delivery_id_header (keys hs) ≡ false
    → delivery_id_of id (first_values hs) ≡ id
no_delivery_header id [] m = refl
no_delivery_header id ((k, vs) ∷ hs) m = ground (arith, no_delivery_header id hs)

-- In a map the delivery header stands once, so the last one is the one that `Get` finds.
pub delivery_id_of-first_values :
    (hs : HttpHeader)
    → Distinct (keys hs)
    → delivery_id_of "" (first_values hs) ≡ get_header hs delivery_id_header
unfolding get_header
delivery_id_of-first_values [] d = refl
delivery_id_of-first_values ((k, vs) ∷ hs) d = ground (
  arith,
  delivery_id_of-first_values hs d.1,
  no_delivery_header "" hs,
  no_delivery_header (first_or_empty vs) hs,
  eq_iff k delivery_id_header,
  eq_iff (first_or_empty vs) "",
  eq_iff k "",
  eq_iff delivery_id_header "",
)

-- The event that the server makes of a request whose header keys are distinct, sent over gRPC and
-- read by a client, has for the client the delivery id and the body that the request had, and its
-- headers whose key and first value are not empty.
pub delivered_lem :
    (w : Wire) (now later : ℕ) (ctx : GitstafetteContext)
    → Distinct (keys ctx.headers)
    → external_to_internal_event later (w.transmit (internal_to_external_event (incoming now ctx)))
      ≡ some (record {
        id = get_header ctx.headers delivery_id_header;
        is_relayed = false;
        time_relayed = 0;
        time_received = later;
        headers = filled (first_values ctx.headers);
        event_body = ctx.message_payload;
      })
unfolding incoming
delivered_lem w now later ctx d =
    rw
      (
        external_to_internal-transmit,
        filled-replicate,
        delivery_id_of-replicate,
        delivery_id_of-first_values ctx.headers d,
      )
      refl
