-- ===== src/Network/Received.antt =====
-- What a client has in its cache after it has received messages.
use gitstafette.Common.{
  ℕ, ◌≡◌, ◌∙◌, refl, sym, ap, String, ◌||◌, some, List, [], ◌∷◌, ◌++◌, map, map-append, map-map,
  append-nil, append_assoc, arith, member,
}
use gitstafette.Event.{WebhookEvent, Header}
use gitstafette.Event.RoundTrip.{Wire, or_empty}
use gitstafette.Cache.InMemory.{InMemoryStore}
use gitstafette.Cache.InMemory.Invariant.{IsWellFormed}
use gitstafette.Cache.Spec.{view, event_ids}
use gitstafette.Client.{GrpcClientConfig, going, receive_events}
use gitstafette.Client.Ingest.{HasHeaders, ids_of, receive_events_lem}
use gitstafette.Client.Round.{received_from}
use gitstafette.Server.Marking.{sent_ids}
use gitstafette.Webhook.Signature.{Mac}
use gitstafette.Network.{flatten, wire_ids}

pub flatten-append :
    (ess : List (List WebhookEvent)) (es : List WebhookEvent)
    → flatten (ess ++ es ∷ []) ≡ flatten ess ++ es
flatten-append [] es = append-nil es
flatten-append (fs ∷ ess) es = rw (flatten-append ess es) (sym (append_assoc fs (flatten ess) es))

pub wire_ids-append : (es fs : List WebhookEvent) → wire_ids (es ++ fs) ≡ wire_ids es ++ wire_ids fs
wire_ids-append es fs = map-append _ es fs

pub sent_ids-append : (es fs : List WebhookEvent) → sent_ids (es ++ fs) ≡ sent_ids es ++ sent_ids fs
sent_ids-append es fs = map-append _ es fs

-- What is received of any messages has no nil header, and gives the ids of the wire.
module _ (wire : Wire) where
  abbrev pub read_headers : List WebhookEvent → List (List Header)
  read_headers = map (λ e. map or_empty e.headers)

  pub received-HasHeaders :
      (es : List WebhookEvent) → HasHeaders (received_from wire es) (read_headers es)
  received-HasHeaders [] = tt
  received-HasHeaders (e ∷ es) = (
    ap (λ (x : WebhookEvent). x.headers) (wire.transmit_lem e)
        ∙ sym (map-map some or_empty e.headers),
    received-HasHeaders es,
  )

  ids_of-read_headers : (es : List WebhookEvent) → ids_of (read_headers es) ≡ wire_ids es
  ids_of-read_headers [] = refl
  ids_of-read_headers (e ∷ es) = cc (ids_of-read_headers es)

  -- A client with a well-formed cache then has the ids that it had and those of the messages.
  pub received_lem :
      (mac : Mac) (client : GrpcClientConfig) (now : ℕ) (es : List WebhookEvent)
      (s s' : InMemoryStore)
      → IsWellFormed s
      → receive_events mac client now (received_from wire es) s ≡ going s'
      → IsWellFormed s'
        × ((x : String)
            → member x (event_ids (view s' client.repository_id))
              ≡ (member x (event_ids (view s client.repository_id)) || member x (wire_ids es)))
  received_lem mac client now es s s' v h =
      let done =
        receive_events_lem mac client now (received_from wire es) (read_headers es) s
          (received-HasHeaders es) v in
      let same : done.0 ≡ s' = ground (arith, h, done.1) in
      rw (← same) (done.2, λ x. rw (← ids_of-read_headers es) (done.3 x))
