-- ===== src/Client/Round.antt =====
-- What a round of the server's stream brings to the cache of a client.
use gitstafette.Common.{
  ℕ, zero, suc, ◌≡◌, ◌∙◌, refl, sym, ap, String, true, ◌||◌, none, some, List, [], ◌∷◌, ◌++◌, map,
  map-map, member, replicate,
}
use gitstafette.Event.{
  WebhookEvent, WebhookEventHeader, WebhookEventInternal, Header, to_header,
  internal_to_external_event,
}
use gitstafette.Event.RoundTrip.{
  Wire, or_empty, of_header, delivery_id_of, delivery_id_of-replicate,
}
use gitstafette.Cache.InMemory.{InMemoryStore}
use gitstafette.Cache.InMemory.Invariant.{IsWellFormed}
use gitstafette.Cache.Spec.{view, event_ids}
use gitstafette.Cache.Watcher.{RepositoryWatcher, repository_is_watched}
use gitstafette.Server.{fetched, retrieve_cached_events_for_repository}
use gitstafette.Server.Pending.{pending}
use gitstafette.Server.Changes.{retrieve_lem}
use gitstafette.Webhook.Signature.{Mac}
use gitstafette.Client.{GrpcClientConfig, going, receive_events}
use gitstafette.Client.Ingest.{HasHeaders, id_of, ids_of, receive_events_lem}

-- The ids that the headers of events give.
abbrev pub delivery_ids : List WebhookEventInternal → List String
delivery_ids = map (λ e. delivery_id_of "" e.headers)

-- The headers that a receiver reads, none of which is nil.
unfoldable pub wire_headers_of : WebhookEventInternal → List Header
wire_headers_of e = map or_empty (internal_to_external_event e).headers

of_header-wire_headers :
    (n : ℕ) (hs : List WebhookEventHeader)
    → map of_header (map or_empty (replicate n none ++ map to_header hs))
      ≡ replicate n (record { key = ""; first_value = "" }) ++ hs
of_header-wire_headers zero [] = refl
of_header-wire_headers zero (h ∷ hs) = cc (of_header-wire_headers zero hs)
of_header-wire_headers (suc n) hs = cc (of_header-wire_headers n hs)

pub id_of-wire_headers :
    (e : WebhookEventInternal) → id_of (wire_headers_of e) ≡ delivery_id_of "" e.headers
unfolding wire_headers_of internal_to_external_event
id_of-wire_headers e = rw (of_header-wire_headers, delivery_id_of-replicate) refl

ids_of-wire_headers :
    (es : List WebhookEventInternal) → ids_of (map wire_headers_of es) ≡ delivery_ids es
ids_of-wire_headers [] = refl
ids_of-wire_headers (e ∷ es) = cc (id_of-wire_headers e, ids_of-wire_headers es)

module _ (wire : Wire) where
  -- A response as it is received.
  abbrev pub received_from : List WebhookEvent → List WebhookEvent
  received_from = map wire.transmit

  headers-transmit :
      (e : WebhookEventInternal)
      → (wire.transmit (internal_to_external_event e)).headers ≡ map some (wire_headers_of e)
  unfolding wire_headers_of
  headers-transmit e =
      ap (λ (x : WebhookEvent). x.headers) (wire.transmit_lem (internal_to_external_event e))
      ∙ sym (map-map some or_empty (internal_to_external_event e).headers)

  received-HasHeaders :
      (es : List WebhookEventInternal)
      → HasHeaders (received_from (map internal_to_external_event es)) (map wire_headers_of es)
  received-HasHeaders [] = tt
  received-HasHeaders (e ∷ es) = (headers-transmit e, received-HasHeaders es)

  -- What the server retrieves for a watched repository can be sent to a client with a well-formed
  -- cache: the client takes it without error, and its repository then has the ids that it had and
  -- those that the headers of the events not relayed on the server give, and no others.
  pub receive-retrieve :
      (watched : RepositoryWatcher) (server : InMemoryStore) (r : String) (mac : Mac)
      (client : GrpcClientConfig) (now : ℕ) (s : InMemoryStore)
      → repository_is_watched watched r ≡ true
      → IsWellFormed s
      → (es : List WebhookEvent) × (retrieve_cached_events_for_repository watched server r
          ≡ fetched es)
        × ((s' : InMemoryStore) × (receive_events mac client now (received_from es) s ≡ going s')
            × ((x : String)
                → member x (event_ids (view s' client.repository_id)) ≡ (
                    member x (event_ids (view s client.repository_id))
                    || member x (delivery_ids (pending (view server r))))))
  receive-retrieve watched server r mac client now s w v =
      let es = pending (view server r) in
      let done =
        receive_events_lem mac client now (received_from (map internal_to_external_event es))
          (map wire_headers_of es) s (received-HasHeaders es) v in
      (
        map internal_to_external_event es,
        rw (retrieve_lem watched server r, w) refl,
        (done.0, done.1, λ x. rw (← ids_of-wire_headers es) (done.3 x)),
      )
