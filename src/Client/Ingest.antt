-- ===== src/Client/Ingest.antt =====
-- What a client has in its cache after a response of the server.
use gitstafette.Common.{
  ℕ, ◌≡◌, ◌∙◌, refl, ap, String, false, ◌||◌, some, List, [], ◌∷◌, map, map-append, ◌==◌, eq_iff,
  arith, member, member-append,
}
use gitstafette.Event.{
  WebhookEvent, WebhookEventInternal, Header, external_to_internal_event, internal_of,
  collect_headers,
}
use gitstafette.Event.RoundTrip.{filled, delivery_id_of, of_header, collect_lem}
use gitstafette.Cache.InMemory.{InMemoryStore}
use gitstafette.Cache.InMemory.Invariant.{IsWellFormed}
use gitstafette.Cache.Ingest.{insert, event}
use gitstafette.Cache.Ingest.Invariant.{insert-IsWellFormed}
use gitstafette.Cache.Spec.{view, event_ids}
use gitstafette.Cache.Refinement.{view-insert}
use gitstafette.Webhook.Signature.{Mac, validate_event_always}
use gitstafette.Client.{GrpcClientConfig, going, receive_event, receive_events}

-- The headers of each event of a response. None of them is nil, as they come off the wire.
abbrev pub HasHeaders : List WebhookEvent → List (List Header) → Type 0
HasHeaders [] [] = Unit {0}
HasHeaders (e ∷ es) (hs ∷ hss) = (e.headers ≡ map some hs) × HasHeaders es hss
HasHeaders _ _ = ⊥

-- The id that an event gets in the cache of the client.
abbrev pub id_of : List Header → String
id_of hs = delivery_id_of "" (map of_header hs)

abbrev pub ids_of : List (List Header) → List String
ids_of = map id_of

parsed : ℕ → WebhookEvent → List Header → WebhookEventInternal
parsed now e hs = internal_of now e.body (id_of hs, filled (map of_header hs))

id-parsed : (now : ℕ) (e : WebhookEvent) (hs : List Header) → (parsed now e hs).id ≡ id_of hs
unfolding parsed
id-parsed now e hs = refl

external-eq-parsed :
    (now : ℕ) (e : WebhookEvent) (hs : List Header)
    → e.headers ≡ map some hs
    → external_to_internal_event now e ≡ some (parsed now e hs)
unfolding external_to_internal_event parsed
external-eq-parsed now e hs h =
    let found = ap (λ x. collect_headers x "" []) h ∙ collect_lem hs "" [] in
    rw (found, external_to_internal_event) refl

receive_event_lem :
    (mac : Mac) (client : GrpcClientConfig) (now : ℕ) (e : WebhookEvent) (hs : List Header)
    (s : InMemoryStore)
    → e.headers ≡ map some hs
    → receive_event mac client now e s ≡ going (insert s client.repository_id (parsed now e hs)).0
unfolding receive_event event
receive_event_lem mac client now e hs s h =
    rw (validate_event_always mac client.webhook_hmac e hs h, external-eq-parsed now e hs h) refl

-- The id of what is inserted is there afterwards, and no other is new.
member-insert :
    (s : InMemoryStore) (r : String) (e : WebhookEventInternal) (x : String)
    → IsWellFormed s
    → member x (event_ids (view (insert s r e).0 r))
      ≡ (member x (event_ids (view s r)) || e.id == x)
member-insert s r e x v = rw (view-insert s r e v).0 (
    ground (
      arith,
      eq_iff r r,
      eq_iff e.id x,
      map-append (λ (y : WebhookEventInternal). y.id) (view s r)
          (record e { is_relayed = false } ∷ []),
      member-append x (event_ids (view s r)) (e.id ∷ []),
    ))

-- A response with no nil header, whatever its digests, is cached in a well-formed store without
-- error. The store stays well formed, and the repository has the ids that it had and those that the
-- headers of the response give, and no others.
pub receive_events_lem :
    (mac : Mac) (client : GrpcClientConfig) (now : ℕ) (es : List WebhookEvent)
    (hss : List (List Header)) (s : InMemoryStore)
    → HasHeaders es hss
    → IsWellFormed s
    → (s' : InMemoryStore) × (receive_events mac client now es s ≡ going s')
      × IsWellFormed s'
      × ((x : String)
          → member x (event_ids (view s' client.repository_id))
            ≡ (member x (event_ids (view s client.repository_id)) || member x (ids_of hss)))
unfolding receive_events
receive_events_lem mac client now [] [] s h v = (s, refl, v, λ x. ground arith)
receive_events_lem mac client now (e ∷ es) [] s h v = absurd h
receive_events_lem mac client now [] (hs ∷ hss) s h v = absurd h
receive_events_lem mac client now (e ∷ es) (hs ∷ hss) s h v =
    let next = (insert s client.repository_id (parsed now e hs)).0 in
    let rest =
      receive_events_lem mac client now es hss next h.1
        (insert-IsWellFormed s client.repository_id (parsed now e hs) v) in
    (
      rest.0,
      rw (receive_event_lem mac client now e hs s h.0, receive_events) rest.1,
      rest.2,
      λ x. ground (
        arith,
        rest.3 x,
        member-insert s client.repository_id (parsed now e hs) x v,
        id-parsed now e hs,
      ),
    )
