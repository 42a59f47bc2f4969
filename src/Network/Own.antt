-- ===== src/Network/Own.antt =====
-- The id of an event is the one that its headers give, on the server and on the way to a client.
use gitstafette.Server.{pushed_event}
use gitstafette.Common.{
  ℕ, ◌<◌, ◌≡◌, ◌≢◌, inl, inr, refl, String, ◌&&◌, Option, none, some, List, [], ◌∷◌, ◌++◌, ◌==◌,
  arith, Option-cases, Bool-cases, eqb, Distinct, if◌then◌else◌,
}
use gitstafette.Event.{
  WebhookEvent, WebhookEventInternal, WebhookEventHeader, Header, delivery_id_header, is_filled,
  collect_headers, external_to_internal_event,
}
use gitstafette.Event.RoundTrip.{delivery_id_of, delivery_id_of-replicate}
use gitstafette.Cache.Heap.{Heap, alloc, write}
use gitstafette.Cache.InMemory.{InMemoryStore, set_not_relayed}
use gitstafette.Cache.InMemory.Slices.{heap-store}
use gitstafette.Cache.Ingest.{insert}
use gitstafette.Server.{mark_all}
use gitstafette.Server.Marking.{cell-mark_all, next-mark_all}
use gitstafette.System.Lossless.Insertion.{next-insert, cell-insert}
use gitstafette.Webhook.{GitstafetteContext}
use gitstafette.Webhook.Post.{incoming}
use gitstafette.Webhook.Delivered.{keys, delivery_id_of-first_values}

abbrev pub IsOwn : WebhookEventInternal → Type 0
IsOwn e = delivery_id_of "" e.headers ≡ e.id

-- Of all objects that have been made.
abbrev pub OwnIds : Heap → Type 0
OwnIds heap = (p : ℕ) → p < heap.next → IsOwn (heap.cell p)

delivery_id_of-append :
    (hs : List WebhookEventHeader) (id : String) (h : WebhookEventHeader)
    → delivery_id_of id (hs ++ h ∷ []) ≡ (
        if is_filled h.key h.first_value && h.key == delivery_id_header
        then h.first_value
        else delivery_id_of id hs)
delivery_id_of-append [] id h = refl
delivery_id_of-append (g ∷ hs) id h = delivery_id_of-append hs _ h

collect_own :
    (hs : List (Option Header)) (id : String) (found : List WebhookEventHeader) (id' : String)
    (found' : List WebhookEventHeader)
    → collect_headers hs id found ≡ some (id', found')
    → delivery_id_of "" found ≡ id
    → delivery_id_of "" found' ≡ id'
unfolding collect_headers
collect_own [] id found id' found' h own = ground (arith, h, own)
collect_own (none ∷ hs) id found id' found' h own = cc
collect_own (some x ∷ hs) id found id' found' h own =
    let header : WebhookEventHeader = record { key = x.name; first_value = x.values } in
    collect_own hs _ _ id' found' h (ground (arith, own, delivery_id_of-append found "" header))

-- A pushed event, and one that a client receives.
pub external-IsOwn :
    (now : ℕ) (event : WebhookEvent) (e : WebhookEventInternal)
    → external_to_internal_event now event ≡ some e
    → IsOwn e
unfolding external_to_internal_event
external-IsOwn now event e h = elim (Option-cases (collect_headers event.headers "" [])) [
  | inl panics ↦ ground (arith, h, panics)
  | inr (found, ok) ↦ ground (arith, h, ok, collect_own event.headers "" [] found.0 found.1 ok refl)
]

pub pushed-IsOwn :
    (now : ℕ) (event : Option WebhookEvent) (e : WebhookEventInternal)
    → pushed_event now event ≡ some e
    → IsOwn e
pushed-IsOwn now none e h = cc
pushed-IsOwn now (some event) e h = external-IsOwn now event e h

-- An event of a request, whose headers are a map.
pub incoming-IsOwn :
    (now : ℕ) (ctx : GitstafetteContext) → Distinct (keys ctx.headers) → IsOwn (incoming now ctx)
unfolding incoming
incoming-IsOwn now ctx d =
    rw (delivery_id_of-replicate, delivery_id_of-first_values ctx.headers d) refl

IsOwn-insert :
    (s : InMemoryStore) (r : String) (e : WebhookEventInternal)
    → IsOwn e
    → IsOwn ((insert s r e).0.heap.cell s.heap.next)
unfolding insert alloc set_not_relayed write
IsOwn-insert s r e own = rw heap-store (ground (arith, own))

pub insert-OwnIds :
    (s : InMemoryStore) (r : String) (e : WebhookEventInternal)
    → IsOwn e
    → OwnIds s.heap
    → OwnIds (insert s r e).0.heap
insert-OwnIds s r e own all p l = elim (Bool-cases (eqb p s.heap.next)) [
  | inl new ↦ let same : p ≡ s.heap.next = ground (arith, new) in rw same (IsOwn-insert s r e own)
  | inr old ↦
      let apart : p ≢ s.heap.next = ground (arith, old) in
      let before : p < s.heap.next = omega (arith, next-insert s r e, l, apart) in
      rw (cell-insert s r e p before) (all p before)
]

pub mark_all-OwnIds :
    (now : ℕ) (es : List WebhookEvent) (ps : List ℕ) (heap : Heap)
    → OwnIds heap
    → OwnIds (mark_all now es ps heap)
mark_all-OwnIds now es ps heap all p l =
    ground (arith, cell-mark_all now es ps heap p, all p, next-mark_all now es ps heap, l)
