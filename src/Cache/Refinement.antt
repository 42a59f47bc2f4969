-- ===== src/Cache/Refinement.antt =====
-- The in-memory store implements its specification.
use gitstafette.Common.{
  ℕ, ◌≡◌, refl, fun_ext, String, true, false, not, ◌&&◌, List, [], ◌∷◌, ◌++◌, map, map-append, ◌==◌,
  eq_iff, arith, length-map, mem, mem_above, member, keep, slice_at, if◌then◌else◌,
}
use gitstafette.Event.{WebhookEventInternal}
use gitstafette.Cache.Heap.{Heap, alloc, ids, map-cell-update}
use gitstafette.Cache.InMemory.{InMemoryStore, remove, without_id, set_not_relayed}
use gitstafette.Cache.InMemory.Slices.{
  retrieve-eq-slice, slice-remove, heap-remove, slice-store, heap-store, store-result,
  remove-result,
}
use gitstafette.Cache.InMemory.Invariant.{IsWellFormed}
use gitstafette.Cache.Ingest.{insert}
use gitstafette.Cache.Ingest.Invariant.{map-alloc}
use gitstafette.Cache.Spec.{view, event_ids, spec_insert, spec_remove}

pub view-eq-map :
    (s : InMemoryStore) (r : String) → view s r ≡ map s.heap.cell (slice_at r s.events)
unfolding view
view-eq-map s r = rw retrieve-eq-slice

pub event_ids-view :
    (s : InMemoryStore) (r : String) → event_ids (view s r) ≡ ids s.heap (slice_at r s.events)
event_ids-view s r = rw view-eq-map (map-map (slice_at r s.events))
  where
    map-map : (ps : List ℕ) → event_ids (map s.heap.cell ps) ≡ ids s.heap ps
    map-map [] = refl
    map-map (p ∷ ps) = cc (map-map ps)

map-without_id :
    (h : Heap) (id : String) (ps : List ℕ)
    → map h.cell (without_id h id ps) ≡ keep (λ e. not (e.id == id)) (map h.cell ps)
unfolding without_id
map-without_id h id [] = refl
map-without_id h id (p ∷ ps) = ground (arith, map-without_id h id ps)

-- `Remove` drops the events with the id of its argument from the repository, and no other, and says
-- whether the repository had any event.
pub view-remove :
    (s : InMemoryStore) (r : String) (p : ℕ)
    → (view (remove s r p).0 ≡ (spec_remove (view s) r (s.heap.cell p).id).0)
      × ((remove s r p).1 ≡ (spec_remove (view s) r (s.heap.cell p).id).1)
view-remove s r p = (
  fun_ext (λ q.
      simp (view-eq-map, heap-remove, slice-remove)
        (ground (arith, map-without_id s.heap (s.heap.cell p).id (slice_at r s.events)))),
  rw (remove-result, view-eq-map, length-map) refl,
)

map-set_not_relayed :
    (h : Heap) (p : ℕ) (qs : List ℕ)
    → mem p qs ≡ false
    → map (set_not_relayed h p).cell qs ≡ map h.cell qs
unfolding set_not_relayed
map-set_not_relayed h p qs m = map-cell-update h.cell p _ qs m

module _ (s : InMemoryStore) (r : String) (e : WebhookEventInternal) (v : IsWellFormed s) where
  -- What was stored before is seen unchanged.
  insert_cells :
      (q : String)
      → map (insert s r e).0.heap.cell (slice_at q s.events) ≡ map s.heap.cell (slice_at q s.events)
  unfolding insert
  insert_cells q = rw heap-store (
      ground (
        arith,
        map-set_not_relayed (alloc s.heap e) s.heap.next (slice_at q s.events),
        mem_above s.heap.next (slice_at q s.events) (v.allocated q),
        map-alloc (λ x. x) s.heap e (slice_at q s.events) (v.allocated q),
      ))

  pub insert-result : (insert s r e).1 ≡ (spec_insert (view s) r e).1
  unfolding insert alloc
  insert-result =
      rw
        (
          store-result,
          event_ids-view,
          map-alloc (λ x. x.id) s.heap e (slice_at r s.events) (v.allocated r),
        )
        (ground arith)

  new_cell :
      (insert s r e).1 ≡ true
      → (insert s r e).0.heap.cell s.heap.next ≡ record e { is_relayed = false }
  unfolding insert alloc set_not_relayed
  new_cell = rw heap-store (ground arith)

  pub slice-insert :
      (q : String)
      → slice_at q (insert s r e).0.events ≡ (
          if r == q && (insert s r e).1
          then slice_at r s.events ++ s.heap.next ∷ []
          else slice_at q s.events)
  unfolding insert
  slice-insert q = slice-store _ r s.heap.next q

  -- In a well-formed store a new event is put behind the others of its repository, not relayed; an
  -- event with a known id changes nothing that can be retrieved. The result says which.
  pub view-insert :
      (view (insert s r e).0 ≡ (spec_insert (view s) r e).0)
      × ((insert s r e).1 ≡ (spec_insert (view s) r e).1)
  view-insert = (
    fun_ext (λ q. rw (← insert-result) (
        simp (view-eq-map, slice-insert)
          (ground (
            arith,
            eq_iff r q,
            insert_cells q,
            insert_cells r,
            new_cell,
            map-append (insert s r e).0.heap.cell (slice_at r s.events) (s.heap.next ∷ []),
          )))),
    insert-result,
  )

  -- A new id: the event is the last of its repository.
  pub view-insert_new :
      (insert s r e).1 ≡ true
      → (member e.id (event_ids (view s r)) ≡ false)
        × (view (insert s r e).0
            ≡ (λ q. if r == q then view s q ++ record e { is_relayed = false } ∷ [] else view s q))
  view-insert_new h = (
    ground (arith, insert-result),
    fun_ext (λ q. rw view-insert.0 (ground (arith, h, insert-result, eq_iff r q))),
  )

  -- A known id: nothing changes that can be retrieved.
  pub view-insert_known : (insert s r e).1 ≡ false → view (insert s r e).0 ≡ view s
  view-insert_known h = fun_ext (λ q. rw view-insert.0 (ground (arith, h, insert-result)))
