-- ===== src/System/Lossless/Insertion.antt =====
-- What an arrival does to the store and to the ids that were taken.
use gitstafette.Common.{
  ℕ, ◌+◌, ◌<◌, ◌≡◌, ◌⊎◌, inl, inr, refl, String, Bool, true, false, ◌||◌, List, [], ◌∷◌, map-append,
  eq_iff, arith, mem, mem-append, member, member-append, map-agree, slice_at,
}
use gitstafette.Event.{WebhookEventInternal}
use gitstafette.Cache.Heap.{Heap, alloc, write, ids}
use gitstafette.Cache.InMemory.{InMemoryStore, set_not_relayed}
use gitstafette.Cache.InMemory.Slices.{heap-store}
use gitstafette.Cache.Ingest.{insert}
use gitstafette.Cache.Ingest.Invariant.{insert-IsWellFormed}
use gitstafette.Cache.Refinement.{slice-insert, insert-result, event_ids-view}
use gitstafette.System.{set_at, accept}
use gitstafette.System.Lossless.{IsMade, IsLossless, member-accept}

module _ (s : InMemoryStore) (r : String) (e : WebhookEventInternal) where
  pub next-insert : (insert s r e).0.heap.next ≡ s.heap.next + 1
  unfolding insert alloc set_not_relayed write
  next-insert = rw heap-store (ground arith)

  pub cell-insert : (p : ℕ) → p < s.heap.next → (insert s r e).0.heap.cell p ≡ s.heap.cell p
  unfolding insert alloc set_not_relayed write
  cell-insert p h = rw heap-store (ground arith)

  id-insert : ((insert s r e).0.heap.cell s.heap.next).id ≡ e.id
  unfolding insert alloc set_not_relayed write
  id-insert = rw heap-store (ground arith)

  relayed-insert :
      e.is_relayed ≡ false → ((insert s r e).0.heap.cell s.heap.next).is_relayed ≡ false
  unfolding insert alloc set_not_relayed write
  relayed-insert h = rw heap-store (ground arith)

-- Objects made before stay made, with the origin of the next address and the ids taken extended.
pub IsMade-insert :
    (s : InMemoryStore) (r : String) (e : WebhookEventInternal) (b : Bool) (origin : ℕ → String)
    (accepted : String → List String) (q : String) (p : ℕ)
    → IsMade s.heap origin accepted q p
    → IsMade (insert s r e).0.heap (set_at origin s.heap.next r) (accept b r e.id accepted) q p
IsMade-insert s r e b origin accepted q p m = record {
  alive = omega (arith, m.alive, next-insert s r e);
  from = ground (arith, m.alive, m.from);
  taken =
      rw (cell-insert s r e p m.alive)
        (member-accept b r e.id q (s.heap.cell p).id accepted m.taken);
}

-- The origin of the next address may be noted before anything stands there.
pub IsMade-origin :
    (heap : Heap) (origin : ℕ → String) (accepted : String → List String) (r q : String) (p : ℕ)
    → IsMade heap origin accepted q p
    → IsMade heap (set_at origin heap.next r) accepted q p
IsMade-origin heap origin accepted r q p m = record {
  alive = m.alive;
  from = ground (arith, m.alive, m.from);
  taken = m.taken;
}

module _ (s : InMemoryStore) (origin : ℕ → String) (accepted handed : String → List String)
    (v : IsLossless s origin accepted handed) where
  pub origin-IsLossless : (r : String) → IsLossless s (set_at origin s.heap.next r) accepted handed
  origin-IsLossless r = record {
    well_formed = v.well_formed;
    made = λ q p m. IsMade-origin s.heap origin accepted r q p (v.made q p m);
    told = λ p l m. ground (arith, l, v.told p l m);
    kept = v.kept;
    known = v.known;
  }

  -- An arrival, which is noted as taken at least if it is stored.
  module _ (r : String) (e : WebhookEventInternal) (b : Bool) (fresh : e.is_relayed ≡ false)
      (noted : (insert s r e).1 ≡ true → b ≡ true) where
    ids-insert :
        (q : String)
        → ids (insert s r e).0.heap (slice_at q s.events) ≡ ids s.heap (slice_at q s.events)
    ids-insert q =
        map-agree _ _ (slice_at q s.events)
          (λ p m. rw (cell-insert s r e p (v.made q p m).alive) refl)

    inserted-IsMade :
        (q : String) (p : ℕ)
        → mem p (slice_at q (insert s r e).0.events) ≡ true
        → IsMade (insert s r e).0.heap (set_at origin s.heap.next r) (accept b r e.id accepted) q p
    inserted-IsMade q p m = elim (mem-insert q p m) [
      | inl old ↦ IsMade-insert s r e b origin accepted q p (v.made q p old)
      | inr (same, new, stored) ↦ record {
        alive = omega (arith, next-insert s r e, new);
        from = ground (arith, same, new);
        taken =
            rw (new, id-insert s r e, noted stored)
              (ground (arith, same, eq_iff r q, eq_iff e.id e.id));
      }
    ]
      where
        mem-insert :
            (q : String) (p : ℕ)
            → mem p (slice_at q (insert s r e).0.events) ≡ true
            → (mem p (slice_at q s.events) ≡ true)
              ⊎ ((r ≡ q) × (p ≡ s.heap.next) × ((insert s r e).1 ≡ true))
        mem-insert q p m = ground (
          arith,
          m,
          slice-insert s r e v.well_formed q,
          eq_iff r q,
          mem-append p (slice_at r s.events) (s.heap.next ∷ []),
        )

    told-insert :
        (p : ℕ)
        → p < (insert s r e).0.heap.next
        → ((insert s r e).0.heap.cell p).is_relayed ≡ true
        → member ((insert s r e).0.heap.cell p).id (handed (set_at origin s.heap.next r p)) ≡ true
    told-insert p h m =
        ground (arith, next-insert s r e, cell-insert s r e p, relayed-insert s r e fresh, v.told p)

    kept-insert :
        (q x : String)
        → member x (accept b r e.id accepted q) ≡ true
        → (member x (ids (insert s r e).0.heap (slice_at q (insert s r e).0.events))
            || member x (handed q))
          ≡ true
    kept-insert q x m = ground (
      arith,
      slice-insert s r e v.well_formed q,
      insert-result s r e v.well_formed,
      event_ids-view s r,
      eq_iff r q,
      eq_iff e.id x,
      ids-insert q,
      ids-insert r,
      id-insert s r e,
      v.kept q x,
      map-append (λ p. ((insert s r e).0.heap.cell p).id) (slice_at r s.events) (s.heap.next ∷ []),
      member-append x (ids s.heap (slice_at r s.events)) (e.id ∷ []),
    )

    pub insert-IsLossless :
        IsLossless (insert s r e).0 (set_at origin s.heap.next r) (accept b r e.id accepted) handed
    insert-IsLossless = record {
      well_formed = insert-IsWellFormed s r e v.well_formed;
      made = inserted-IsMade;
      told = told-insert;
      kept = kept-insert;
      known = λ q x m. member-accept b r e.id q x accepted (v.known q x m);
    }
