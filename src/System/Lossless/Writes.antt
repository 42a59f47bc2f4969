-- ===== src/System/Lossless/Writes.antt =====
-- What writes and removals do to the store and to the ids that were sent on.
use gitstafette.Common.{
  ℕ, ◌<◌, ◌≡◌, String, true, ◌||◌, List, [], ◌∷◌, ◌==◌, eq_iff, arith, member, member-append,
  map-agree, slice_at,
}
use gitstafette.Cache.Heap.{Heap, ids}
use gitstafette.Cache.InMemory.{InMemoryStore, remove, without_id}
use gitstafette.Cache.InMemory.Slices.{slice-remove, heap-remove}
use gitstafette.Cache.InMemory.Invariant.{remove-IsWellFormed, heap-IsWellFormed, mem-without_id}
use gitstafette.System.{note}
use gitstafette.System.Lossless.{IsMade, IsLossless}

-- Writes that change no id.
pub IsMade-heap :
    (heap h : Heap) (origin : ℕ → String) (accepted : String → List String)
    → h.next ≡ heap.next
    → ((p : ℕ) → (h.cell p).id ≡ (heap.cell p).id)
    → (q : String) (p : ℕ) → IsMade heap origin accepted q p
    → IsMade h origin accepted q p
IsMade-heap heap h origin accepted same_next same_id q p m = record {
  alive = omega (arith, m.alive, same_next);
  from = m.from;
  taken = rw (same_id p) m.taken;
}

module _ (s : InMemoryStore) (origin : ℕ → String) (accepted handed : String → List String)
    (v : IsLossless s origin accepted handed) where
  -- Writes to objects that exist, which change no id, with more ids noted as sent on.
  module _ (h : Heap) (r : String) (xs : List String) (same_next : h.next ≡ s.heap.next)
      (same_id : (p : ℕ) → (h.cell p).id ≡ (s.heap.cell p).id)
      (told : (p : ℕ)
        → p < s.heap.next
        → (h.cell p).is_relayed ≡ true
        → (member (s.heap.cell p).id (note r xs handed (origin p)) ≡ true))
      (known : (x : String) → member x xs ≡ true → member x (accepted r) ≡ true) where
    ids-heap : (ps : List ℕ) → ids h ps ≡ ids s.heap ps
    ids-heap ps = map-agree _ _ ps (λ p m. same_id p)

    known-heap :
        (q x : String) → member x (note r xs handed q) ≡ true → member x (accepted q) ≡ true
    known-heap q x m =
        ground (arith, m, eq_iff r q, member-append x xs (handed q), known x, v.known q x)

    pub heap-IsLossless : IsLossless (record s { heap = h }) origin accepted (note r xs handed)
    heap-IsLossless = record {
      well_formed = heap-IsWellFormed s h same_next same_id v.well_formed;
      made = λ q p m. IsMade-heap s.heap h origin accepted same_next same_id q p (v.made q p m);
      told = λ p l m. rw (same_id p) (told p (omega (arith, l, same_next)) m);
      kept = λ q x m.
          ground
            (arith, ids-heap (slice_at q s.events), v.kept q x m, member-append x xs (handed q));
      known = known-heap;
    }

  member-without_id :
      (id x : String) (ps : List ℕ)
      → member x (ids s.heap ps) ≡ true
      → (member x (ids s.heap (without_id s.heap id ps)) || id == x) ≡ true
  unfolding without_id
  member-without_id id x [] m = cc
  member-without_id id x (p ∷ ps) m = ground (
    arith,
    member-without_id id x ps,
    eq_iff (s.heap.cell p).id id,
    eq_iff (s.heap.cell p).id x,
    eq_iff id x,
  )

  -- The removal of an object's id that was sent on.
  pub remove-IsLossless :
      (r : String) (p : ℕ)
      → member (s.heap.cell p).id (handed r) ≡ true
      → IsLossless (remove s r p).0 origin accepted handed
  remove-IsLossless r p sent = record {
    well_formed = remove-IsWellFormed s r p v.well_formed;
    made = λ q x m. rw heap-remove (
        v.made q x (
          ground (
            arith,
            m,
            slice-remove s r p q,
            eq_iff r q,
            mem-without_id s.heap (s.heap.cell p).id x (slice_at r s.events),
          )));
    told = λ x l m. ground (arith, heap-remove s r p, v.told x, l, m);
    kept = λ q x m. ground (
      arith,
      heap-remove s r p,
      slice-remove s r p q,
      eq_iff r q,
      eq_iff (s.heap.cell p).id x,
      v.kept q x m,
      member-without_id (s.heap.cell p).id x (slice_at r s.events),
      sent,
    );
    known = v.known;
  }
