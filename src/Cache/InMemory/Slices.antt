-- ===== src/Cache/InMemory/Slices.antt =====
-- What each operation of the store does to the slices, to the heap and to its result.
use gitstafette.Common.{
  ℕ, ◌≡◌, refl, String, Bool, true, false, not, ◌&&◌, List, [], ◌∷◌, ◌++◌, ◌==◌, eq_iff, arith, ltb,
  length, member, slice_at, slice_at-put, if◌then◌else◌,
}
use gitstafette.Cache.Heap.{Heap, ids}
use gitstafette.Cache.InMemory.{
  InMemoryStore, has_id, store, without_id, remove, set_not_relayed, is_nil,
  retrieve_events_for_repository,
}

pub has_id-eq-member :
    (h : Heap) (id : String) (ps : List ℕ) → has_id h id ps ≡ member id (ids h ps)
unfolding has_id
has_id-eq-member h id [] = refl
has_id-eq-member h id (p ∷ ps) = ground (arith, has_id-eq-member h id ps)

pub retrieve-eq-slice :
    (s : InMemoryStore) (r : String) → retrieve_events_for_repository s r ≡ slice_at r s.events
unfolding retrieve_events_for_repository
retrieve-eq-slice s r = by_length (slice_at r s.events)
  where
    by_length : (ps : List ℕ) → (if ltb 0 (length ps) then ps else []) ≡ ps
    by_length [] = refl
    by_length (p ∷ ps) = ground arith

without_id-nil : (h : Heap) (id : String) (ps : List ℕ) → is_nil ps ≡ true → without_id h id ps ≡ ps
unfolding without_id
without_id-nil h id [] e = refl
without_id-nil h id (p ∷ ps) e = cc

module _ (s : InMemoryStore) (r : String) (p : ℕ) where
  pub slice-remove :
      (q : String)
      → slice_at q (remove s r p).0.events ≡ (
          if r == q
          then without_id s.heap (s.heap.cell p).id (slice_at r s.events)
          else slice_at q s.events)
  unfolding remove
  slice-remove q = ground (
    arith,
    eq_iff r q,
    without_id-nil s.heap (s.heap.cell p).id (slice_at r s.events),
    slice_at-put r q (without_id s.heap (s.heap.cell p).id (slice_at r s.events)) s.events,
  )

  pub heap-remove : (remove s r p).0.heap ≡ s.heap
  unfolding remove
  heap-remove = ground arith

  pub slice-store :
      (q : String)
      → slice_at q (store s r p).0.events
        ≡ (if r == q && (store s r p).1 then slice_at r s.events ++ p ∷ [] else slice_at q s.events)
  unfolding store
  slice-store q =
      ground (arith, eq_iff r q, slice_at-put r q (slice_at r s.events ++ p ∷ []) s.events)

  pub heap-store :
      (store s r p).0.heap ≡ (if (store s r p).1 then set_not_relayed s.heap p else s.heap)
  unfolding store
  heap-store = ground arith

  -- The result says whether the id was new.
  pub store-result :
      (store s r p).1 ≡ not (member (s.heap.cell p).id (ids s.heap (slice_at r s.events)))
  unfolding store
  store-result = ground (arith, has_id-eq-member s.heap (s.heap.cell p).id (slice_at r s.events))

  -- The result says whether there was anything to look through.
  pub remove-result : (remove s r p).1 ≡ ltb 0 (length (slice_at r s.events))
  unfolding remove
  remove-result = by_length (slice_at r s.events) _
    where
      by_length :
          (ps : List ℕ) (t : InMemoryStore)
          → (if◌then◌else◌ {A = InMemoryStore × Bool} (is_nil ps) (s, false) (t, true)).1
            ≡ ltb 0 (length ps)
      by_length [] t = refl
      by_length (q ∷ ps) t = ground arith
