-- ===== src/Cache/InMemory/Invariant.antt =====
-- What holds of every in-memory store that the program reaches.
use gitstafette.Common.{
  ℕ, ◌<◌, ◌≡◌, refl, fun_ext, String, Bool, true, false, List, [], ◌∷◌, ◌++◌, map-append, eq_iff,
  arith, mem, member, Distinct, Distinct-snoc, AllBelow, AllBelow-append, mem-append, slice_at,
}
use gitstafette.Cache.Heap.{Heap, ids}
use gitstafette.Cache.InMemory.{
  InMemoryStore, new_in_memory_store, store, without_id, remove, set_not_relayed,
}
use gitstafette.Cache.InMemory.Slices.{
  slice-remove, heap-remove, slice-store, heap-store, store-result,
}

-- Slices hold allocated events, with distinct ids, and no event is in two repositories.
pub record IsWellFormed (s : InMemoryStore) : Type 0 where
  pub allocated : (r : String) → AllBelow s.heap.next (slice_at r s.events)
  pub distinct : (r : String) → Distinct (ids s.heap (slice_at r s.events))
  pub owned :
      (r q : String) (p : ℕ)
      → mem p (slice_at r s.events) ≡ true
      → mem p (slice_at q s.events) ≡ true
      → r ≡ q

pub new_in_memory_store-IsWellFormed :
    (heap : Heap) (otel_enabled meter_ok : Bool)
    → IsWellFormed (new_in_memory_store heap otel_enabled meter_ok)
unfolding new_in_memory_store
new_in_memory_store-IsWellFormed heap otel_enabled meter_ok = record {
  allocated = λ r. tt;
  distinct = λ r. tt;
  owned = λ r q p m n. cc;
}

pub AllBelow-without_id :
    (h : Heap) (id : String) (n : ℕ) (ps : List ℕ) → AllBelow n ps → AllBelow n (without_id h id ps)
unfolding without_id
AllBelow-without_id h id n [] b = tt
AllBelow-without_id h id n (p ∷ ps) b = ground (arith, AllBelow-without_id h id n ps b.1)

pub mem-without_id :
    (h : Heap) (id : String) (p : ℕ) (ps : List ℕ)
    → mem p (without_id h id ps) ≡ true
    → mem p ps ≡ true
unfolding without_id
mem-without_id h id p [] m = m
mem-without_id h id p (q ∷ ps) m = ground (arith, mem-without_id h id p ps)

pub member-without_id :
    (h : Heap) (id x : String) (ps : List ℕ)
    → member x (ids h ps) ≡ false
    → member x (ids h (without_id h id ps)) ≡ false
unfolding without_id
member-without_id h id x [] m = m
member-without_id h id x (q ∷ ps) m = ground (arith, member-without_id h id x ps)

pub Distinct-without_id :
    (h : Heap) (id : String) (ps : List ℕ)
    → Distinct (ids h ps)
    → Distinct (ids h (without_id h id ps))
unfolding without_id
Distinct-without_id h id [] d = tt
Distinct-without_id h id (q ∷ ps) d =
    ground (arith, Distinct-without_id h id ps d.1, member-without_id h id (h.cell q).id ps d.0)

ids-set_not_relayed : (h : Heap) (p : ℕ) (qs : List ℕ) → ids (set_not_relayed h p) qs ≡ ids h qs
unfolding set_not_relayed
ids-set_not_relayed h p [] = refl
ids-set_not_relayed h p (q ∷ qs) = ground (arith, ids-set_not_relayed h p qs)

next-set_not_relayed : (h : Heap) (p : ℕ) → (set_not_relayed h p).next ≡ h.next
unfolding set_not_relayed
next-set_not_relayed h p = refl

-- A removal keeps the store well formed.
pub remove-IsWellFormed :
    (s : InMemoryStore) (r : String) (p : ℕ) → IsWellFormed s → IsWellFormed (remove s r p).0
remove-IsWellFormed s r p v = record {
  allocated = λ q.
      rw (heap-remove, slice-remove)
        (ground (
          arith,
          AllBelow-without_id s.heap (s.heap.cell p).id s.heap.next (slice_at r s.events),
          v.allocated r,
          v.allocated q,
        ));
  distinct = λ q.
      rw (heap-remove, slice-remove)
        (ground (
          arith,
          Distinct-without_id s.heap (s.heap.cell p).id (slice_at r s.events),
          v.distinct r,
          v.distinct q,
        ));
  owned = λ q q' x. ground (
    arith,
    slice-remove s r p q,
    slice-remove s r p q',
    eq_iff r q,
    eq_iff r q',
    mem-without_id s.heap (s.heap.cell p).id x (slice_at r s.events),
    v.owned q q' x,
  );
}

-- Storing a new object, one that no slice holds yet, keeps the store well formed.
pub store-IsWellFormed :
    (s : InMemoryStore) (r : String) (p : ℕ)
    → p < s.heap.next
    → ((q : String) → mem p (slice_at q s.events) ≡ false)
    → IsWellFormed s
    → IsWellFormed (store s r p).0
store-IsWellFormed s r p alive fresh v = record {
  allocated = λ q.
      rw (heap-store, slice-store)
        (ground (
          arith,
          v.allocated r,
          v.allocated q,
          next-set_not_relayed s.heap p,
          AllBelow-append s.heap.next (slice_at r s.events) (p ∷ []),
        ));
  distinct = λ q.
      rw (heap-store, slice-store)
        (ground (
          arith,
          store-result s r p,
          v.distinct r,
          v.distinct q,
          ids-set_not_relayed s.heap p (slice_at q s.events),
          ids-set_not_relayed s.heap p (slice_at r s.events ++ p ∷ []),
          map-append (λ x. (s.heap.cell x).id) (slice_at r s.events) (p ∷ []),
          Distinct-snoc (ids s.heap (slice_at r s.events)) (s.heap.cell p).id,
        ));
  owned = λ q q' x. ground (
    arith,
    slice-store s r p q,
    slice-store s r p q',
    eq_iff r q,
    eq_iff r q',
    mem-append x (slice_at r s.events) (p ∷ []),
    fresh q,
    fresh q',
    v.owned q q' x,
    v.owned r q' x,
    v.owned q r x,
  );
}

-- Writes that change no id keep the store well formed.
pub heap-IsWellFormed :
    (s : InMemoryStore) (h : Heap)
    → h.next ≡ s.heap.next
    → ((p : ℕ) → (h.cell p).id ≡ (s.heap.cell p).id)
    → IsWellFormed s
    → IsWellFormed (record s { heap = h })
heap-IsWellFormed s h n e v = record {
  allocated = λ r. rw n (v.allocated r);
  distinct = λ r. rw (fun_ext e) (v.distinct r);
  owned = v.owned;
}
