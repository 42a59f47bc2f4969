-- ===== src/System/Lossless.antt =====
-- What ties the store to the ids that were taken and sent on.
pub mod Insertion
pub mod Writes
use gitstafette.Common.{
  ℕ, ◌+◌, ◌<◌, ◌≡◌, ◌⊎◌, inl, inr, refl, String, Bool, true, false, ◌||◌, List, [], ◌∷◌, map-append,
  ◌==◌, eq_iff, arith, mem, mem-append, member, member-append, map-agree, slice_at,
}
use gitstafette.Event.{WebhookEventInternal}
use gitstafette.Cache.Heap.{Heap, alloc, write, ids}
use gitstafette.Cache.InMemory.{InMemoryStore, set_not_relayed, remove, without_id}
use gitstafette.Cache.InMemory.Slices.{slice-remove, heap-remove, heap-store}
use gitstafette.Cache.InMemory.Invariant.{
  IsWellFormed, remove-IsWellFormed, heap-IsWellFormed, mem-without_id,
}
use gitstafette.Cache.Ingest.{insert}
use gitstafette.Cache.Ingest.Invariant.{insert-IsWellFormed}
use gitstafette.Cache.Refinement.{slice-insert, insert-result, event_ids-view}
use gitstafette.System.{set_at, accept, note}

-- The object at the address was made for the repository, and its id was taken there.
pub record IsMade (heap : Heap) (origin : ℕ → String) (accepted : String → List String) (r : String)
    (p : ℕ) : Type 0 where
  pub alive : p < heap.next
  pub from : origin p ≡ r
  pub taken : member (heap.cell p).id (accepted r) ≡ true

pub record IsLossless (s : InMemoryStore) (origin : ℕ → String)
    (accepted handed : String → List String) : Type 0 where
  pub well_formed : IsWellFormed s
  pub made :
      (r : String) (p : ℕ) → mem p (slice_at r s.events) ≡ true → IsMade s.heap origin accepted r p
  -- What is marked relayed was sent on.
  pub told :
      (p : ℕ)
      → p < s.heap.next
      → (s.heap.cell p).is_relayed ≡ true
      → member (s.heap.cell p).id (handed (origin p)) ≡ true
  -- What was taken is stored or was sent on.
  pub kept :
      (r x : String)
      → member x (accepted r) ≡ true
      → (member x (ids s.heap (slice_at r s.events)) || member x (handed r)) ≡ true
  -- What was sent on was taken.
  pub known : (r x : String) → member x (handed r) ≡ true → member x (accepted r) ≡ true

pub member-note :
    (r : String) (xs : List String) (q x : String) (f : String → List String)
    → member x (f q) ≡ true
    → member x (note r xs f q) ≡ true
member-note r xs q x f m = ground (arith, m, member-append x xs (f q))

pub member-noted :
    (r : String) (xs : List String) (x : String) (f : String → List String)
    → member x xs ≡ true
    → member x (note r xs f r) ≡ true
member-noted r xs x f m = ground (arith, m, eq_iff r r, member-append x xs (f r))

pub member-accept :
    (b : Bool) (r id q x : String) (f : String → List String)
    → member x (f q) ≡ true
    → member x (accept b r id f q) ≡ true
member-accept b r id q x f m = ground arith
