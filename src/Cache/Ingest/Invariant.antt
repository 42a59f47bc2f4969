-- ===== src/Cache/Ingest/Invariant.antt =====
-- Inserting a new event keeps the store well formed.
use gitstafette.Common.{
  ℕ, ◌+◌, ◌≡◌, refl, String, List, [], ◌∷◌, map, arith, mem_above, AllBelow, AllBelow-mono,
  slice_at,
}
use gitstafette.Event.{WebhookEventInternal}
use gitstafette.Cache.Heap.{Heap, alloc}
use gitstafette.Cache.InMemory.{InMemoryStore}
use gitstafette.Cache.InMemory.Invariant.{IsWellFormed, store-IsWellFormed}
use gitstafette.Cache.Ingest.{insert}

-- What is stored already is seen unchanged after an allocation.
pub map-alloc {ℓ} :
    {A : Type ℓ} (f : WebhookEventInternal → A) (h : Heap) (e : WebhookEventInternal) (ps : List ℕ)
    → AllBelow h.next ps
    → map (λ p. f ((alloc h e).cell p)) ps ≡ map (λ p. f (h.cell p)) ps
unfolding alloc
map-alloc f h e [] b = refl
map-alloc f h e (p ∷ ps) b = ground (arith, map-alloc f h e ps b.1)

pub alloc-IsWellFormed :
    (s : InMemoryStore) (e : WebhookEventInternal)
    → IsWellFormed s
    → IsWellFormed (record s { heap = alloc s.heap e })
unfolding alloc
alloc-IsWellFormed s e v = record {
  allocated = λ r.
      AllBelow-mono s.heap.next (s.heap.next + 1) (slice_at r s.events) (omega arith)
        (v.allocated r);
  distinct =
      λ r. rw (map-alloc (λ x. x.id) s.heap e (slice_at r s.events) (v.allocated r)) (v.distinct r);
  owned = v.owned;
}

-- An event put into a well-formed store, new or a duplicate, leaves it well formed.
pub insert-IsWellFormed :
    (s : InMemoryStore) (r : String) (e : WebhookEventInternal)
    → IsWellFormed s
    → IsWellFormed (insert s r e).0
unfolding insert alloc
insert-IsWellFormed s r e v =
    store-IsWellFormed _ r s.heap.next (omega arith)
      (λ q. mem_above s.heap.next (slice_at q s.events) (v.allocated q)) (alloc-IsWellFormed s e v)
