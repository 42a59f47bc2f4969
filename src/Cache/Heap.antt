-- ===== src/Cache/Heap.antt =====
-- The objects that internal/cache and internal/server share: a `*api.WebhookEventInternal` is an
-- address, the slices of the store hold addresses, and a write through one is seen through all.
use gitstafette.Common.{
  ℕ, ◌+◌, ◌≡◌, refl, false, List, [], ◌∷◌, map, String, arith, mem, eqb, if◌then◌else◌,
}
use gitstafette.Event.{WebhookEventInternal}

-- Addresses from `next` on are not allocated.
pub record Heap : Type 0 where
  pub next : ℕ
  pub cell : ℕ → WebhookEventInternal

abbrev pub update : (ℕ → WebhookEventInternal) → ℕ → WebhookEventInternal → ℕ → WebhookEventInternal
update f p v q = if eqb p q then v else f q

-- `&api.WebhookEventInternal{…}`
unfoldable pub alloc : Heap → WebhookEventInternal → Heap
alloc h e = record { next = h.next + 1; cell = update h.cell h.next e }

unfoldable pub write : Heap → ℕ → WebhookEventInternal → Heap
write h p e = record h { cell = update h.cell p e }

abbrev pub ids : Heap → List ℕ → List String
ids h ps = map (λ p. (h.cell p).id) ps

-- A write to an object that a slice does not hold is not seen through the slice.
pub map-cell-update :
    (f : ℕ → WebhookEventInternal) (p : ℕ) (v : WebhookEventInternal) (qs : List ℕ)
    → mem p qs ≡ false
    → map (update f p v) qs ≡ map f qs
map-cell-update f p v [] m = refl
map-cell-update f p v (q ∷ qs) m = ground (arith, map-cell-update f p v qs)
