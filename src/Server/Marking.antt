-- ===== src/Server/Marking.antt =====
-- `updateRelayStatus` marks the events of its repository that were sent, and no others.
use gitstafette.Common.{
  ℕ, ◌≡◌, ◌∙◌, refl, sym, ap, fun_ext, map-map, String, true, ◌&&◌, List, [], ◌∷◌, map, ◌==◌,
  eq_iff, arith, mem, member, map-agree, slice_at, Bool-cases, inl, inr, if◌then◌else◌,
}
use gitstafette.Event.{WebhookEvent, WebhookEventInternal}
use gitstafette.Cache.Heap.{Heap, write, ids}
use gitstafette.Cache.InMemory.{InMemoryStore}
use gitstafette.Cache.InMemory.Slices.{retrieve-eq-slice}
use gitstafette.Cache.InMemory.Invariant.{IsWellFormed}
use gitstafette.Cache.Spec.{view, mark, spec_mark}
use gitstafette.Cache.Refinement.{view-eq-map}
use gitstafette.Server.{mark_matching, mark_all, update_relay_status}

abbrev pub sent_ids : List WebhookEvent → List String
sent_ids es = map (λ e. e.event_id) es

pub cell-mark_matching :
    (now : ℕ) (id : String) (ps : List ℕ) (h : Heap) (q : ℕ)
    → (mark_matching now id ps h).cell q
      ≡ (if mem q ps && (h.cell q).id == id then mark now (h.cell q) else h.cell q)
unfolding mark_matching write
cell-mark_matching now id [] h q = refl
cell-mark_matching now id (p ∷ ps) h q = ground (
  arith,
  cell-mark_matching now id ps h q,
  cell-mark_matching now id ps (write h p (mark now (h.cell p))) q,
)

pub next-mark_matching :
    (now : ℕ) (id : String) (ps : List ℕ) (h : Heap) → (mark_matching now id ps h).next ≡ h.next
unfolding mark_matching write
next-mark_matching now id [] h = refl
next-mark_matching now id (p ∷ ps) h = ground (
  arith,
  next-mark_matching now id ps h,
  next-mark_matching now id ps (write h p (mark now (h.cell p))),
)

pub cell-mark_all :
    (now : ℕ) (es : List WebhookEvent) (ps : List ℕ) (h : Heap) (q : ℕ)
    → (mark_all now es ps h).cell q
      ≡ (if mem q ps && member (h.cell q).id (sent_ids es) then mark now (h.cell q) else h.cell q)
unfolding mark_all
cell-mark_all now [] ps h q = ground arith
cell-mark_all now (e ∷ es) ps h q = ground (
  arith,
  cell-mark_all now es ps (mark_matching now e.event_id ps h) q,
  cell-mark_matching now e.event_id ps h q,
  eq_iff (h.cell q).id e.event_id,
  eq_iff e.event_id (h.cell q).id,
)

pub next-mark_all :
    (now : ℕ) (es : List WebhookEvent) (ps : List ℕ) (h : Heap)
    → (mark_all now es ps h).next ≡ h.next
unfolding mark_all
next-mark_all now [] ps h = refl
next-mark_all now (e ∷ es) ps h = cc (
  next-mark_all now es ps (mark_matching now e.event_id ps h),
  next-mark_matching now e.event_id ps h,
)

-- Marks change no id.
ids-mark_all :
    (now : ℕ) (es : List WebhookEvent) (ps : List ℕ) (h : Heap) (qs : List ℕ)
    → ids (mark_all now es ps h) qs ≡ ids h qs
ids-mark_all now es ps h [] = refl
ids-mark_all now es ps h (q ∷ qs) =
    ground (arith, cell-mark_all now es ps h q, ids-mark_all now es ps h qs)

module _ (now : ℕ) (es : List WebhookEvent) (r : String) (s : InMemoryStore)
    (v : IsWellFormed s) where
  -- The marks keep the store well formed.
  pub update-IsWellFormed : IsWellFormed (update_relay_status now es r s)
  unfolding update_relay_status
  update-IsWellFormed = record {
    allocated = λ q. rw next-mark_all (v.allocated q);
    distinct = λ q. rw ids-mark_all (v.distinct q);
    owned = v.owned;
  }

  spec_cell :
      (q : String) (p : ℕ)
      → mem p (slice_at q s.events) ≡ true
      → (update_relay_status now es r s).heap.cell p ≡ (
          if r == q
          then (if member (s.heap.cell p).id (sent_ids es)
              then mark now (s.heap.cell p)
              else s.heap.cell p)
          else s.heap.cell p)
  unfolding update_relay_status
  spec_cell q p m = rw retrieve-eq-slice (
      ground
        (arith, cell-mark_all now es (slice_at r s.events) s.heap p, eq_iff r q, v.owned r q p))

  marked : WebhookEventInternal → WebhookEventInternal
  marked e = if member e.id (sent_ids es) then mark now e else e

  -- In a well-formed store, after `updateRelayStatus` each event of the repository whose id was sent is relayed, at the
  -- time of the call, and every other event of any repository is as it was.
  pub view-update : view (update_relay_status now es r s) ≡ spec_mark now (view s) r (sent_ids es)
  unfolding update_relay_status marked
  view-update = fun_ext (λ q. simp view-eq-map (elim (Bool-cases (r == q)) [
    | inl same ↦ rw same (
        map-agree _ (λ p. marked (s.heap.cell p)) (slice_at q s.events)
          (λ p m. rw (spec_cell q p m, same) refl)
        ∙ sym (map-map marked s.heap.cell (slice_at q s.events))
        ∙ ap (λ x. map marked (map s.heap.cell (slice_at x s.events))) (sym ((eq_iff r q).0 same)))
    | inr other ↦
        rw other
          (map-agree _ s.heap.cell (slice_at q s.events) (λ p m. rw (spec_cell q p m, other) refl))
  ]))
