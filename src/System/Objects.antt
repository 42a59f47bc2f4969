-- ===== src/System/Objects.antt =====
-- The objects of a slice, and what is seen of them where their ids are distinct.
use gitstafette.Common.{
  ℕ, ◌≡◌, ◌∙◌, sym, subst, inl, inr, String, true, false, List, [], ◌∷◌, ◌==◌, map, map-map,
  map-agree, eq_iff, arith, eqb, mem, member, Distinct, Bool-cases, if◌then◌else◌,
}
use gitstafette.Event.{WebhookEventInternal}
use gitstafette.Cache.Heap.{Heap, ids, write}
use gitstafette.Cache.Spec.{event_ids}
use gitstafette.Relay.{set_relayed}
use gitstafette.Server.Pending.{pending, relayed, pending_of_relayed}

event_ids-cells : (heap : Heap) (ps : List ℕ) → event_ids (map heap.cell ps) ≡ ids heap ps
event_ids-cells heap ps = map-map _ heap.cell ps

relayed_of :
    (heap : Heap) (p : ℕ) (ps : List ℕ)
    → mem p ps ≡ true
    → (heap.cell p).is_relayed ≡ true
    → member (heap.cell p).id (event_ids (relayed (map heap.cell ps))) ≡ true
relayed_of heap p [] m done = cc
relayed_of heap p (q ∷ ps) m done = elim (Bool-cases (eqb p q)) [
  | inl same ↦
      let e : p ≡ q = ground (arith, same) in
      rw (← e) (ground (arith, done, eq_iff (heap.cell p).id (heap.cell p).id))
  | inr other ↦ ground (arith, m, other, relayed_of heap p ps)
]

-- With distinct ids, an object of a slice that is relayed leaves its id to no pending event.
pub pending_of_swept :
    (heap : Heap) (p : ℕ) (ps : List ℕ)
    → mem p ps ≡ true
    → Distinct (ids heap ps)
    → (heap.cell p).is_relayed ≡ true
    → member (heap.cell p).id (event_ids (pending (map heap.cell ps))) ≡ false
pending_of_swept heap p ps m d done =
    pending_of_relayed (heap.cell p).id (map heap.cell ps)
      (subst Distinct (sym (event_ids-cells heap ps)) d) (relayed_of heap p ps m done)

id_of_absent :
    (heap : Heap) (p : ℕ) (id : String) (ps : List ℕ)
    → member id (ids heap ps) ≡ false
    → mem p ps ≡ true
    → (heap.cell p).id == id ≡ false
id_of_absent heap p id [] n m = cc
id_of_absent heap p id (q ∷ ps) n m = ground (arith, n, m, id_of_absent heap p id ps)

-- With distinct ids, an id is that of one object.
one_object :
    (heap : Heap) (p q : ℕ) (ps : List ℕ)
    → Distinct (ids heap ps)
    → mem p ps ≡ true
    → mem q ps ≡ true
    → ((heap.cell q).id == (heap.cell p).id) ≡ eqb p q
one_object heap p q [] d m n = cc
one_object heap p q (x ∷ ps) d m n = ground (
  arith,
  m,
  n,
  one_object heap p q ps d.1,
  id_of_absent heap p (heap.cell x).id ps d.0,
  id_of_absent heap q (heap.cell x).id ps d.0,
  eq_iff (heap.cell q).id (heap.cell p).id,
  eq_iff (heap.cell p).id (heap.cell q).id,
)

-- A write of the flag to an object of a slice is seen at its id, in that slice only.
pub relay_slice :
    (heap : Heap) (p : ℕ) (ps : List ℕ)
    → Distinct (ids heap ps)
    → mem p ps ≡ true
    → map (write heap p (set_relayed (heap.cell p))).cell ps
      ≡ map (λ e. if e.id == (heap.cell p).id then set_relayed e else e) (map heap.cell ps)
unfolding write
relay_slice heap p ps d m =
    map-agree _ _ ps (λ q n. cell q n)
    ∙ sym (
        map-map
          (λ (e : WebhookEventInternal). if e.id == (heap.cell p).id then set_relayed e else e)
          heap.cell ps)
  where
    cell :
        (q : ℕ)
        → mem q ps ≡ true
        → (write heap p (set_relayed (heap.cell p))).cell q ≡ (
            if (heap.cell q).id == (heap.cell p).id then set_relayed (heap.cell q) else heap.cell q)
    cell q n = rw (one_object heap p q ps d m n) (ground arith)
