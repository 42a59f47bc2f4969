-- ===== src/Relay/Pass.antt =====
-- What a pass of the relay sends and marks.
use gitstafette.Common.{
  ℕ, ◌≡◌, ◌∙◌, refl, sym, ap, fun_ext, map-map, String, Bool, true, false, not, ◌&&◌, List, [], ◌∷◌,
  ◌++◌, map, ◌==◌, eq_iff, append-nil, append_assoc, arith, mem, member, Distinct, map-agree,
  slice_at, eqb, Bool-cases, inl, inr, if◌then◌else◌,
}
use gitstafette.Cache.Heap.{Heap, write, ids}
use gitstafette.Cache.InMemory.{InMemoryStore, retrieve_events_for_repository}
use gitstafette.Cache.InMemory.Slices.{retrieve-eq-slice}
use gitstafette.Cache.InMemory.Invariant.{IsWellFormed, heap-IsWellFormed}
use gitstafette.Cache.Spec.{view, event_ids}
use gitstafette.Cache.Refinement.{view-eq-map, event_ids-view}
use gitstafette.Server.Pending.{pending}
use gitstafette.Relay.Config.{RelayConfig}
use gitstafette.Relay.{
  transmission, is_grpc, Progress, set_relayed, relay_event, relay_events, relay_tick,
}

mem→member :
    (h : Heap) (p : ℕ) (ps : List ℕ) → mem p ps ≡ true → member (h.cell p).id (ids h ps) ≡ true
mem→member h p [] m = m
mem→member h p (q ∷ ps) m = ground (
  arith,
  mem→member h p ps,
  eq_iff (h.cell q).id (h.cell p).id,
  ap (λ (x : ℕ). (h.cell x).id) {x = q} {y = p},
)

id-relay_events :
    (relay : RelayConfig) (r : String) (works : ℕ → Bool) (ps : List ℕ) (st : Progress) (q : ℕ)
    → ((relay_events relay r works ps st).heap.cell q).id ≡ (st.heap.cell q).id
unfolding relay_events write
id-relay_events relay r works [] st q = refl
id-relay_events relay r works (p ∷ ps) st q =
    ground (arith, id-relay_events relay r works ps (relay_event relay r works p st) q)

next-relay_events :
    (relay : RelayConfig) (r : String) (works : ℕ → Bool) (ps : List ℕ) (st : Progress)
    → (relay_events relay r works ps st).heap.next ≡ st.heap.next
unfolding relay_events write
next-relay_events relay r works [] st = refl
next-relay_events relay r works (p ∷ ps) st =
    ground (arith, next-relay_events relay r works ps (relay_event relay r works p st))

-- A tick of the relay keeps the store well formed, whatever becomes of the pushes.
pub relay_tick-IsWellFormed :
    (relay : RelayConfig) (r : String) (works : ℕ → Bool) (s : InMemoryStore)
    → IsWellFormed s
    → IsWellFormed (relay_tick relay r works s).0
unfolding relay_tick
relay_tick-IsWellFormed relay r works s v =
    let ps = retrieve_events_for_repository s r in
    let st : Progress = record { heap = s.heap; sent = []; exited = false } in
    heap-IsWellFormed s (relay_events relay r works ps st).heap
      (next-relay_events relay r works ps st) (id-relay_events relay r works ps st) v

module _ (relay : RelayConfig) (r : String) (works : ℕ → Bool)
    (up : (p : ℕ) → (is_grpc relay && not (works p)) ≡ false) where
  cell-relay_event :
      (p : ℕ) (st : Progress) (q : ℕ)
      → (relay_event relay r works p st).heap.cell q
        ≡ (if eqb p q then set_relayed (st.heap.cell q) else st.heap.cell q)
  unfolding relay_event write
  cell-relay_event p st q = ground (arith, up p)

  sent-relay_event :
      (p : ℕ) (st : Progress)
      → (relay_event relay r works p st).sent
        ≡ st.sent ++ map (transmission relay r) (pending (st.heap.cell p ∷ []))
  unfolding relay_event write
  sent-relay_event p st = ground (arith, up p, append-nil st.sent)

  exited-relay_event : (p : ℕ) (st : Progress) → (relay_event relay r works p st).exited ≡ st.exited
  unfolding relay_event write
  exited-relay_event p st = ground (arith, up p)

  -- What the rest of the slice holds is not touched by the step for an event that it lacks.
  map-relay_event :
      (p : ℕ) (st : Progress) (qs : List ℕ)
      → mem p qs ≡ false
      → map (relay_event relay r works p st).heap.cell qs ≡ map st.heap.cell qs
  map-relay_event p st [] m = refl
  map-relay_event p st (q ∷ qs) m = ground (arith, cell-relay_event p st q, map-relay_event p st qs)

  ids-relay_event :
      (p : ℕ) (st : Progress) (qs : List ℕ)
      → ids (relay_event relay r works p st).heap qs ≡ ids st.heap qs
  ids-relay_event p st [] = refl
  ids-relay_event p st (q ∷ qs) = ground (arith, cell-relay_event p st q, ids-relay_event p st qs)

  pub cell-relay_events :
      (ps : List ℕ) (st : Progress) (q : ℕ)
      → st.exited ≡ false
      → (relay_events relay r works ps st).heap.cell q
        ≡ (if mem q ps then set_relayed (st.heap.cell q) else st.heap.cell q)
  unfolding relay_events
  cell-relay_events [] st q x = refl
  cell-relay_events (p ∷ ps) st q x = ground (
    arith,
    exited-relay_event p st,
    cell-relay_event p st q,
    cell-relay_events ps (relay_event relay r works p st) q,
  )

  pub exited-relay_events :
      (ps : List ℕ) (st : Progress)
      → st.exited ≡ false
      → (relay_events relay r works ps st).exited ≡ false
  unfolding relay_events
  exited-relay_events [] st x = x
  exited-relay_events (p ∷ ps) st x =
      ground
        (arith, exited-relay_event p st, exited-relay_events ps (relay_event relay r works p st))

  pub sent-relay_events :
      (ps : List ℕ) (st : Progress)
      → st.exited ≡ false
      → Distinct (ids st.heap ps)
      → (relay_events relay r works ps st).sent
        ≡ st.sent ++ map (transmission relay r) (pending (map st.heap.cell ps))
  unfolding relay_events
  sent-relay_events [] st x d = sym (append-nil st.sent)
  sent-relay_events (p ∷ ps) st x d = ground (
    arith,
    exited-relay_event p st,
    sent-relay_event p st,
    map-relay_event p st ps,
    ids-relay_event p st ps,
    mem→member st.heap p ps,
    sent-relay_events ps (relay_event relay r works p st),
    append-nil st.sent,
    append_assoc st.sent (map (transmission relay r) (pending (st.heap.cell p ∷ [])))
        (map (transmission relay r) (pending (map st.heap.cell ps))),
  )

  module _ (s : InMemoryStore) (v : IsWellFormed s) where
    tick_cell :
        (q : String) (p : ℕ)
        → mem p (slice_at q s.events) ≡ true
        → (relay_tick relay r works s).0.heap.cell p
          ≡ (if r == q then set_relayed (s.heap.cell p) else s.heap.cell p)
    unfolding relay_tick
    tick_cell q p m = rw retrieve-eq-slice (
        ground (
          arith,
          cell-relay_events (slice_at r s.events)
              (record { heap = s.heap; sent = []; exited = false }) p refl,
          eq_iff r q,
          v.owned r q p,
        ))

    -- A tick of the relay on a well-formed store, over HTTP or with every push succeeding, sends
    -- each event of the repository that was not relayed, once and in order, and does not exit.
    pub relay_tick-sent :
        ((relay_tick relay r works s).1 ≡ map (transmission relay r) (pending (view s r)))
        × ((relay_tick relay r works s).2 ≡ false)
    unfolding relay_tick
    relay_tick-sent =
        rw (retrieve-eq-slice, view-eq-map)
          (
            sent-relay_events (slice_at r s.events)
                (record { heap = s.heap; sent = []; exited = false }) refl (v.distinct r),
            exited-relay_events (slice_at r s.events)
                (record { heap = s.heap; sent = []; exited = false }) refl,
          )

    -- After such a tick every event of the repository is relayed, with the time of its relay left as
    -- it was, and the other repositories are as before.
    pub view-relay_tick :
        view (relay_tick relay r works s).0
        ≡ (λ q. if r == q then map set_relayed (view s q) else view s q)
    unfolding relay_tick
    view-relay_tick = fun_ext (λ q. simp view-eq-map (elim (Bool-cases (r == q)) [
      | inl same ↦ rw same (
          map-agree _ (λ p. set_relayed (s.heap.cell p)) (slice_at q s.events)
            (λ p m. rw (tick_cell q p m, same) refl)
          ∙ sym (map-map set_relayed s.heap.cell (slice_at q s.events)))
      | inr other ↦
          rw other (
            map-agree _ s.heap.cell (slice_at q s.events) (λ p m. rw (tick_cell q p m, other) refl))
    ]))

-- It also keeps the ids of the events.
pub event_ids-relay_tick :
    (relay : RelayConfig) (r : String) (works : ℕ → Bool) (s : InMemoryStore) (q : String)
    → event_ids (view (relay_tick relay r works s).0 q) ≡ event_ids (view s q)
unfolding relay_tick
event_ids-relay_tick relay r works s q = simp event_ids-view (
    map-agree _ _ (slice_at q s.events) (λ p m.
      id-relay_events relay r works (retrieve_events_for_repository s r)
        (record { heap = s.heap; sent = []; exited = false }) p))
