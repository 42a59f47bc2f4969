-- ===== src/System/Steps/Relays.antt =====
-- What a relay and the clean-up do to one event keeps the invariant.
use gitstafette.Common.{
  ℕ, ◌<◌, ◌≡◌, ◌⊎◌, inl, inr, refl, subst, String, Bool, true, false, List, [], ◌∷◌, eq_iff, arith,
  eqb, member, Bool-cases, if◌then◌else◌,
}
use gitstafette.Cache.Heap.{write}
use gitstafette.Webhook.{is_empty}
use gitstafette.Relay.Config.{RelayConfig}
use gitstafette.Relay.{relay_event, set_relayed}
use gitstafette.Relay.Cleanup.{cleanup_events, is_due}
use gitstafette.System.{passing, sweeping, System, set_at, note, begin}
use gitstafette.System.Lossless.{member-note, member-noted}
use gitstafette.System.Invariant.{
  Inv, AllMade, PassHolds, SweepHolds, with_relay, with_sweep, with_heap, with_remove,
}

module _ (stream_of relay_of : ℕ → String) (s : System) (inv : Inv stream_of relay_of s) where
  pub keep_sweep_one :
      (now : ℕ) (r : String) (p : ℕ) (ps : List ℕ) (rs : List String)
      → s.sweep ≡ sweeping r (p ∷ ps) rs
      → Inv stream_of relay_of
          (record s { store = cleanup_events now r (p ∷ []) s.store; sweep = sweeping r ps rs })
  unfolding cleanup_events is_due
  keep_sweep_one now r p ps rs e =
      let made : AllMade s.store.heap s.origin s.accepted r (p ∷ ps) =
        subst (SweepHolds s.store.heap s.origin s.accepted) e inv.sweep_holds in
      let here = made p (ground arith) in
      let rest : Inv stream_of relay_of (record s { sweep = sweeping r ps rs }) =
        with_sweep stream_of relay_of s inv (sweeping r ps rs)
          (λ q m. made q (ground (arith, m))) in
      elim (Bool-cases (is_due now (s.store.heap.cell p))) [
        | inr early ↦ rw early rest
        | inl due ↦ rw due (
            with_remove stream_of relay_of (record s { sweep = sweeping r ps rs }) rest r p
              (rw (← here.from) (inv.lossless.told p here.alive (ground (arith, due)))))
      ]

module _ (relay : RelayConfig) (stream_of relay_of : ℕ → String) (s : System)
    (inv : Inv stream_of relay_of s) where
  -- What the relay does to one event, unless the process exits.
  pub relays_event :
      (i p : ℕ) (works : ℕ → Bool)
      → (relay_event relay (relay_of i) works p (begin s.store.heap)).exited ≡ false
      → (((s.store.heap.cell p).is_relayed ≡ true)
          × ((relay_event relay (relay_of i) works p (begin s.store.heap)).heap ≡ s.store.heap)
          × (is_empty (relay_event relay (relay_of i) works p (begin s.store.heap)).sent ≡ true))
        ⊎ (((relay_event relay (relay_of i) works p (begin s.store.heap)).heap
              ≡ write s.store.heap p (set_relayed (s.store.heap.cell p)))
            × (is_empty (relay_event relay (relay_of i) works p (begin s.store.heap)).sent ≡ false))
  unfolding relay_event
  relays_event i p works x = ground (arith, x)

  relay_told :
      (r : String) (p q : ℕ)
      → s.origin p ≡ r
      → q < s.store.heap.next
      → ((write s.store.heap p (set_relayed (s.store.heap.cell p))).cell q).is_relayed ≡ true
      → member
          (s.store.heap.cell q).id
          (note r ((s.store.heap.cell p).id ∷ []) s.handed (s.origin q))
        ≡ true
  unfolding write
  relay_told r p q from l m = elim (Bool-cases (eqb p q)) [
    | inl same ↦
        let e : p ≡ q = ground (arith, same) in
        rw (← e) (
          rw from (
            member-noted r ((s.store.heap.cell p).id ∷ []) _ s.handed
              (ground (arith, eq_iff (s.store.heap.cell p).id (s.store.heap.cell p).id))))
    | inr other ↦
        member-note r ((s.store.heap.cell p).id ∷ []) (s.origin q) (s.store.heap.cell q).id s.handed
          (inv.lossless.told q l (ground (arith, m, other)))
  ]

  pub keep_relay_one :
      (i p : ℕ) (ps : List ℕ) (works : ℕ → Bool)
      → s.relays i ≡ passing (p ∷ ps)
      → (relay_event relay (relay_of i) works p (begin s.store.heap)).exited ≡ false
      → Inv stream_of relay_of (record s {
        store = record s.store {
          heap = (relay_event relay (relay_of i) works p (begin s.store.heap)).heap;
        };
        relays = set_at s.relays i (passing ps);
        handed =
            if is_empty (relay_event relay (relay_of i) works p (begin s.store.heap)).sent
            then s.handed
            else note (relay_of i) ((s.store.heap.cell p).id ∷ []) s.handed;
      })
  unfolding write
  keep_relay_one i p ps works e x =
      let r = relay_of i in
      let made : AllMade s.store.heap s.origin s.accepted r (p ∷ ps) =
        subst (PassHolds s.store.heap s.origin s.accepted r) e (inv.relays_hold i) in
      let here = made p (ground arith) in
      let id = (s.store.heap.cell p).id in
      let rest : Inv stream_of relay_of (record s { relays = set_at s.relays i (passing ps) }) =
        with_relay stream_of relay_of s inv i (passing ps) (λ q m. made q (ground (arith, m))) in
      elim (relays_event i p works x) [
        | inl (already, same, none_sent) ↦ rw (same, none_sent) rest
        | inr (written, some_sent) ↦
            rw (written, some_sent)
              (with_heap stream_of relay_of (record s { relays = set_at s.relays i (passing ps) })
                rest (write s.store.heap p (set_relayed (s.store.heap.cell p))) r (id ∷ []) refl
                (λ q. ground arith) (λ q l m. relay_told r p q here.from l m)
                (λ y m. ground (arith, m, here.taken, eq_iff id y)))
      ]
