-- ===== src/System/Acts.antt =====
-- Each step of a server's goroutines is an act on the ledger of its events.
use gitstafette.System.Arrival.{pushed-not_relayed}
use gitstafette.Common.{
  ℕ, ◌≡◌, sym, subst, fun_ext, inl, inr, String, Bool, true, false, List, [], ◌∷◌, ◌==◌, map,
  eq_iff, arith, mem, slice_at, Bool-cases, if◌then◌else◌,
}
use gitstafette.Cache.Heap.{write, map-cell-update}
use gitstafette.Cache.InMemory.{InMemoryStore}
use gitstafette.Cache.Refinement.{view-eq-map, view-insert, view-remove}
use gitstafette.Cache.Spec.{view, spec_remove}
use gitstafette.Cache.Watcher.{RepositoryWatcher}
use gitstafette.Relay.Config.{RelayConfig}
use gitstafette.Relay.{relay_event, set_relayed}
use gitstafette.Relay.Cleanup.{cleanup_events, is_due}
use gitstafette.Server.Marking.{sent_ids, view-update}
use gitstafette.Webhook.Signature.{Mac}
use gitstafette.Webhook.{GitstafetteContext, handle_github_post}
use gitstafette.Webhook.Post.{target, incoming}
use gitstafette.System.{
  System, passing, sweeping, begin, Step, posts, pushes, retrieves, sends, marks, ends, fails,
  ticks, relays_one, passes, sweeps, sweeps_next, sweeps_one, sweeps_on, rests, Reach,
}
use gitstafette.System.Arrival.{post_inserts, push_inserts, incoming-not_relayed}
use gitstafette.System.Invariant.{Inv, AllMade, PassHolds}
use gitstafette.System.Objects.{pending_of_swept, relay_slice}
use gitstafette.System.Ledger.{Act, stays, takes, relays, drops, spec_relay}
use gitstafette.System.Ledger.{marks as marks_events}
use gitstafette.System.Reached.{Reach-Inv}
use gitstafette.System.Swept.{IsSwept, Reach-IsSwept}
use gitstafette.System.Steps.Relays.{relays_event}

module _ (w : RepositoryWatcher) (relay : RelayConfig) (stream_of relay_of : ℕ → String)
    (s : System) (inv : Inv stream_of relay_of s) where
  module _ (p : ℕ) where
    -- The store after a relay has set the flag of an object.
    flagged : InMemoryStore
    flagged = record s.store { heap = write s.store.heap p (set_relayed (s.store.heap.cell p)) }

    seen_elsewhere :
        (q : String) → mem p (slice_at q s.store.events) ≡ false → view flagged q ≡ view s.store q
    unfolding flagged write
    seen_elsewhere q m = simp view-eq-map (
        map-cell-update s.store.heap.cell p (set_relayed (s.store.heap.cell p))
          (slice_at q s.store.events) m)

    seen_here :
        (r : String)
        → mem p (slice_at r s.store.events) ≡ true
        → view flagged r
          ≡ map
              (λ e. if e.id == (s.store.heap.cell p).id then set_relayed e else e)
              (view s.store r)
    unfolding flagged
    seen_here r m = simp view-eq-map (
        relay_slice s.store.heap p (slice_at r s.store.events) (inv.lossless.well_formed.distinct r)
          m)

    not_elsewhere :
        (r q : String) → s.origin p ≡ r → r == q ≡ false → mem p (slice_at q s.store.events) ≡ false
    not_elsewhere r q from other = elim (Bool-cases (mem p (slice_at q s.store.events))) [
      | inr gone ↦ gone
      | inl there ↦ ground (arith, from, other, (inv.lossless.made q p there).from, eq_iff r q)
    ]

    relay_sees :
        (r : String)
        → s.origin p ≡ r
        → mem p (slice_at r s.store.events) ≡ true
        → spec_relay (view s.store) r (s.store.heap.cell p).id ≡ view flagged
    relay_sees r from here = fun_ext (λ q. elim (Bool-cases (r == q)) [
      | inl same ↦
          let e : r ≡ q = (eq_iff r q).0 same in
          rw same (sym (seen_here q (subst (λ x. mem p (slice_at x s.store.events) ≡ true) e here)))
      | inr other ↦ rw other (sym (seen_elsewhere q (not_elsewhere r q from other)))
    ])

    nothing_seen :
        (r : String)
        → s.origin p ≡ r
        → mem p (slice_at r s.store.events) ≡ false
        → view s.store ≡ view flagged
    nothing_seen r from gone = fun_ext (λ q. elim (Bool-cases (r == q)) [
      | inl same ↦
          let e : r ≡ q = (eq_iff r q).0 same in
          sym (seen_elsewhere q (subst (λ x. mem p (slice_at x s.store.events) ≡ false) e gone))
      | inr other ↦ sym (seen_elsewhere q (not_elsewhere r q from other))
    ])

    relay_Act : (r : String) → s.origin p ≡ r → Act (view s.store) (view flagged)
    relay_Act r from = elim (Bool-cases (mem p (slice_at r s.store.events))) [
      | inl here ↦
          subst (Act (view s.store)) (relay_sees r from here) (relays r (s.store.heap.cell p).id)
      | inr gone ↦ subst (Act (view s.store)) (nothing_seen r from gone) stays
    ]

  post_Act :
      (mac : Mac) (now : ℕ) (ctx : GitstafetteContext)
      → Act (view s.store) (view (handle_github_post mac now w s.store ctx).1)
  post_Act mac now ctx = elim (post_inserts mac now w s.store ctx) [
    | inl (same, declined) ↦ rw same stays
    | inr (inserted, created) ↦
        rw
          (
            inserted,
            (view-insert s.store (target ctx) (incoming now ctx) inv.lossless.well_formed).0,
          )
          (takes (target ctx) (incoming now ctx) (incoming-not_relayed now ctx))
  ]

  relays_one_Act :
      (i p : ℕ) (ps : List ℕ) (works : ℕ → Bool)
      → s.relays i ≡ passing (p ∷ ps)
      → (relay_event relay (relay_of i) works p (begin s.store.heap)).exited ≡ false
      → Act (view s.store) (
          view (record s.store {
            heap = (relay_event relay (relay_of i) works p (begin s.store.heap)).heap;
          }))
  unfolding flagged
  relays_one_Act i p ps works h x = elim (relays_event relay stream_of relay_of s inv i p works x) [
    | inl (already, same, none_sent) ↦ rw same stays
    | inr (written, some_sent) ↦
        let made : AllMade s.store.heap s.origin s.accepted (relay_of i) (p ∷ ps) =
          subst (PassHolds s.store.heap s.origin s.accepted (relay_of i)) h (inv.relays_hold i) in
        rw written (relay_Act p (relay_of i) (made p (ground arith)).from)
  ]

  sweeps_one_Act :
      (now : ℕ) (r : String) (p : ℕ) (ps : List ℕ) (rs : List String)
      → IsSwept s.store (sweeping r (p ∷ ps) rs)
      → Act (view s.store) (view (cleanup_events now r (p ∷ []) s.store))
  unfolding cleanup_events is_due
  sweeps_one_Act now r p ps rs v = elim (Bool-cases (is_due now (s.store.heap.cell p))) [
    | inr early ↦ rw early stays
    | inl due ↦
        let id = (s.store.heap.cell p).id in
        let dropped : Act (view s.store) (spec_remove (view s.store) r id).0 = drops r id (
          rw view-eq-map (
            pending_of_swept s.store.heap p (slice_at r s.store.events) (v.0 p (ground arith))
              (inv.lossless.well_formed.distinct r) (ground (arith, due)))) in
        rw (due, (view-remove s.store r p).0) dropped
  ]

  Step-Act :
      {t : System}
      → IsSwept s.store s.sweep
      → Step w relay stream_of relay_of s t
      → Act (view s.store) (view t.store)
  Step-Act v (posts mac now ctx) = post_Act mac now ctx
  Step-Act v (pushes now request e store response h k) =
      rw
        (
          push_inserts now s.store store request e response h k,
          (view-insert s.store request.repository_id e inv.lossless.well_formed).0,
        )
        (takes request.repository_id e (pushed-not_relayed now request.webhook_event e h))
  Step-Act v (retrieves i es h k) = stays
  Step-Act v (sends i es h) = stays
  Step-Act v (marks i now es h) =
      rw (view-update now es (stream_of i) s.store inv.lossless.well_formed)
        (marks_events now (stream_of i) (sent_ids es))
  Step-Act v (ends i h) = stays
  Step-Act v (fails i es h) = stays
  Step-Act v (ticks i h) = stays
  Step-Act v (relays_one i p ps works h x) = relays_one_Act i p ps works h x
  Step-Act v (passes i h) = stays
  Step-Act v (sweeps h) = stays
  Step-Act v (sweeps_next r rs h) = stays
  Step-Act v (sweeps_one now r p ps rs h) =
      sweeps_one_Act now r p ps rs (subst (IsSwept s.store) h v)
  Step-Act v (sweeps_on r rs h) = stays
  Step-Act v (rests h) = stays

-- The goroutines refine the ledger. Each step that they take in a state that they reach, in any order,
-- is seen as one act on the events of the repositories, or as none: an event is taken, events are
-- marked, an event is marked by a relay, or an id is dropped of which the repository has no event that
-- is not relayed.
pub Reach-Act :
    (w : RepositoryWatcher) (relay : RelayConfig) (stream_of relay_of : ℕ → String) (s t : System)
    → Reach w relay stream_of relay_of s
    → Step w relay stream_of relay_of s t
    → Act (view s.store) (view t.store)
Reach-Act w relay stream_of relay_of s t r step =
    Step-Act w relay stream_of relay_of s (Reach-Inv w relay stream_of relay_of r)
      (Reach-IsSwept w relay stream_of relay_of r) step
