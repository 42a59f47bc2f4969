-- ===== src/System/Swept.antt =====
-- What the clean-up holds of a repository's slice still stands in the slice.
use gitstafette.Common.{
  ℕ, ◌<◌, ◌≡◌, refl, sym, subst, inl, inr, String, Bool, true, false, List, [], ◌∷◌, ◌==◌, eq_iff,
  arith, mem, mem-append, member, Distinct, map-agree, slice_at, Bool-cases,
}
use gitstafette.Event.{WebhookEvent, WebhookEventInternal}
use gitstafette.Cache.Heap.{Heap, ids, write}
use gitstafette.Cache.InMemory.{InMemoryStore, without_id, retrieve_events_for_repository}
use gitstafette.Cache.InMemory.Slices.{retrieve-eq-slice, slice-remove, heap-remove}
use gitstafette.Cache.InMemory.Invariant.{IsWellFormed}
use gitstafette.Cache.Ingest.{insert}
use gitstafette.Cache.Refinement.{slice-insert}
use gitstafette.Cache.Watcher.{RepositoryWatcher}
use gitstafette.Relay.Config.{RelayConfig}
use gitstafette.Relay.{relay_event, set_relayed}
use gitstafette.Relay.Cleanup.{cleanup_events, is_due}
use gitstafette.Server.{mark_all, update_relay_status}
use gitstafette.Server.Marking.{cell-mark_all}
use gitstafette.Webhook.Post.{target, incoming}
use gitstafette.Webhook.Signature.{Mac}
use gitstafette.Webhook.{GitstafetteContext, handle_github_post}
use gitstafette.System.{
  System, Sweep, resting, between, sweeping, begin, Step, posts, pushes, retrieves, sends, marks,
  ends, fails, ticks, relays_one, passes, sweeps, sweeps_next, sweeps_one, sweeps_on, rests, Reach,
  start, later,
}
use gitstafette.System.Arrival.{post_inserts, push_inserts}
use gitstafette.System.Invariant.{Inv}
use gitstafette.System.Lossless.Insertion.{cell-insert}
use gitstafette.System.Reached.{Reach-Inv}
use gitstafette.System.Steps.Relays.{relays_event}

abbrev pub IsSwept : InMemoryStore → Sweep → Type 0
IsSwept s (sweeping r ps rs) =
    ((p : ℕ) → mem p ps ≡ true → mem p (slice_at r s.events) ≡ true) × Distinct (ids s.heap ps)
IsSwept s _ = Unit {0}

-- Slices that only grow, with the ids of their objects.
record IsGrown (s t : InMemoryStore) : Type 0 where
  stays :
      (r : String) (p : ℕ) → mem p (slice_at r s.events) ≡ true → mem p (slice_at r t.events) ≡ true
  same_id :
      (r : String) (p : ℕ)
      → mem p (slice_at r s.events) ≡ true
      → (t.heap.cell p).id ≡ (s.heap.cell p).id

IsSwept-grown :
    (s t : InMemoryStore) (sweep : Sweep) → IsGrown s t → IsSwept s sweep → IsSwept t sweep
IsSwept-grown s t resting g v = tt
IsSwept-grown s t (between rs) g v = tt
IsSwept-grown s t (sweeping r ps rs) g v = (
  λ p m. g.stays r p (v.0 p m),
  subst Distinct (sym (map-agree _ _ ps (λ p m. g.same_id r p (v.0 p m)))) v.1,
)

IsGrown-refl : (s : InMemoryStore) → IsGrown s s
IsGrown-refl s = record { stays = λ r p m. m; same_id = λ r p m. refl }

insert-IsGrown :
    (s : InMemoryStore) (r : String) (e : WebhookEventInternal)
    → IsWellFormed s
    → ((q : String) (p : ℕ) → mem p (slice_at q s.events) ≡ true → p < s.heap.next)
    → IsGrown s (insert s r e).0
insert-IsGrown s r e v alive = record {
  stays = λ q p m. ground (
    arith,
    m,
    slice-insert s r e v q,
    eq_iff r q,
    mem-append p (slice_at r s.events) (s.heap.next ∷ []),
  );
  same_id = λ q p m. rw (cell-insert s r e p (alive q p m)) refl;
}

heap-IsGrown :
    (s : InMemoryStore) (heap : Heap)
    → ((p : ℕ) → (heap.cell p).id ≡ (s.heap.cell p).id)
    → IsGrown s (record s { heap = heap })
heap-IsGrown s heap same = record { stays = λ r p m. m; same_id = λ r p m. same p }

update-IsGrown :
    (now : ℕ) (es : List WebhookEvent) (r : String) (s : InMemoryStore)
    → IsGrown s (update_relay_status now es r s)
unfolding update_relay_status
update-IsGrown now es r s =
    let ps = retrieve_events_for_repository s r in
    heap-IsGrown s (mark_all now es ps s.heap)
      (λ p. ground (arith, cell-mark_all now es ps s.heap p))

mem-kept :
    (heap : Heap) (id : String) (p : ℕ) (ps : List ℕ)
    → mem p ps ≡ true
    → (heap.cell p).id == id ≡ false
    → mem p (without_id heap id ps) ≡ true
unfolding without_id
mem-kept heap id p [] m apart = m
mem-kept heap id p (q ∷ ps) m apart = ground (arith, m, apart, mem-kept heap id p ps)

apart_of :
    (heap : Heap) (id : String) (p : ℕ) (ps : List ℕ)
    → mem p ps ≡ true
    → member id (ids heap ps) ≡ false
    → (heap.cell p).id == id ≡ false
apart_of heap id p [] m n = cc
apart_of heap id p (q ∷ ps) m n = ground (arith, m, n, apart_of heap id p ps)

-- The removal of the first object leaves the others.
IsSwept-cleanup_events :
    (now : ℕ) (r : String) (p : ℕ) (ps : List ℕ) (rs : List String) (s : InMemoryStore)
    → IsSwept s (sweeping r (p ∷ ps) rs)
    → IsSwept (cleanup_events now r (p ∷ []) s) (sweeping r ps rs)
unfolding cleanup_events
IsSwept-cleanup_events now r p ps rs s v = elim (Bool-cases (is_due now (s.heap.cell p))) [
  | inr early ↦ rw early ((λ q m. v.0 q (ground (arith, m))), v.1.1)
  | inl due ↦ rw due (
    (λ q m. ground (
      arith,
      slice-remove s r p r,
      eq_iff r r,
      v.0 q (ground (arith, m)),
      apart_of s.heap (s.heap.cell p).id q ps m v.1.0,
      mem-kept s.heap (s.heap.cell p).id q (slice_at r s.events),
    )),
    rw heap-remove v.1.1,
  )
]

module _ (w : RepositoryWatcher) (relay : RelayConfig) (stream_of relay_of : ℕ → String)
    (s : System) (inv : Inv stream_of relay_of s) where
  here-IsGrown : (r : String) (e : WebhookEventInternal) → IsGrown s.store (insert s.store r e).0
  here-IsGrown r e =
      insert-IsGrown s.store r e inv.lossless.well_formed (λ q p m. (inv.lossless.made q p m).alive)

  slice-IsSwept :
      (r : String) (rs : List String)
      → IsSwept s.store (sweeping r (retrieve_events_for_repository s.store r) rs)
  slice-IsSwept r rs = rw retrieve-eq-slice ((λ p m. m), inv.lossless.well_formed.distinct r)

  module _ (v : IsSwept s.store s.sweep) where
    post-IsSwept :
        (mac : Mac) (now : ℕ) (ctx : GitstafetteContext)
        → IsSwept (handle_github_post mac now w s.store ctx).1 s.sweep
    post-IsSwept mac now ctx = elim (post_inserts mac now w s.store ctx) [
      | inl (same, declined) ↦ rw same v
      | inr (inserted, created) ↦
          rw inserted
            (IsSwept-grown s.store _ s.sweep (here-IsGrown (target ctx) (incoming now ctx)) v)
    ]

    relay-IsSwept :
        (i p : ℕ) (works : ℕ → Bool)
        → (relay_event relay (relay_of i) works p (begin s.store.heap)).exited ≡ false
        → IsSwept
            (record s.store {
              heap = (relay_event relay (relay_of i) works p (begin s.store.heap)).heap;
            })
            s.sweep
    unfolding write
    relay-IsSwept i p works x = elim (relays_event relay stream_of relay_of s inv i p works x) [
      | inl (already, same, none_sent) ↦ rw same v
      | inr (written, some_sent) ↦ rw written (
          IsSwept-grown s.store _ s.sweep
            (heap-IsGrown s.store (write s.store.heap p (set_relayed (s.store.heap.cell p)))
              (λ q. ground arith))
            v)
    ]

    pub Step-IsSwept : {t : System} → Step w relay stream_of relay_of s t → IsSwept t.store t.sweep
    unfolding update_relay_status
    Step-IsSwept (posts mac now ctx) = post-IsSwept mac now ctx
    Step-IsSwept (pushes now request e store response h k) =
        rw (push_inserts now s.store store request e response h k)
          (IsSwept-grown s.store _ s.sweep (here-IsGrown request.repository_id e) v)
    Step-IsSwept (retrieves i es h k) = v
    Step-IsSwept (sends i es h) = v
    Step-IsSwept (marks i now es h) =
        IsSwept-grown s.store _ s.sweep (update-IsGrown now es (stream_of i) s.store) v
    Step-IsSwept (ends i h) = v
    Step-IsSwept (fails i es h) = v
    Step-IsSwept (ticks i h) = v
    Step-IsSwept (relays_one i p ps works h x) = relay-IsSwept i p works x
    Step-IsSwept (passes i h) = v
    Step-IsSwept (sweeps h) = tt
    Step-IsSwept (sweeps_next r rs h) = slice-IsSwept r rs
    Step-IsSwept (sweeps_one now r p ps rs h) =
        IsSwept-cleanup_events now r p ps rs s.store (subst (IsSwept s.store) h v)
    Step-IsSwept (sweeps_on r rs h) = tt
    Step-IsSwept (rests h) = tt

pub Reach-IsSwept :
    (w : RepositoryWatcher) (relay : RelayConfig) (stream_of relay_of : ℕ → String) {s : System}
    → Reach w relay stream_of relay_of s
    → IsSwept s.store s.sweep
Reach-IsSwept w relay stream_of relay_of (start heap otel_enabled meter_ok none_made) = tt
Reach-IsSwept w relay stream_of relay_of (later r step) =
    Step-IsSwept w relay stream_of relay_of _ (Reach-Inv w relay stream_of relay_of r)
      (Reach-IsSwept w relay stream_of relay_of r) step
