-- ===== src/Relay/Cleanup.antt =====
-- `CleanupRelayedEvents`: events go two minutes after they were relayed.
use gitstafette.Common.{
  ℕ, ◌+◌, ◌*◌, ◌≡◌, refl, String, Bool, true, false, not, ◌&&◌, List, [], ◌∷◌, map, ◌==◌, eq_iff,
  arith, ltb, member, Distinct, keep, Bool-cases, inl, inr, if◌then◌else◌,
}
use gitstafette.Event.{WebhookEventInternal}
use gitstafette.Cache.InMemory.{InMemoryStore, retrieve_events_for_repository, remove}
use gitstafette.Cache.InMemory.Slices.{retrieve-eq-slice, heap-remove}
use gitstafette.Cache.InMemory.Invariant.{IsWellFormed, remove-IsWellFormed}
use gitstafette.Cache.Spec.{view, event_ids}
use gitstafette.Cache.Refinement.{view-eq-map, view-remove, event_ids-view}
use gitstafette.Server.{second}
use gitstafette.Server.Pending.{member-keep}

-- `time.Minute * 2`
abbrev pub time_after_which_we_cleanup : ℕ
time_after_which_we_cleanup = 120 * second

-- `cachedEvent.IsRelayed && time.Now().After(relayTime)`
unfoldable pub is_due : ℕ → WebhookEventInternal → Bool
is_due now event = event.is_relayed && ltb (event.time_relayed + time_after_which_we_cleanup) now

-- The loop over the events of a repository. `now` is what `time.Now()` reads, one reading for a
-- whole tick.
unfoldable pub cleanup_events : ℕ → String → List ℕ → InMemoryStore → InMemoryStore
unfolding is_due
cleanup_events now repository_id [] s = s
cleanup_events now repository_id (p ∷ ps) s =
    cleanup_events now repository_id ps
      (if is_due now (s.heap.cell p) then (remove s repository_id p).0 else s)

-- A tick: the loop over the watched repositories.
unfoldable pub cleanup_tick : ℕ → List String → InMemoryStore → InMemoryStore
unfolding cleanup_events
cleanup_tick now [] s = s
cleanup_tick now (r ∷ rs) s =
    cleanup_tick now rs (cleanup_events now r (retrieve_events_for_repository s r) s)

-- The events that survive a tick.
abbrev pub not_due : ℕ → List WebhookEventInternal → List WebhookEventInternal
not_due now = keep (λ e. not (is_due now e))

abbrev due_ids : ℕ → List WebhookEventInternal → List String
due_ids now es = event_ids (keep (is_due now) es)

pub heap-cleanup_events :
    (now : ℕ) (r : String) (ps : List ℕ) (s : InMemoryStore)
    → (cleanup_events now r ps s).heap ≡ s.heap
unfolding cleanup_events
heap-cleanup_events now r [] s = refl
heap-cleanup_events now r (p ∷ ps) s = ground (
  arith,
  heap-cleanup_events now r ps s,
  heap-cleanup_events now r ps (remove s r p).0,
  heap-remove s r p,
)

pub cleanup_events-IsWellFormed :
    (now : ℕ) (r : String) (ps : List ℕ) (s : InMemoryStore)
    → IsWellFormed s
    → IsWellFormed (cleanup_events now r ps s)
unfolding cleanup_events
cleanup_events-IsWellFormed now r [] s v = v
cleanup_events-IsWellFormed now r (p ∷ ps) s v = ground (
  arith,
  cleanup_events-IsWellFormed now r ps s v,
  cleanup_events-IsWellFormed now r ps (remove s r p).0 (remove-IsWellFormed s r p v),
)

pub cleanup_tick-IsWellFormed :
    (now : ℕ) (rs : List String) (s : InMemoryStore)
    → IsWellFormed s
    → IsWellFormed (cleanup_tick now rs s)
unfolding cleanup_tick
cleanup_tick-IsWellFormed now [] s v = v
cleanup_tick-IsWellFormed now (r ∷ rs) s v =
    cleanup_tick-IsWellFormed now rs _
      (cleanup_events-IsWellFormed now r (retrieve_events_for_repository s r) s v)

keep-keep :
    (x : String) (ys : List String) (es : List WebhookEventInternal)
    → keep (λ e. not (member e.id ys)) (keep (λ e. not (e.id == x)) es)
      ≡ keep (λ e. not (member e.id (x ∷ ys))) es
keep-keep x ys [] = refl
keep-keep x ys (e ∷ es) = ground (arith, keep-keep x ys es, eq_iff x e.id, eq_iff e.id x)

keep-true : (es : List WebhookEventInternal) → keep (λ e. true) es ≡ es
keep-true [] = refl
keep-true (e ∷ es) = cc (keep-true es)

-- The loop over any events removes from the repository what has the id of one that is due.
view-cleanup_events :
    (now : ℕ) (r : String) (ps : List ℕ) (s : InMemoryStore) (q : String)
    → view (cleanup_events now r ps s) q ≡ (
        if r == q
        then keep (λ e. not (member e.id (due_ids now (map s.heap.cell ps)))) (view s q)
        else view s q)
unfolding cleanup_events
view-cleanup_events now r [] s q = rw keep-true (ground arith)
view-cleanup_events now r (p ∷ ps) s q = elim (Bool-cases (is_due now (s.heap.cell p))) [
  | inr early ↦ rw (early, view-cleanup_events now r ps s q) refl
  | inl due ↦
      rw (due, view-cleanup_events now r ps (remove s r p).0 q, heap-remove, (view-remove s r p).0)
        (ground (
          arith,
          eq_iff r q,
          eq_iff r r,
          keep-keep (s.heap.cell p).id (due_ids now (map s.heap.cell ps)) (view s r),
        ))
]

keep-fresh :
    (y : String) (ys : List String) (es : List WebhookEventInternal)
    → member y (event_ids es) ≡ false
    → keep (λ e. not (member e.id (y ∷ ys))) es ≡ keep (λ e. not (member e.id ys)) es
keep-fresh y ys [] m = refl
keep-fresh y ys (e ∷ es) m = ground (arith, keep-fresh y ys es, eq_iff y e.id, eq_iff e.id y)

-- With distinct ids, an event has the id of one that is due only if it is due itself.
keep-due :
    (now : ℕ) (es : List WebhookEventInternal)
    → Distinct (event_ids es)
    → keep (λ e. not (member e.id (due_ids now es))) es ≡ not_due now es
keep-due now [] d = refl
keep-due now (e ∷ es) d = ground (
  arith,
  keep-due now es d.1,
  keep-fresh e.id (due_ids now es) es d.0,
  member-keep (is_due now) e.id es d.0,
  eq_iff e.id e.id,
)

not_due-not_due :
    (now : ℕ) (es : List WebhookEventInternal) → not_due now (not_due now es) ≡ not_due now es
not_due-not_due now [] = refl
not_due-not_due now (e ∷ es) = ground (arith, not_due-not_due now es)

-- The loop over the events that the repository has.
pub view-cleanup_repository :
    (now : ℕ) (r : String) (s : InMemoryStore) (q : String)
    → IsWellFormed s
    → view (cleanup_events now r (retrieve_events_for_repository s r) s) q
      ≡ (if r == q then not_due now (view s q) else view s q)
view-cleanup_repository now r s q v =
    rw (view-cleanup_events, retrieve-eq-slice, ← view-eq-map)
      (ground (arith, eq_iff r q, keep-due now (view s r) (rw event_ids-view (v.distinct r))))

-- A tick of the clean-up on a well-formed store removes from each watched repository exactly the
-- events that are relayed and whose time of relay is more than two minutes ago, and leaves
-- everything else as it was.
pub view-cleanup_tick :
    (now : ℕ) (rs : List String) (s : InMemoryStore)
    → IsWellFormed s
    → (q : String)
    → view (cleanup_tick now rs s) q ≡ (if member q rs then not_due now (view s q) else view s q)
unfolding cleanup_tick
view-cleanup_tick now [] s v q = refl
view-cleanup_tick now (r ∷ rs) s v q =
    let ps = retrieve_events_for_repository s r in
    ground (
      arith,
      view-cleanup_tick now rs (cleanup_events now r ps s)
          (cleanup_events-IsWellFormed now r ps s v) q,
      view-cleanup_repository now r s q v,
      not_due-not_due now (view s q),
    )
