-- ===== src/Contents/Run.antt =====
-- Calls of a well-formed store, in any order, are answered as on lists of events.
use gitstafette.Common.{
  ◌≡◌, refl, ◌∙◌, ap, fun_ext, String, List, [], ◌∷◌, eq_iff, arith, length-map, length, slice_at,
}
use gitstafette.Event.{WebhookEventInternal}
use gitstafette.Cache.Heap.{alloc}
use gitstafette.Cache.InMemory.{InMemoryStore, count_events_for_repository}
use gitstafette.Cache.InMemory.Invariant.{IsWellFormed, remove-IsWellFormed}
use gitstafette.Cache.Ingest.Invariant.{map-alloc, alloc-IsWellFormed, insert-IsWellFormed}
use gitstafette.Cache.Refinement.{view-eq-map, view-insert, view-remove}
use gitstafette.Cache.Spec.{view}
use gitstafette.Relay.Cleanup.{cleanup_events-IsWellFormed, view-cleanup_repository}
use gitstafette.Server.Marking.{update-IsWellFormed, view-update}
use gitstafette.Contents.{
  Call, inserts, removes, retrieves, counts, marks, cleans, says, gives, tells, perform, run,
}
use gitstafette.Contents.Specification.{repository_of, answered, spec_perform, spec_run}

module _ (s : InMemoryStore) (v : IsWellFormed s) where
  view-alloc : (e : WebhookEventInternal) → view (record s { heap = alloc s.heap e }) ≡ view s
  view-alloc e =
      fun_ext
        (λ q. simp view-eq-map (map-alloc (λ x. x) s.heap e (slice_at q s.events) (v.allocated q)))

  cell-alloc : (e : WebhookEventInternal) → (alloc s.heap e).cell s.heap.next ≡ e
  unfolding alloc
  cell-alloc e = ground arith

  pub perform-IsWellFormed : (c : Call) → IsWellFormed (perform c s).0
  unfolding perform
  perform-IsWellFormed (inserts r e) = insert-IsWellFormed s r e v
  perform-IsWellFormed (removes r e) =
      remove-IsWellFormed _ r s.heap.next (alloc-IsWellFormed s e v)
  perform-IsWellFormed (retrieves r) = v
  perform-IsWellFormed (counts r) = v
  perform-IsWellFormed (marks now r es) = update-IsWellFormed now es r s v
  perform-IsWellFormed (cleans now r) = cleanup_events-IsWellFormed now r _ s v

  pub view-perform : (c : Call) → view (perform c s).0 ≡ spec_perform c (view s)
  unfolding perform
  view-perform (inserts r e) =
      fun_ext (λ q. rw (view-insert s r e v).0 (ground (arith, eq_iff r q)))
  view-perform (removes r e) = fun_ext (λ q.
      rw
        (
          (view-remove (record s { heap = alloc s.heap e }) r s.heap.next).0,
          view-alloc e,
          cell-alloc e,
        )
        (ground (arith, eq_iff r q)))
  view-perform (retrieves r) = fun_ext (λ q. ground arith)
  view-perform (counts r) = fun_ext (λ q. ground arith)
  view-perform (marks now r es) =
      fun_ext (λ q. rw (view-update now es r s v) (ground (arith, eq_iff r q)))
  view-perform (cleans now r) = fun_ext (λ q. view-cleanup_repository now r s q v)

  -- A slice has as many addresses as events are seen through it.
  count-view : (r : String) → count_events_for_repository s r ≡ length (view s r)
  unfolding count_events_for_repository
  count-view r = rw (view-eq-map, length-map) refl

  given : (r : String) → (perform (retrieves r) s).1 ≡ gives (view s r)
  unfolding perform view
  given r = refl

  pub answer-perform : (c : Call) → (perform c s).1 ≡ answered c (view s (repository_of c))
  unfolding perform
  answer-perform (inserts r e) = ap says (view-insert s r e v).1
  answer-perform (removes r e) =
      ap says
        (rw ((view-remove (record s { heap = alloc s.heap e }) r s.heap.next).1, view-alloc e) refl)
  answer-perform (retrieves r) = given r
  answer-perform (counts r) = ap tells (count-view r)
  answer-perform (marks now r es) = refl
  answer-perform (cleans now r) = refl

pub run-IsWellFormed :
    (cs : List Call) (s : InMemoryStore) → IsWellFormed s → IsWellFormed (run cs s).0
unfolding run
run-IsWellFormed [] s v = v
run-IsWellFormed (c ∷ cs) s v = run-IsWellFormed cs (perform c s).0 (perform-IsWellFormed s v c)

-- Whatever the program asks of a well-formed store, call after call, is answered as on lists of
-- events, one list for each repository, and what the store holds in the end is what these lists hold.
pub run-spec_run :
    (cs : List Call) (s : InMemoryStore)
    → IsWellFormed s
    → (view (run cs s).0 ≡ (spec_run cs (view s)).0) × ((run cs s).1 ≡ (spec_run cs (view s)).1)
unfolding run
run-spec_run [] s v = (refl, refl)
run-spec_run (c ∷ cs) s v =
    let rest = run-spec_run cs (perform c s).0 (perform-IsWellFormed s v c) in
    let left = view-perform s v c in
    (
      rest.0 ∙ ap (λ x. (spec_run cs x).0) left,
      cc (answer-perform s v c, rest.1, ap (λ x. (spec_run cs x).1) left),
    )
