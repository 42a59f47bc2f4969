-- ===== src/System/Steps/Streams.antt =====
-- What a stream retrieves, sends and marks keeps the invariant.
use gitstafette.Common.{
  fun_ext, ℕ, ◌<◌, ◌≡◌, inl, inr, refl, subst, String, true, ◌&&◌, List, [], ◌∷◌, ◌==◌, eq_iff,
  arith, mem, member, slice_at, Bool-cases,
}
use gitstafette.Event.{WebhookEvent, WebhookEventInternal}
use gitstafette.Cache.Heap.{Heap, ids}
use gitstafette.Cache.InMemory.{InMemoryStore}
use gitstafette.Cache.InMemory.Slices.{retrieve-eq-slice}
use gitstafette.Cache.Spec.{view, event_ids}
use gitstafette.Cache.Refinement.{event_ids-view}
use gitstafette.Cache.Watcher.{RepositoryWatcher}
use gitstafette.Server.{
  fetched, retrieve_cached_events_for_repository, update_relay_status, mark_all,
}
use gitstafette.Server.Marking.{sent_ids, cell-mark_all, next-mark_all}
use gitstafette.Server.Pending.{pending}
use gitstafette.Server.Changes.{retrieve_lem, sent_ids-external, unsent}
use gitstafette.System.{waiting, holding, delivered, System, set_at, note}
use gitstafette.System.Lossless.{member-note, member-noted}
use gitstafette.System.Invariant.{Inv, StreamHolds, AllMade, with_stream, with_heap}

note_none : (r : String) (f : String → List String) → note r [] f ≡ f
note_none r f = fun_ext (λ q. ground arith)

-- The ids of the pending events are among those of all events.
member-unsent :
    (s : InMemoryStore) (r x : String)
    → member x (sent_ids (unsent s r)) ≡ true
    → member x (ids s.heap (slice_at r s.events)) ≡ true
member-unsent s r x m = rw (← event_ids-view) (among (view s r) (rw sent_ids-external at m))
  where
    among :
        (es : List WebhookEventInternal)
        → member x (event_ids (pending es)) ≡ true
        → member x (event_ids es) ≡ true
    among [] m = m
    among (e ∷ es) m = ground (arith, m, among es)

-- An id in a slice whose objects were all made is taken.
pub member-made :
    (h : Heap) (origin : ℕ → String) (accepted : String → List String) (r x : String) (ps : List ℕ)
    → AllMade h origin accepted r ps
    → member x (ids h ps) ≡ true
    → member x (accepted r) ≡ true
member-made h origin accepted r x [] v m = cc
member-made h origin accepted r x (p ∷ ps) v m = elim (Bool-cases ((h.cell p).id == x)) [
  | inl same ↦
      let e : (h.cell p).id ≡ x = (eq_iff (h.cell p).id x).0 same in
      rw (← e) (v p (ground arith)).taken
  | inr other ↦
      member-made h origin accepted r x ps (λ q n. v q (ground (arith, n)))
        (ground (arith, m, other))
]

module _ (w : RepositoryWatcher) (stream_of relay_of : ℕ → String) (s : System)
    (inv : Inv stream_of relay_of s) where
  pub keep_retrieve :
      (i : ℕ) (es : List WebhookEvent)
      → retrieve_cached_events_for_repository w s.store (stream_of i) ≡ fetched es
      → Inv stream_of relay_of (record s { streams = set_at s.streams i (holding es) })
  keep_retrieve i es h =
      let e : es ≡ unsent s.store (stream_of i) =
        ground (arith, retrieve_lem w s.store (stream_of i), h) in
      with_stream stream_of relay_of s inv i (holding es) (λ x m.
        member-made s.store.heap s.origin s.accepted (stream_of i) x
          (slice_at (stream_of i) s.store.events) (inv.lossless.made (stream_of i))
          (member-unsent s.store (stream_of i) x (rw e at m)))

  pub keep_send :
      (i : ℕ) (es : List WebhookEvent)
      → s.streams i ≡ holding es
      → Inv stream_of relay_of (record s {
        streams = set_at s.streams i (delivered es);
        handed = note (stream_of i) (sent_ids es) s.handed;
      })
  keep_send i es e =
      let r = stream_of i in
      let taken : StreamHolds s.accepted s.handed r (holding es) =
        subst (StreamHolds s.accepted s.handed r) e (inv.streams_hold i) in
      let sent =
        with_heap stream_of relay_of s inv s.store.heap r (sent_ids es) refl (λ p. refl)
          (λ p l m.
            member-note r (sent_ids es) (s.origin p) (s.store.heap.cell p).id s.handed
              (inv.lossless.told p l m))
          taken in
      with_stream stream_of relay_of (record s { handed = note r (sent_ids es) s.handed }) sent i
        (delivered es) (λ x m. member-noted r (sent_ids es) x s.handed m)

  mark_told :
      (i now : ℕ) (es : List WebhookEvent)
      → StreamHolds s.accepted s.handed (stream_of i) (delivered es)
      → (p : ℕ) → p < s.store.heap.next
      → ((mark_all now es (slice_at (stream_of i) s.store.events) s.store.heap).cell p).is_relayed
        ≡ true
      → member (s.store.heap.cell p).id (s.handed (s.origin p)) ≡ true
  mark_told i now es sent p l m =
      let ps = slice_at (stream_of i) s.store.events in
      elim (Bool-cases (mem p ps && member (s.store.heap.cell p).id (sent_ids es))) [
        | inl hit ↦
            let here : s.origin p ≡ stream_of i =
              (inv.lossless.made (stream_of i) p (ground (arith, hit))).from in
            rw here (sent (s.store.heap.cell p).id (ground (arith, hit)))
        | inr miss ↦
            inv.lossless.told p l (ground (arith, m, miss, cell-mark_all now es ps s.store.heap p))
      ]

  pub keep_mark :
      (i now : ℕ) (es : List WebhookEvent)
      → s.streams i ≡ delivered es
      → Inv stream_of relay_of (record s {
        store = update_relay_status now es (stream_of i) s.store;
        streams = set_at s.streams i waiting;
      })
  unfolding update_relay_status
  keep_mark i now es e =
      let r = stream_of i in
      let ps = slice_at r s.store.events in
      let sent : StreamHolds s.accepted s.handed r (delivered es) =
        subst (StreamHolds s.accepted s.handed r) e (inv.streams_hold i) in
      let h = mark_all now es ps s.store.heap in
      let marked =
        with_heap stream_of relay_of s inv h r [] (next-mark_all now es ps s.store.heap)
          (λ p. ground (arith, cell-mark_all now es ps s.store.heap p))
          (λ p l m.
            member-note r [] (s.origin p) (s.store.heap.cell p).id s.handed
              (mark_told i now es sent p l m))
          (λ x m. cc) in
      let told : Inv stream_of relay_of (record s { store = record s.store { heap = h } }) =
        rw (note_none r s.handed) at marked in
      rw retrieve-eq-slice (
        with_stream stream_of relay_of (record s { store = record s.store { heap = h } }) told i
          waiting tt)
