-- ===== src/Server/Changes.antt =====
-- What the other goroutines do to the store while a stream runs, and what a stream would send.
use gitstafette.Common.{
  ℕ, ◌≡◌, refl, String, false, List, [], ◌∷◌, map, eq_iff, arith, if◌then◌else◌,
}
use gitstafette.Event.{WebhookEvent, WebhookEventInternal, internal_to_external_event}
use gitstafette.Cache.Heap.{Heap}
use gitstafette.Cache.InMemory.{InMemoryStore}
use gitstafette.Cache.InMemory.Invariant.{IsWellFormed, remove-IsWellFormed}
use gitstafette.Cache.Ingest.{insert}
use gitstafette.Cache.Ingest.Invariant.{insert-IsWellFormed}
use gitstafette.Cache.Spec.{view, event_ids}
use gitstafette.Cache.Refinement.{view-insert}
use gitstafette.Cache.Watcher.{RepositoryWatcher, repository_is_watched}
use gitstafette.Server.Marking.{sent_ids, update-IsWellFormed, view-update}
use gitstafette.Server.Pending.{
  IsKept, IsKept-refl, IsKept-trans, IsKept-append, IsKept-mark_ids, pending,
}
use gitstafette.Server.{
  fetched, refused, not_relayed_events, retrieve_cached_events_for_repository, update_relay_status,
  Change, arrives, removes, marks, change, changes, Wake, tick, client_done, main_done,
}

not_relayed-eq-pending :
    (h : Heap) (ps : List ℕ)
    → not_relayed_events h ps ≡ map internal_to_external_event (pending (map h.cell ps))
unfolding not_relayed_events
not_relayed-eq-pending h [] = refl
not_relayed-eq-pending h (p ∷ ps) = ground (arith, not_relayed-eq-pending h ps)

-- The server answers for a watched repository with all events that are not relayed, oldest first,
-- and for any other with an error.
pub retrieve_lem :
    (w : RepositoryWatcher) (s : InMemoryStore) (r : String)
    → retrieve_cached_events_for_repository w s r ≡ (
        if repository_is_watched w r
        then fetched (map internal_to_external_event (pending (view s r)))
        else refused "cannot fetch events for empty repository id")
unfolding retrieve_cached_events_for_repository view
retrieve_lem w s r = rw not_relayed-eq-pending

-- An arrival, a removal and the marks of a stream each keep the store well formed.
pub change-IsWellFormed :
    (c : Change) (s : InMemoryStore) → IsWellFormed s → IsWellFormed (change c s)
unfolding change
change-IsWellFormed (arrives r e) s v = insert-IsWellFormed s r e v
change-IsWellFormed (removes r p) s v = remove-IsWellFormed s r p v
change-IsWellFormed (marks now es r) s v = update-IsWellFormed now es r s v

pub changes-IsWellFormed :
    (cs : List Change) (s : InMemoryStore) → IsWellFormed s → IsWellFormed (changes cs s)
unfolding changes
changes-IsWellFormed [] s v = v
changes-IsWellFormed (c ∷ cs) s v = changes-IsWellFormed cs (change c s) (change-IsWellFormed c s v)

-- The clean-up does not run.
abbrev pub NoRemoval : List Change → Type 0
NoRemoval [] = Unit {0}
NoRemoval (removes r p ∷ cs) = ⊥
NoRemoval (arrives r e ∷ cs) = NoRemoval cs
NoRemoval (marks now es r ∷ cs) = NoRemoval cs

abbrev pub NoRemovals : List (ℕ × Wake) → Type 0
NoRemovals [] = Unit {0}
NoRemovals ((now, tick t e before during) ∷ rest) =
    NoRemoval before × NoRemoval during × NoRemovals rest
NoRemovals ((now, client_done) ∷ rest) = NoRemovals rest
NoRemovals ((now, main_done) ∷ rest) = NoRemovals rest

pub insert-IsKept :
    (s : InMemoryStore) (q : String) (e : WebhookEventInternal) (r : String)
    → IsWellFormed s
    → IsKept (view s r) (view (insert s q e).0 r)
insert-IsKept s q e r v = rw (view-insert s q e v).0 (
    ground (
      arith,
      eq_iff q r,
      IsKept-refl (view s r),
      IsKept-append (view s q) (record e { is_relayed = false } ∷ []),
    ))

pub update-IsKept :
    (now : ℕ) (es : List WebhookEvent) (q : String) (s : InMemoryStore) (r : String)
    → IsWellFormed s
    → IsKept (view s r) (view (update_relay_status now es q s) r)
update-IsKept now es q s r v = rw (view-update now es q s v) (
    ground
      (arith, eq_iff q r, IsKept-refl (view s r), IsKept-mark_ids now (sent_ids es) (view s q)))

-- While the clean-up does not run, no event is lost and none loses its mark.
pub changes-IsKept :
    (cs : List Change) (s : InMemoryStore) (r : String)
    → NoRemoval cs
    → IsWellFormed s
    → IsKept (view s r) (view (changes cs s) r)
unfolding changes change
changes-IsKept [] s r n v = IsKept-refl (view s r)
changes-IsKept (arrives q e ∷ cs) s r n v =
    IsKept-trans (insert-IsKept s q e r v)
      (changes-IsKept cs (insert s q e).0 r n (insert-IsWellFormed s q e v))
changes-IsKept (removes q p ∷ cs) s r n v = absurd n
changes-IsKept (marks now es q ∷ cs) s r n v =
    IsKept-trans (update-IsKept now es q s r v)
      (changes-IsKept cs (update_relay_status now es q s) r n (update-IsWellFormed now es q s v))

pub sent_ids-external :
    (es : List WebhookEventInternal) → sent_ids (map internal_to_external_event es) ≡ event_ids es
unfolding internal_to_external_event
sent_ids-external [] = refl
sent_ids-external (e ∷ es) = cc (sent_ids-external es)

-- What a stream sends: the events of the repository that are not relayed, as messages.
abbrev pub unsent : InMemoryStore → String → List WebhookEvent
unsent s r = map internal_to_external_event (pending (view s r))
