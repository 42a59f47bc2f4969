-- ===== src/Server/Rounds.antt =====
-- How single rounds of `FetchWebhookEvents` end, and how the whole stream does.
use gitstafette.Common.{
  ℕ, ◌≡◌, ◌≢◌, refl, String, Bool, true, false, none, List, [], ◌∷◌, ◌++◌, eq_refl, arith, leb,
  ◌||◌, ◌*◌, ◌+◌,
}
use gitstafette.Cache.InMemory.{InMemoryStore}
use gitstafette.Cache.InMemory.Invariant.{IsWellFormed}
use gitstafette.Cache.Spec.{view}
use gitstafette.Cache.Watcher.{RepositoryWatcher, repository_is_watched}
use gitstafette.Server.Marking.{sent_ids, view-update}
use gitstafette.Server.Pending.{pending-mark_ids}
use gitstafette.Server.Changes.{retrieve_lem, unsent, sent_ids-external}
use gitstafette.Server.{
  fetched, retrieve_cached_events_for_repository, Wake, second, streaming, Stream, respond, wake,
  fetch_loop, fetch_webhook_events, WebhookEventsRequest,
}

-- A round for a watched repository of a well-formed store, whose `Send` succeeds and that nobody
-- disturbs: the response has all events that are not relayed, the stream's outcome stays as it was,
-- and afterwards there is nothing left to retrieve.
pub respond-drains :
    (w : RepositoryWatcher) (r : String) (now : ℕ) (st : Stream)
    → IsWellFormed st.store
    → repository_is_watched w r ≡ true
    → ((respond w r now none [] [] st).sent ≡ st.sent ++ unsent st.store r)
      × ((respond w r now none [] [] st).outcome ≡ st.outcome)
      × (retrieve_cached_events_for_repository w (respond w r now none [] [] st).store r
          ≡ fetched [])
unfolding respond
respond-drains w r now st v watched = (
  rw (retrieve_lem w st.store r, watched, respond) refl,
  rw (retrieve_lem w st.store r, watched, respond) refl,
  rw (retrieve_lem w st.store r, watched, respond)
      (rw
        (
          retrieve_lem,
          watched,
          view-update now (unsent st.store r) r st.store v,
          eq_refl,
          pending-mark_ids now (sent_ids (unsent st.store r)) (view st.store r)
              (λ x m. rw sent_ids-external m),
        )
        refl),
)

abbrev has_passed : ℕ → List (ℕ × Wake) → Bool
has_passed finish [] = false
has_passed finish ((now, woken) ∷ rest) = leb finish now || has_passed finish rest

fetch_loop_ends :
    (w : RepositoryWatcher) (r : String) (finish : ℕ) (schedule : List (ℕ × Wake)) (st : Stream)
    → has_passed finish schedule ≡ true
    → (fetch_loop w r finish schedule st).outcome ≢ streaming
unfolding fetch_loop
fetch_loop_ends w r finish [] st h = cc
fetch_loop_ends w r finish ((now, woken) ∷ rest) st h =
    ground (arith, fetch_loop_ends w r finish rest (wake w r woken st))

-- The stream does not outlive its window: once the clock has reached the requested duration at a
-- round of the schedule, the stream has ended or failed, whatever woke it before.
pub fetch_ends :
    (w : RepositoryWatcher) (request : WebhookEventsRequest) (now : ℕ) (schedule : List (ℕ × Wake))
    (s : InMemoryStore)
    → has_passed (now + second * request.duration_secs) schedule ≡ true
    → (fetch_webhook_events w request now schedule s).outcome ≢ streaming
unfolding fetch_webhook_events
fetch_ends w request now schedule s h = fetch_loop_ends w request.repository_id _ schedule _ h
