-- ===== src/Server/Delivery.antt =====
-- What `FetchWebhookEvents` delivers.
use gitstafette.Common.{
  ℕ, ◌≡◌, String, true, not, List, [], ◌∷◌, ◌++◌, map-append, eq_refl, arith, member, member-append,
  Distinct, Bool-cases, Option-cases, inl, inr,
}
use gitstafette.Event.{WebhookEvent}
use gitstafette.Cache.InMemory.{InMemoryStore}
use gitstafette.Cache.InMemory.Invariant.{IsWellFormed}
use gitstafette.Cache.Ingest.{GoError}
use gitstafette.Cache.Spec.{view, event_ids}
use gitstafette.Cache.Refinement.{event_ids-view}
use gitstafette.Cache.Watcher.{RepositoryWatcher, repository_is_watched}
use gitstafette.Server.Marking.{sent_ids, update-IsWellFormed, view-update}
use gitstafette.Server.Pending.{
  IsKept, pending, relayed, member-keep, pending_of_relayed, Distinct-keep, Distinct-append,
  member-relayed-mark_ids,
}
use gitstafette.Server.{
  update_relay_status, Change, changes, Wake, tick, client_done, main_done, Outcome, streaming,
  failed, Stream, respond, wake, fetch_loop, WebhookEventsRequest, fetch_webhook_events,
}
use gitstafette.Server.Changes.{
  retrieve_lem, changes-IsWellFormed, NoRemoval, NoRemovals, changes-IsKept, unsent,
  sent_ids-external,
}

-- What a stream has sent is relayed, and it has sent no id twice.
record IsFaithful (r : String) (st : Stream) : Type 0 where
  well_formed : IsWellFormed st.store
  once : Distinct (sent_ids st.sent)
  sent_is_relayed :
      (x : String)
      → member x (sent_ids st.sent) ≡ true
      → member x (event_ids (relayed (view st.store r))) ≡ true

changes-IsFaithful :
    (r : String) (cs : List Change) (st : Stream) (o : Outcome)
    → NoRemoval cs
    → IsFaithful r st
    → IsFaithful r (record st { store = changes cs st.store; outcome = o })
changes-IsFaithful r cs st o n v = record {
  well_formed = changes-IsWellFormed cs st.store v.well_formed;
  once = v.once;
  sent_is_relayed =
      λ x m. (changes-IsKept cs st.store r n v.well_formed).still_relayed x (v.sent_is_relayed x m);
}

-- The pending events of the store `s` are sent, others change the store to `s'`, and the events
-- that were sent are marked.
module _ (r : String) (now : ℕ) (st : Stream) (v : IsFaithful r st) (s' : InMemoryStore)
    (v' : IsWellFormed s') (kept : IsKept (view st.store r) (view s' r)) where
  deliver-once : Distinct (sent_ids (st.sent ++ (unsent st.store r)))
  deliver-once =
      rw (map-append, sent_ids-external)
        (Distinct-append _ _ v.once
          (Distinct-keep _ (view st.store r) (rw event_ids-view (v.well_formed.distinct r)))
          (λ x m.
            pending_of_relayed x (view st.store r) (rw event_ids-view (v.well_formed.distinct r))
              (v.sent_is_relayed x m)))

  deliver-relayed :
      (x : String)
      → member x (sent_ids (st.sent ++ (unsent st.store r))) ≡ true
      → member x (event_ids (relayed (view (update_relay_status now (unsent st.store r) r s') r)))
        ≡ true
  deliver-relayed x m =
      rw
        (
          view-update now (unsent st.store r) r s' v',
          eq_refl,
          member-relayed-mark_ids now (sent_ids (unsent st.store r)) x (view s' r),
        )
        (ground (
          arith,
          map-append (λ (e : WebhookEvent). e.event_id) st.sent (unsent st.store r),
          member-append x (sent_ids st.sent) (sent_ids (unsent st.store r)),
          sent_ids-external (pending (view st.store r)),
          v.sent_is_relayed x,
          kept.still_relayed x,
          kept.stored x,
          member-keep (λ y. not y.is_relayed) x (view st.store r),
        ))

respond-IsFaithful :
    (w : RepositoryWatcher) (r : String) (now : ℕ) (e : GoError) (before during : List Change)
    (st : Stream)
    → NoRemoval before
    → NoRemoval during
    → IsFaithful r st
    → IsFaithful r (respond w r now e before during st)
unfolding respond
respond-IsFaithful w r now e before during st nb nd v =
    let now_st : Stream = record st { store = changes before st.store } in
    let here : IsFaithful r now_st = changes-IsFaithful r before st st.outcome nb v in
    let wf = changes-IsWellFormed during (changes before st.store) here.well_formed in
    let kept = changes-IsKept during (changes before st.store) r nd here.well_formed in
    rw (retrieve_lem w (changes before st.store) r, respond)
      (elim (Bool-cases (repository_is_watched w r)) [
        | inr unwatched ↦ rw unwatched (changes-IsFaithful r before st _ nb v)
        | inl watched ↦ rw watched (elim (Option-cases e) [
          | inr (message, broken) ↦
              rw broken (changes-IsFaithful r during now_st (failed message) nd here)
          | inl sent ↦ rw sent (record {
            well_formed = update-IsWellFormed now _ r _ wf;
            once = deliver-once r now now_st here _ wf kept;
            sent_is_relayed = deliver-relayed r now now_st here _ wf kept;
          })
        ])
      ])

fetch_loop-IsFaithful :
    (w : RepositoryWatcher) (r : String) (finish : ℕ) (schedule : List (ℕ × Wake)) (st : Stream)
    → NoRemovals schedule
    → IsFaithful r st
    → IsFaithful r (fetch_loop w r finish schedule st)
unfolding fetch_loop wake
fetch_loop-IsFaithful w r finish [] st n v = v
fetch_loop-IsFaithful w r finish ((now, tick t e before during) ∷ rest) st n v =
    let next = respond-IsFaithful w r t e before during st n.0 n.1 v in
    let later = fetch_loop-IsFaithful w r finish rest (respond w r t e before during st) n.2 next in
    ground (arith, next, later, v)
fetch_loop-IsFaithful w r finish ((now, client_done) ∷ rest) st n v = ground (arith, v)
fetch_loop-IsFaithful w r finish ((now, main_done) ∷ rest) st n v = ground (arith, v)

-- From a well-formed store, a stream sends no event id twice, whatever arrivals and marks of other
-- streams come between and during its responses, and every id that it has sent is relayed in the
-- end. No event is removed meanwhile.
pub fetch-Distinct :
    (w : RepositoryWatcher) (request : WebhookEventsRequest) (now : ℕ) (schedule : List (ℕ × Wake))
    (s : InMemoryStore)
    → IsWellFormed s
    → NoRemovals schedule
    → Distinct (sent_ids (fetch_webhook_events w request now schedule s).sent)
      × ((x : String)
          → member x (sent_ids (fetch_webhook_events w request now schedule s).sent) ≡ true
          → member x (
              event_ids (
                relayed (
                  view
                    (fetch_webhook_events w request now schedule s).store
                    request.repository_id)))
            ≡ true)
unfolding fetch_webhook_events
fetch-Distinct w request now schedule s v n =
    let done =
      fetch_loop-IsFaithful w request.repository_id _ schedule
        (record { store = s; sent = []; outcome = streaming }) n
        (record { well_formed = v; once = tt; sent_is_relayed = λ x m. cc }) in
    (done.once, done.sent_is_relayed)
