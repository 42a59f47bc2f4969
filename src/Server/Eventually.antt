-- ===== src/Server/Eventually.antt =====
-- What a stream has to send is sent, as soon as a round comes.
use gitstafette.Common.{
  ℕ, ◌+◌, ◌*◌, ◌<◌, ◌≡◌, refl, String, true, none, some, List, [], ◌∷◌, ◌++◌, map-append, arith,
  member, member-append,
}
use gitstafette.Event.{WebhookEvent}
use gitstafette.Cache.InMemory.{InMemoryStore}
use gitstafette.Cache.Watcher.{RepositoryWatcher, repository_is_watched}
use gitstafette.Server.{
  Change, changes, Wake, tick, client_done, main_done, second, streaming, Stream, respond, wake,
  fetch_loop, fetch_webhook_events, WebhookEventsRequest,
}
use gitstafette.Server.Marking.{sent_ids}
use gitstafette.Server.Changes.{retrieve_lem, unsent}

sent-respond :
    (w : RepositoryWatcher) (r : String) (now : ℕ) (before during : List Change) (st : Stream)
    → repository_is_watched w r ≡ true
    → (respond w r now none before during st).sent ≡ st.sent ++ unsent (changes before st.store) r
unfolding respond
sent-respond w r now before during st h =
    rw (retrieve_lem w (changes before st.store) r, h, respond) refl

outcome-respond :
    (w : RepositoryWatcher) (r : String) (now : ℕ) (before during : List Change) (st : Stream)
    → repository_is_watched w r ≡ true
    → (respond w r now none before during st).outcome ≡ st.outcome
unfolding respond
outcome-respond w r now before during st h =
    rw (retrieve_lem w (changes before st.store) r, h, respond) refl

-- What was sent stays in the account of the stream.
member-wake :
    (w : RepositoryWatcher) (r : String) (woken : Wake) (st : Stream) (x : String)
    → member x (sent_ids st.sent) ≡ true
    → member x (sent_ids (wake w r woken st).sent) ≡ true
unfolding wake respond
member-wake w r client_done st x m = m
member-wake w r main_done st x m = m
member-wake w r (tick now (some e) before during) st x m =
    ground (arith, m, retrieve_lem w (changes before st.store) r)
member-wake w r (tick now none before during) st x m = ground (
  arith,
  m,
  retrieve_lem w (changes before st.store) r,
  map-append (λ (e : WebhookEvent). e.event_id) st.sent (unsent (changes before st.store) r),
  member-append x (sent_ids st.sent) (sent_ids (unsent (changes before st.store) r)),
)

member-fetch_loop :
    (w : RepositoryWatcher) (r : String) (finish : ℕ) (schedule : List (ℕ × Wake)) (st : Stream)
    (x : String)
    → member x (sent_ids st.sent) ≡ true
    → member x (sent_ids (fetch_loop w r finish schedule st).sent) ≡ true
unfolding fetch_loop
member-fetch_loop w r finish [] st x m = m
member-fetch_loop w r finish ((now, woken) ∷ rest) st x m = ground (
  arith,
  m,
  member-wake w r woken st x m,
  member-fetch_loop w r finish rest (wake w r woken st) x,
)

-- A loop that still runs at the end of a schedule goes on with what follows.
fetch_loop-append :
    (w : RepositoryWatcher) (r : String) (finish : ℕ) (prefix rest : List (ℕ × Wake)) (st : Stream)
    → (fetch_loop w r finish prefix st).outcome ≡ streaming
    → fetch_loop w r finish (prefix ++ rest) st
      ≡ fetch_loop w r finish rest (fetch_loop w r finish prefix st)
unfolding fetch_loop
fetch_loop-append w r finish [] rest st h = refl
fetch_loop-append w r finish ((now, woken) ∷ prefix) rest st h =
    ground (arith, h, fetch_loop-append w r finish prefix rest (wake w r woken st))

-- One round, of a stream that goes on.
fetch_loop-tick :
    (w : RepositoryWatcher) (r : String) (finish t now : ℕ) (before during : List Change)
    (rest : List (ℕ × Wake)) (st : Stream) (x : String)
    → repository_is_watched w r ≡ true
    → t < finish
    → st.outcome ≡ streaming
    → member x (sent_ids (unsent (changes before st.store) r)) ≡ true
    → member x (sent_ids (fetch_loop w r finish ((t, tick now none before during) ∷ rest) st).sent)
      ≡ true
unfolding fetch_loop wake
fetch_loop-tick w r finish t now before during rest st x watched early runs m =
    let next = respond w r now none before during st in
    let now_sent : member x (sent_ids next.sent) ≡ true =
      rw (sent-respond w r now before during st watched) (
        ground (
          arith,
          m,
          map-append (λ (e : WebhookEvent). e.event_id) st.sent
              (unsent (changes before st.store) r),
          member-append x (sent_ids st.sent) (sent_ids (unsent (changes before st.store) r)),
        )) in
    ground (
      arith,
      early,
      now_sent,
      runs,
      outcome-respond w r now before during st watched,
      member-fetch_loop w r finish rest next x now_sent,
    )

-- A stream for a watched repository that still runs after some rounds, and whose next round comes
-- within its window and can send, has in the end sent every event that is not relayed when that
-- round retrieves, whatever comes later.
pub fetch-delivers :
    (w : RepositoryWatcher) (request : WebhookEventsRequest) (started : ℕ)
    (prefix rest : List (ℕ × Wake)) (t now : ℕ) (before during : List Change) (s : InMemoryStore)
    (x : String)
    → repository_is_watched w request.repository_id ≡ true
    → (fetch_webhook_events w request started prefix s).outcome ≡ streaming
    → t < started + second * request.duration_secs
    → (member x (
          sent_ids (
            unsent
              (changes before (fetch_webhook_events w request started prefix s).store)
              request.repository_id))
        ≡ true)
    → member x (
        sent_ids
          (fetch_webhook_events w request started
            (prefix ++ (t, tick now none before during) ∷ rest)
            s).sent)
      ≡ true
unfolding fetch_webhook_events
fetch-delivers w request started prefix rest t now before during s x watched runs early m =
    let finish = started + second * request.duration_secs in
    let st : Stream = record { store = s; sent = []; outcome = streaming } in
    let r = request.repository_id in
    rw (fetch_loop-append w r finish prefix ((t, tick now none before during) ∷ rest) st runs) (
      fetch_loop-tick w r finish t now before during rest (fetch_loop w r finish prefix st) x
        watched early runs m)
