-- ===== src/Examples/Server.antt =====
-- Tests of the server's streams.
use gitstafette.Common.{
  arith, some, map, ℕ, ◌≡◌, ◌≢◌, refl, String, true, none, List, [], ◌∷◌, ◌++◌, member, Distinct,
}
use gitstafette.Event.{internal_to_external_event}
use gitstafette.Cache.Spec.{view, event_ids}
use gitstafette.Cache.Watcher.{repository_is_watched}
use gitstafette.Server.{
  arrives, changes, wake, fetch_loop, tick, client_done, Wake, WebhookEventsRequest, Stream,
  streaming, fetched, respond, retrieve_cached_events_for_repository, update_relay_status,
  fetch_webhook_events,
}
use gitstafette.Event.RoundTrip.{Wire, or_empty}
use gitstafette.Server.{WebhookEventPushRequest, webhook_event_push}
use gitstafette.Server.Push.{seen, spec_push, push_lem}
use gitstafette.Cache.InMemory.{new_in_memory_store, retrieve_events_for_repository, store}
use gitstafette.Cache.Heap.{alloc}
use gitstafette.Cache.Ingest.{insert}
use gitstafette.Server.Marking.{sent_ids}
use gitstafette.Server.Pending.{relayed}
use gitstafette.Server.Delivery.{fetch-Distinct}
use gitstafette.Server.Changes.{unsent}
use gitstafette.Server.Eventually.{fetch-delivers}
use gitstafette.Server.Rounds.{respond-drains, fetch_ends}
use gitstafette.Examples.{event_named, repo, one_event, one_event-IsWellFormed, watcher}

abbrev request : WebhookEventsRequest
request = record {
  client_id = "me";
  repository_id = repo;
  last_received_event_id = 0;
  duration_secs = 10;
}

-- Two rounds, with an arrival before the second, and a reading after the end.
abbrev schedule : List (ℕ × Wake)
schedule =
    (0, tick 5 none [] [])
    ∷ (5, tick 10 none (arrives repo (event_named "b") ∷ []) [])
    ∷ (10_000_000_000, client_done)
    ∷ []

abbrev begun : Stream
begun = record { store = one_event; sent = []; outcome = streaming }

fetch-Distinct_example :
    Distinct (sent_ids (fetch_webhook_events watcher request 0 schedule one_event).sent)
    × ((x : String)
        → member x (sent_ids (fetch_webhook_events watcher request 0 schedule one_event).sent)
          ≡ true
        → member x (
            event_ids (
              relayed
                (view (fetch_webhook_events watcher request 0 schedule one_event).store repo)))
          ≡ true)
fetch-Distinct_example =
    fetch-Distinct watcher request 0 schedule one_event one_event-IsWellFormed
      (tt, tt, (tt, tt, tt))

respond-drains_example :
    ((respond watcher repo 5 none [] [] begun).sent ≡ [] ++ unsent one_event repo)
    × ((respond watcher repo 5 none [] [] begun).outcome ≡ streaming)
    × (retrieve_cached_events_for_repository watcher
          (respond watcher repo 5 none [] [] begun).store
          repo
        ≡ fetched [])
unfolding repository_is_watched
respond-drains_example = respond-drains watcher repo 5 begun one_event-IsWellFormed refl

fetch_ends_example : (fetch_webhook_events watcher request 0 schedule one_event).outcome ≢ streaming
fetch_ends_example = fetch_ends watcher request 0 schedule one_event refl

abbrev wire : Wire
wire = record {
  transmit = λ e. record e { headers = map (λ h. some (or_empty h)) e.headers };
  transmit_lem = λ e. refl;
}

-- An event as another instance relays it.
abbrev relayed_push : WebhookEventPushRequest
relayed_push = record {
  client_id = "myself";
  repository_id = repo;
  webhook_event = some (wire.transmit (internal_to_external_event (event_named "b")));
}

push_lem_example :
    seen (webhook_event_push 11 one_event relayed_push)
    ≡ spec_push 11 (view one_event) repo relayed_push.webhook_event
push_lem_example = push_lem 11 relayed_push one_event one_event-IsWellFormed

-- A request without an event makes the server panic.
empty_push : webhook_event_push 11 one_event (record relayed_push { webhook_event = none }) ≡ none
unfolding webhook_event_push
empty_push = refl

-- An event that arrives while the stream waits is sent with the next round.
abbrev waiting_rounds : List (ℕ × Wake)
waiting_rounds = (0, tick 5 none [] []) ∷ []

still_streams :
    (fetch_webhook_events watcher request 0 waiting_rounds one_event).outcome ≡ streaming
unfolding fetch_webhook_events fetch_loop wake respond retrieve_cached_events_for_repository
    repository_is_watched
still_streams = refl

not_sent_yet :
    member "b" (
      sent_ids (
        unsent
          (changes
            (arrives repo (event_named "b") ∷ [])
            (fetch_webhook_events watcher request 0 waiting_rounds one_event).store)
          repo))
    ≡ true
unfolding fetch_webhook_events fetch_loop wake respond retrieve_cached_events_for_repository
    repository_is_watched view retrieve_events_for_repository insert store update_relay_status
    new_in_memory_store alloc internal_to_external_event
not_sent_yet = refl

fetch-delivers_example :
    member "b" (
      sent_ids
        (fetch_webhook_events watcher request 0
          (waiting_rounds
            ++ (5, tick 10 none (arrives repo (event_named "b") ∷ []) []) ∷ (20, client_done) ∷ [])
          one_event).sent)
    ≡ true
unfolding repository_is_watched
fetch-delivers_example =
    fetch-delivers watcher request 0 waiting_rounds ((20, client_done) ∷ []) 5 10
      (arrives repo (event_named "b") ∷ []) [] one_event "b" refl still_streams (omega arith)
      not_sent_yet
