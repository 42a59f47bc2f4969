-- ===== src/Examples/Network.antt =====
-- A run in which the client turns from a stream before it has read its last response.
use gitstafette.Common.{pos, ℕ, ◌≡◌, ◌↔◌, refl, String, true, ◌||◌, List, [], map, some, member}
use gitstafette.Event.{WebhookEvent, internal_to_external_event}
use gitstafette.Event.RoundTrip.{Wire, or_empty}
use gitstafette.Cache.Heap.{alloc}
use gitstafette.Cache.InMemory.{new_in_memory_store, store, retrieve_events_for_repository}
use gitstafette.Cache.Ingest.{insert, internal_event}
use gitstafette.Cache.Spec.{view, event_ids}
use gitstafette.Cache.Watcher.{repository_is_watched}
use gitstafette.Client.{GrpcClientConfig}
use gitstafette.Server.{retrieve_cached_events_for_repository, update_relay_status}
use gitstafette.Server.Changes.{unsent}
use gitstafette.Server.Marking.{sent_ids}
use gitstafette.Webhook.Signature.{validate_message, computed_sha}
use gitstafette.Webhook.{handle_github_post}
use gitstafette.Webhook.Post.{target, incoming}
use gitstafette.System.{
  System, new_system, set_at, note, accept, is_created, waiting, holding, delivered, posts,
  retrieves, marks,
}
use gitstafette.Network.{
  Network, flatten, wire_ids, Moves, Reached, begins, moved, serves, responds, reopens,
}
use gitstafette.Network.Delivery.{Reached-delivers}
use gitstafette.Network.Accounted.{Reached-accounted}
use gitstafette.Examples.{empty_heap, repo, watcher, toy_mac, ping, http_target}

abbrev of_repo : ℕ → String
of_repo i = repo

abbrev wire : Wire
wire = record {
  transmit = λ e. record e { headers = map (λ h. some (or_empty h)) e.headers };
  transmit_lem = λ e. refl;
}

abbrev client : GrpcClientConfig
client = record {
  client_id = "me";
  repository_id = repo;
  stream_window = pos 3600;
  webhook_hmac = "";
}

abbrev begun : System
begun = new_system empty_heap true true

abbrev taken : System
taken = record begun {
  store = (handle_github_post toy_mac 9 watcher begun.store ping).1;
  origin = set_at begun.origin begun.store.heap.next (target ping);
  accepted =
      accept (is_created (handle_github_post toy_mac 9 watcher begun.store ping).0) (target ping)
        (incoming 9 ping).id begun.accepted;
}

abbrev messages : List WebhookEvent
messages = unsent taken.store repo

abbrev retrieved : System
retrieved = record taken { streams = set_at taken.streams 0 (holding messages) }

abbrev responded : System
responded = record retrieved {
  streams = set_at retrieved.streams 0 (delivered messages);
  handed = note repo (sent_ids messages) retrieved.handed;
}

abbrev marked : System
marked = record responded {
  store = update_relay_status 10 messages repo responded.store;
  streams = set_at responded.streams 0 waiting;
}

abbrev turned : Network
turned = record {
  system = marked;
  reading = 1;
  in_flight = [];
  cache = new_in_memory_store empty_heap true true;
  sent = messages;
  abandoned = messages;
}

turned-Reached : Reached watcher http_target of_repo of_repo wire toy_mac client http_target turned
unfolding retrieve_cached_events_for_repository repository_is_watched view handle_github_post
    retrieve_events_for_repository validate_message computed_sha internal_event insert store
    new_in_memory_store update_relay_status
turned-Reached =
    moved
      (moved
        (moved
          (moved
            (moved (begins empty_heap empty_heap true true true true 0 refl refl refl)
              (serves taken (posts toy_mac 9 ping) (refl, (refl, (refl, (refl, tt)))) refl))
            (serves retrieved (retrieves 0 messages refl refl) tt refl))
          (responds messages refl))
        (serves marked (marks 0 10 messages refl) tt refl))
      (reopens 1 refl)

-- The event is marked as relayed, so no stream sends it again, and it is not in the client's cache.
abandoned_for_good :
    (member "b" (wire_ids turned.abandoned) ≡ true)
    × (unsent turned.system.store repo ≡ [])
    × (view turned.cache repo ≡ [])
unfolding view retrieve_events_for_repository handle_github_post validate_message computed_sha
    repository_is_watched internal_event insert store new_in_memory_store update_relay_status
    internal_to_external_event alloc
abandoned_for_good = (refl, refl, refl)

Reached-accounted_example : (member "b" (turned.system.accepted repo) ≡ true) ↔ (
    (member "b" (event_ids (view turned.system.store repo))
      || member "b" (event_ids (view turned.cache repo))
      || member "b" (wire_ids (flatten turned.in_flight))
      || member "b" (wire_ids turned.abandoned))
    ≡ true)
Reached-accounted_example =
    Reached-accounted watcher http_target of_repo of_repo wire toy_mac client http_target turned
      turned-Reached "b"

is_watched : repository_is_watched watcher repo ≡ true
unfolding repository_is_watched
is_watched = refl

Reached-delivers_example :
    (m : Network) × Moves watcher http_target of_repo of_repo wire toy_mac client http_target turned
      m
    × (m.system.accepted ≡ turned.system.accepted)
    × (m.abandoned ≡ turned.abandoned)
    × (m.in_flight ≡ [])
    × ((x : String)
        → member x (turned.system.accepted repo)
          ≡ (member x (event_ids (view m.cache repo)) || member x (wire_ids m.abandoned)))
Reached-delivers_example =
    Reached-delivers watcher http_target of_repo of_repo wire toy_mac client http_target turned
      turned-Reached is_watched refl
