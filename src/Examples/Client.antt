-- ===== src/Examples/Client.antt =====
-- Tests of the client's window and of its loop over the streams.
use gitstafette.Common.{
  ◌+◌, ◌*◌, ◌^◌, ◌<◌, ◌≡◌, refl, true, false, none, some, List, [], ◌∷◌, member, arith, pos,
}
use gitstafette.Cache.InMemory.{new_in_memory_store, retrieve_events_for_repository, store}
use gitstafette.Cache.Heap.{alloc}
use gitstafette.Cache.Ingest.{insert}
use gitstafette.Event.{WebhookEvent}
use gitstafette.Cache.Spec.{view, event_ids}
use gitstafette.Cache.InMemory.Invariant.{IsWellFormed}
use gitstafette.Client.{
  GrpcServerConfig, GrpcClientConfig, events_request, stream_finish, NewClient, StreamErrors,
  response, end_of_stream,
}
use gitstafette.Client.Window.{window_lem}
use gitstafette.Client.Main.{Turn, client_loop}
use gitstafette.Client.Kept.{client_loop-keeps}
use gitstafette.Server.{second}
use gitstafette.Examples.{repo, toy_mac, one_event, one_event-IsWellFormed}

abbrev connection : GrpcServerConfig
connection = record {
  host = "localhost";
  port = "50051";
  stream_window = pos 3600;
  insecure = true;
  oauth_token = "";
  tls_config = none;
}

abbrev client : GrpcClientConfig
client = record {
  client_id = "me";
  repository_id = repo;
  stream_window = pos 3600;
  webhook_hmac = "";
}

window_lem_example :
    ((events_request connection client).duration_secs ≡ 3600)
    × (second * (events_request connection client).duration_secs < 2 ^ 63)
    × (stream_finish 17 client ≡ 17 + second * (events_request connection client).duration_secs)
window_lem_example = window_lem connection client 17 3600 (omega arith) refl refl

-- A response with a new event, and then a stream that ends.
abbrev delivery : List WebhookEvent
delivery =
    record {
      event_id = "c";
      body = 123 ∷ [];
      headers = some (record { name = "X-Github-Delivery"; values = "c" }) ∷ [];
    }
    ∷ []

abbrev no_errors : StreamErrors
no_errors = record { fetch_error = none; context_error = none; close_error = none }

-- A library that connects with any options.
abbrev connects : NewClient
connects address options = none

abbrev turns : List Turn
turns =
    record {
      started = 5;
      errors = no_errors;
      schedule = (10, response delivery) ∷ (20, end_of_stream) ∷ [];
      is_interrupted = false;
    }
    ∷ record { started = 30; errors = no_errors; schedule = []; is_interrupted = true }
    ∷ []

client_loop-keeps_example :
    IsWellFormed (client_loop toy_mac connects connection client turns one_event).1
    × (member "a"
          (event_ids (view (client_loop toy_mac connects connection client turns one_event).1 repo))
        ≡ true)
unfolding view retrieve_events_for_repository insert store new_in_memory_store alloc
client_loop-keeps_example =
    client_loop-keeps toy_mac connects connection client turns one_event repo "a"
      one_event-IsWellFormed refl
