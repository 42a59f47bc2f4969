-- ===== src/Examples/Serve.antt =====
-- Tests of the start of the server, and of who may call it.
use gitstafette.Cache.Startup.{initialize_store}
use gitstafette.Telemetry.Setup.{setup_otel_sdk}
use gitstafette.Examples.{traced}
use gitstafette.Common.{
  ◌+◌, ◌≡◌, ◌&&◌, refl, String, true, false, Option, none, some, List, [], ◌∷◌, if◌then◌else◌,
}
use gitstafette.Common.Separated.{contains_comma, split}
use gitstafette.Auth.{Intercepted, handled, validate_token, unary_interceptor}
use gitstafette.Cache.InMemory.{new_in_memory_store}
use gitstafette.Cache.Create.{create_in_memory_store}
use gitstafette.Cache.Startup.{Started, in_memory, init_cache}
use gitstafette.Cache.Watcher.{repository_is_watched}
use gitstafette.Info.{ServerConfig}
use gitstafette.Relay.Config.{RelayConfig, create_relay_config}
use gitstafette.Serve.{
  Interceptor, validates_token, demands_secret, GrpcServer, initialize_grpc_server,
  initialize_grpc_health_server,
}
use gitstafette.Serve.Main.{Flags, World, Running, serves, launch, server_main}
use gitstafette.Serve.Access.{
  is_stream, is_health, is_some, is_served, webhook_event_push, GrpcLibrary, access_lem,
}
use gitstafette.Serve.Start.{
  relays_repository, health_services, health_servers, services_of, first_end, ending, any_comes,
  demands_certificate, server_main_lem,
}
use gitstafette.Serve.Signals.{Event, signals, interrupt, terminate, waiting, await}
use gitstafette.Tls.{is_set, new_tls_config}
use gitstafette.Examples.{repo, empty_heap, http_target}

-- Interceptors as the servers of the source have them: one, or none.
abbrev intercepted :
    {A : Type 0} → List Interceptor → Option String → Option (List String) → A → Intercepted A
intercepted [] token metadata result = handled result
intercepted (validates_token ∷ rest) token metadata result = validate_token token metadata result
intercepted (demands_secret ∷ rest) token metadata result = unary_interceptor metadata result

abbrev library : GrpcLibrary
library = record {
  call = λ s token m metadata result.
      if is_served m s.services
      then some (
          intercepted (if is_stream m then s.stream_interceptors else s.unary_interceptors) token
            metadata result)
      else none;
  unknown = λ s token m metadata result e. rw e refl;
  stream_token = λ s token m metadata result e stream i. rw (e, stream, i) refl;
  stream_free = λ s token m metadata result e stream i. rw (e, stream, i) refl;
  unary_secret = λ s token m metadata result e unary i. rw (e, unary, i) refl;
  unary_free = λ s token m metadata result e unary i. rw (e, unary, i) refl;
}

abbrev names : ServerConfig
names = record {
  name = "gsf";
  host = "localhost";
  port = "1323";
  grpc_port = "50051";
  repositories = repo ∷ [];
}

-- A push without metadata is handled, though a token is set.
access_lem_example :
    (library.call
        (initialize_grpc_server "50051" none none names http_target)
        (some "abc")
        webhook_event_push
        none
        true
      ≡ (if is_health webhook_event_push && is_some {A = GrpcServer} none
          then none
          else some (
              if is_stream webhook_event_push
              then validate_token (some "abc") none true
              else handled true)))
    × (library.call
          (initialize_grpc_health_server "50052")
          (some "abc")
          webhook_event_push
          none
          true
        ≡ (if is_health webhook_event_push
            then some
                (if is_stream webhook_event_push then handled true else unary_interceptor none true)
            else none))
access_lem_example =
    access_lem library (some "abc") webhook_event_push none true "50051" "50052" none none names
      http_target

abbrev flags : Flags
flags = record {
  name = "gsf";
  port = "1323";
  grpc_port = "50051";
  grpc_health_port = "50052";
  repository_ids = "12345,537845873";
  redis = record { host = "localhost"; port = "6379"; password = ""; database = "0" };
  relay_enabled = true;
  relay_host = "127.0.0.1";
  relay_path = "/";
  relay_health_check_path = "/";
  relay_port = "8080";
  relay_protocol = "http";
  relay_insecure = false;
  ca_file_location = "";
  cert_file_location = "";
  cert_key_file_location = "";
  webhook_hmac = "secret";
}

abbrev pub world : World
world = record {
  files = record {
    load_x509_key_pair = λ c k. none;
    read_file = λ f. none;
    append_certs_from_pem = λ f. true;
    loads_system_pool = true;
  };
  redis = record { atoi = λ text. none; ping = λ options. some "refused" };
  setting = traced;
  parse_url = λ text. some text;
  sentry_dsn = none;
  sentry_init = λ options. none;
}

abbrev pub relay_config : RelayConfig
relay_config = record http_target {
  host = "127.0.0.1";
  endpoint = "http://127.0.0.1:8080/";
  health_endpoint = "http://127.0.0.1:8080/";
}

abbrev begun : Started
begun = record {
  repo_ids = "12345" ∷ repo ∷ [];
  repositories = record { repositories = "12345" ∷ repo ∷ [] };
  store = in_memory (new_in_memory_store empty_heap true true);
}

abbrev running : Running
running = launch world flags none begun relay_config

starts : server_main world flags ≡ serves running
unfolding server_main initialize_store create_in_memory_store setup_otel_sdk new_tls_config
    init_cache contains_comma split create_relay_config launch
starts = refl

abbrev events : List Event
events = signals terminate ∷ signals interrupt ∷ []

server_main_lem_example :
    (relays_repository repo running.relays
      ≡ (flags.relay_enabled && repository_is_watched running.cache.repositories repo))
    × (health_services running.grpc_server.services
          + health_services (services_of running.grpc_health_server)
        ≡ 1)
    × (running.echo_server.webhook_hmac ≡ flags.webhook_hmac)
    × (demands_certificate running.grpc_server.credentials ≡ is_set flags.ca_file_location)
    × (await flags running none false events
        ≡ ending
            (running.grpc_server ∷ health_servers running.grpc_health_server)
            (any_comes events)
            (first_end events))
server_main_lem_example = server_main_lem world flags running starts repo events

-- SIGTERM alone ends the relays, and not the process.
terminated : await flags running none false (signals terminate ∷ []) ≡ waiting true
unfolding await
terminated = refl
