-- ===== src/Examples/Outside.antt =====
-- Tests of what stands around the cache: the client, the tokens, the answers of `GetInfo`, the
-- telemetry and the TLS configuration.
use gitstafette.Common.{
  pos, ◌≡◌, ◌⊎◌, ◌↔◌, ◌||◌, refl, String, true, false, none, some, Option, List, [], ◌∷◌, ◌<>◌, map,
  member,
}
use gitstafette.Common.Separated.{contains_comma, split}
use gitstafette.Common.Prefix.{strip_prefix}
use gitstafette.Event.{Header, WebhookEvent}
use gitstafette.Cache.InMemory.{InMemoryStore}
use gitstafette.Cache.Spec.{view, event_ids}
use gitstafette.Cache.Startup.{RedisLibrary, Started, in_memory, init_cache, initialize_store}
use gitstafette.Cache.Create.{creates, create_in_memory_store}
use gitstafette.Client.{GrpcClientConfig, going, receive_events}
use gitstafette.Client.Round.{delivery_ids, received_from, receive-retrieve}
use gitstafette.Server.{fetched, retrieve_cached_events_for_repository}
use gitstafette.Server.Pending.{pending}
use gitstafette.Event.RoundTrip.{Wire, or_empty}
use gitstafette.Cache.Watcher.{repository_is_watched}
use gitstafette.Auth.{validate_token, validate_token_iff, handled}
use gitstafette.Info.{server, InfoServer, get_info, get_info-init_cache}
use gitstafette.Telemetry.Setup.{
  Sdk, State, nil_provider, Leaves, returns, setup_otel_sdk, setup_lem,
}
use gitstafette.Tls.{TlsConfig, Files, empty_tls_config, new_tls_config}
use gitstafette.Cache.InMemory.{new_in_memory_store}
use gitstafette.Examples.{
  untraced, empty_heap, empty_store, empty_store-IsWellFormed, watcher, repo, one_event, toy_mac,
  http_target,
}

abbrev client : GrpcClientConfig
client = record {
  client_id = "me";
  repository_id = repo;
  stream_window = pos 3600;
  webhook_hmac = "secret";
}

abbrev received_headers : List (List Header)
received_headers = (record { name = "X-Github-Delivery"; values = "c" } ∷ []) ∷ []

abbrev received_events : List WebhookEvent
received_events =
    record {
      event_id = "c";
      body = 123 ∷ [];
      headers = map some (record { name = "X-Github-Delivery"; values = "c" } ∷ []);
    }
    ∷ []

abbrev metadata : Option (List String)
metadata = some ("Bearer abc" ∷ [])

abbrev token : String
token = "abc"

validate_token_iff_example :
    ((validate_token (some token) metadata true ≡ handled true) ↔ (
      (first : String) × (rest : List String) × (metadata ≡ some (first ∷ rest))
      × ((first ≡ "Bearer " <> token) ⊎ ((first ≡ token) × (strip_prefix "Bearer " token ≡ none)))))
    × (validate_token none metadata true ≡ handled true)
validate_token_iff_example = validate_token_iff token metadata true

abbrev offline : RedisLibrary
offline = record { atoi = λ text. none; ping = λ options. some "refused" }

abbrev begun : Started
begun = record {
  repo_ids = "12345" ∷ repo ∷ [];
  repositories = record { repositories = "12345" ∷ repo ∷ [] };
  store = in_memory (new_in_memory_store empty_heap false true);
}

abbrev repositories : String
repositories = "12345,537845873"

begins : init_cache offline untraced repositories none ≡ creates begun
unfolding init_cache initialize_store create_in_memory_store contains_comma split
begins = refl

abbrev instance_info : InfoServer
instance_info = record {
  relay_config = http_target;
  server_config = record {
    name = "gitstafette";
    host = "localhost";
    port = "1323";
    grpc_port = "50051";
    repositories = begun.repo_ids;
  };
  kind = server;
}

get_info-init_cache_example :
    ((get_info "" instance_info).server.repositories ≡ some repositories)
    × (((get_info "" instance_info).relay ≡ none) ↔ (instance_info.relay_config.enabled ≡ false))
get_info-init_cache_example =
    get_info-init_cache offline untraced repositories none begun "" instance_info begins refl

-- The trace exporter cannot be made.
abbrev sdk : Sdk
sdk = record {
  new_resource = none;
  new_client = none;
  new_trace_exporter = some "no route";
  new_metric_exporter = none;
  shutdown = λ p. none;
}

abbrev left : State
left = record {
  shutdown_funcs = [];
  called = [];
  error = "failed to create trace exporter: no route" ∷ [];
}

sets_up : setup_otel_sdk sdk true ≡ returns left nil_provider
unfolding setup_otel_sdk
sets_up = refl

setup_lem_example : Leaves left nil_provider
setup_lem_example = setup_lem sdk true left nil_provider sets_up

abbrev files : Files
files = record {
  load_x509_key_pair = λ c k. none;
  read_file = λ f. none;
  append_certs_from_pem = λ f. true;
  loads_system_pool = true;
}

abbrev server_tls : TlsConfig
server_tls = record empty_tls_config {
  certificates = some ("server.pem", "server-key.pem");
  has_client_cas = true;
  require_client_cert = true;
  server_name = "gitstafette-server";
}

configures :
    new_tls_config files "ca.pem" "server.pem" "server-key.pem" true ≡ some (some server_tls, none)
unfolding new_tls_config
configures = refl

abbrev wire : Wire
wire = record {
  transmit = λ e. record e { headers = map (λ h. some (or_empty h)) e.headers };
  transmit_lem = λ e. refl;
}

is_watched : repository_is_watched watcher repo ≡ true
unfolding repository_is_watched
is_watched = refl

receive-retrieve_example :
    (es : List WebhookEvent) × (retrieve_cached_events_for_repository watcher one_event repo
      ≡ fetched es)
    × ((s' : InMemoryStore) × (receive_events toy_mac client 30 (received_from wire es) empty_store
          ≡ going s')
        × ((x : String)
            → member x (event_ids (view s' client.repository_id)) ≡ (
                member x (event_ids (view empty_store client.repository_id))
                || member x (delivery_ids (pending (view one_event repo))))))
receive-retrieve_example =
    receive-retrieve wire watcher one_event repo toy_mac client 30 empty_store is_watched
      empty_store-IsWellFormed
