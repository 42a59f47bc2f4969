-- ===== src/Serve/Main.antt =====
-- `main` of cmd/server/main.go: the servers and goroutines that the flags start.
use gitstafette.Common.{
  String, Bool, true, not, Option, none, some, List, [], ◌∷◌, ◌++◌, ◌==◌, if◌then◌else◌,
}
use gitstafette.Cache.Create.{Setting, Creation, creates, ends, meets_nil_provider}
use gitstafette.Cache.Startup.{RedisConfig, RedisLibrary, Started, init_cache}
use gitstafette.Relay.Config.{RelayConfig, create_relay_config}
use gitstafette.Relay.{Service, initiate_relay}
use gitstafette.Serve.Reports.{Sentry, SentryOptions, init_sentry}
use gitstafette.Telemetry.Setup.{Outcome, returns, process_exits, setup_otel_sdk}
use gitstafette.Tls.{TlsConfig, Files, Configured, new_tls_config}
use gitstafette.Webhook.{is_empty}
use gitstafette.Serve.{
  GrpcServer, EchoServer, initialize_grpc_health_server, initialize_grpc_server,
  initialize_echo_server,
}

pub record Flags : Type 0 where
  pub name : String
  pub port : String
  pub grpc_port : String
  pub grpc_health_port : String
  pub repository_ids : String
  pub redis : RedisConfig
  pub relay_enabled : Bool
  pub relay_host : String
  pub relay_path : String
  pub relay_health_check_path : String
  pub relay_port : String
  pub relay_protocol : String
  pub relay_insecure : Bool
  pub ca_file_location : String
  pub cert_file_location : String
  pub cert_key_file_location : String
  pub webhook_hmac : String

-- The world of the process: files, the client of Redis, the telemetry, `url.Parse`, the variable
-- SENTRY_DSN and the error of `sentry.Init`, if it has one.
pub record World : Type 0 where
  pub files : Files
  pub redis : RedisLibrary
  pub setting : Setting
  pub parse_url : String → Option String
  pub sentry_dsn : Option String
  pub sentry_init : SentryOptions → Option String

-- `relays` are the goroutines of the relay that were started, and `cleans_up` is whether that of
-- `CleanupRelayedEvents` was.
pub record Running : Type 0 where
  pub sentry : Sentry
  pub cache : Started
  pub relay_config : RelayConfig
  pub grpc_server : GrpcServer
  pub grpc_health_server : Option GrpcServer
  pub echo_server : EchoServer
  pub relays : List Service
  pub cleans_up : Bool

-- The process serves, has exited, has asked a nil provider for a tracer or a meter, or has added a
-- certificate to a nil pool.
pub data Launch : Type 0 where
  serves : Running → Launch
  exits : Launch
  asks_nil_provider : Launch
  adds_to_nil_pool : Launch

unfoldable pub initiate_relays : RelayConfig → List String → List Service
initiate_relays relay_config [] = []
initiate_relays relay_config (r ∷ rs) =
    initiate_relay relay_config r ++ initiate_relays relay_config rs

abbrev pub health_server_of : Flags → Option GrpcServer
health_server_of flags =
    if not (flags.grpc_health_port == flags.grpc_port)
    then some (initialize_grpc_health_server flags.grpc_health_port)
    else none

-- From `serverConfig := …` on.
unfoldable pub launch : World → Flags → Option TlsConfig → Started → RelayConfig → Running
unfolding init_sentry initialize_grpc_server initialize_echo_server initiate_relays
launch world flags tls_config started relay_config = record {
  sentry = init_sentry world.sentry_init world.sentry_dsn;
  cache = started;
  relay_config = relay_config;
  grpc_server =
      initialize_grpc_server flags.grpc_port tls_config (health_server_of flags)
        (record {
          name = flags.name;
          host = "localhost";
          port = flags.port;
          grpc_port = flags.grpc_port;
          repositories = started.repo_ids;
        })
        relay_config;
  grpc_health_server = health_server_of flags;
  echo_server = initialize_echo_server flags.port flags.webhook_hmac;
  relays = if relay_config.enabled then initiate_relays relay_config started.repo_ids else [];
  cleans_up = true;
}

abbrev pub relay_config_of : World → Flags → Option RelayConfig
relay_config_of world flags =
    create_relay_config world.parse_url flags.relay_enabled flags.relay_host flags.relay_path
      flags.relay_health_check_path flags.relay_port flags.relay_protocol flags.relay_insecure

abbrev pub with_relay_config :
    World → Flags → Option TlsConfig → Started → Option RelayConfig → Launch
with_relay_config world flags tls_config started none = exits
with_relay_config world flags tls_config started (some relay_config) =
    serves (launch world flags tls_config started relay_config)

-- `tracer = tp.Tracer(…)` stands before the test of the error, with which the provider is nil.
abbrev pub with_telemetry : World → Flags → Option TlsConfig → Started → Outcome → Launch
with_telemetry world flags tls_config started process_exits = exits
with_telemetry world flags tls_config started (returns st made) =
    if is_empty st.error
    then with_relay_config world flags tls_config started (relay_config_of world flags)
    else asks_nil_provider

-- From `otelEnabled = …` on.
abbrev pub with_started : World → Flags → Option TlsConfig → Started → Launch
with_started world flags tls_config started =
    if world.setting.otel_enabled
    then with_telemetry world flags tls_config started (setup_otel_sdk world.setting.sdk true)
    else with_relay_config world flags tls_config started (relay_config_of world flags)

abbrev pub with_cache : World → Flags → Option TlsConfig → Creation Started → Launch
with_cache world flags tls_config ends = exits
with_cache world flags tls_config meets_nil_provider = asks_nil_provider
with_cache world flags tls_config (creates started) = with_started world flags tls_config started

abbrev pub with_tls : World → Flags → Configured → Launch
with_tls world flags none = adds_to_nil_pool
with_tls world flags (some (tls_config, some e)) = exits
with_tls world flags (some (tls_config, none)) =
    with_cache world flags tls_config
      (init_cache world.redis world.setting flags.repository_ids (some flags.redis))

unfoldable pub server_main : World → Flags → Launch
unfolding launch
server_main world flags = with_tls world flags (
    new_tls_config world.files flags.ca_file_location flags.cert_file_location
      flags.cert_key_file_location true)
