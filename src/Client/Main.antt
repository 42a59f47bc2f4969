-- ===== src/Client/Main.antt =====
-- `main` of cmd/client/main.go: what the flags start, and the loop over the streams.
use gitstafette.Common.{
  ℕ, ℤ, String, Bool, true, false, Option, none, some, List, [], ◌∷◌, ◌<>◌, if◌then◌else◌,
}
use gitstafette.Cache.InMemory.{InMemoryStore}
use gitstafette.Cache.Create.{Creation, creates, ends, meets_nil_provider}
use gitstafette.Cache.Startup.{Started, init_cache}
use gitstafette.Client.{
  GrpcServerConfig, GrpcClientConfig, create_server_config, create_client_config, returned,
  panicked, exited, NewClient, StreamErrors, Wake, handle_webhook_event_stream,
}
use gitstafette.Info.{ServerConfig, relay}
use gitstafette.Relay.Config.{RelayConfig, create_relay_config}
use gitstafette.Relay.{Service, initiate_relay}
use gitstafette.Client.HealthCheck.{HealthCheckServer, init_health_check_server}
use gitstafette.Serve.{GrpcServer, info_service, health_service}
use gitstafette.Serve.Main.{World}
use gitstafette.Telemetry.Setup.{Outcome, returns, process_exits, setup_otel_sdk}
use gitstafette.Tls.{Configured, new_tls_config}
use gitstafette.Webhook.{is_empty}
use gitstafette.Webhook.Signature.{Mac}

pub record ClientFlags : Type 0 where
  pub name : String
  pub port : String
  pub server : String
  pub insecure : Bool
  pub secure : Bool
  pub repo : String
  pub info_port : String
  pub relay_enabled : Bool
  pub relay_host : String
  pub relay_path : String
  pub relay_health_check_path : String
  pub relay_port : String
  pub relay_protocol : String
  pub relay_insecure : Bool
  pub ca_file_location : String
  pub cert_file_location : String
  pub cert_key_file_location : String
  pub client_id : String
  pub stream_window : ℤ
  pub health_check_port : String
  pub webhook_hmac : String

unfoldable pub run_info_server : ServerConfig → RelayConfig → String → GrpcServer
run_info_server server_config relay_config grpc_port = record {
  address = ":" <> grpc_port;
  credentials = none;
  keepalive_policy = none;
  stream_interceptors = [];
  unary_interceptors = [];
  services =
      info_service
        (record { relay_config = relay_config; server_config = server_config; kind = relay })
      ∷ health_service
      ∷ [];
}

pub record ClientRunning : Type 0 where
  pub info_server : GrpcServer
  pub relays : List Service
  pub cache : Started
  pub health_check_server : HealthCheckServer
  pub grpc_server_config : GrpcServerConfig
  pub grpc_client_config : GrpcClientConfig

pub data ClientLaunch : Type 0 where
  streams : ClientRunning → ClientLaunch
  exits : ClientLaunch
  asks_nil_provider : ClientLaunch
  adds_to_nil_pool : ClientLaunch

-- `-secure` overrides `-insecure`.
abbrev pub is_insecure : ClientFlags → Bool
is_insecure flags = if flags.secure then false else flags.insecure

-- `oauthToken` is empty where the variable is not set.
abbrev pub token_or_empty : Option String → String
token_or_empty none = ""
token_or_empty (some token) = token

abbrev pub client_server_config : ClientFlags → ServerConfig
client_server_config flags = record {
  name = flags.name;
  host = "localhost";
  port = flags.health_check_port;
  grpc_port = flags.info_port;
  repositories = flags.repo ∷ [];
}

abbrev pub with_client_tls :
    ClientFlags → Option String → RelayConfig → Started → Configured → ClientLaunch
with_client_tls flags oauth_token relay_config started none = adds_to_nil_pool
with_client_tls flags oauth_token relay_config started (some (tls_config, some e)) = exits
with_client_tls flags oauth_token relay_config started (some (tls_config, none)) = streams (record {
  info_server = run_info_server (client_server_config flags) relay_config flags.info_port;
  relays = initiate_relay relay_config flags.repo;
  cache = started;
  health_check_server = init_health_check_server flags.health_check_port;
  grpc_server_config =
      create_server_config flags.server flags.port flags.stream_window (is_insecure flags)
        (token_or_empty oauth_token) tls_config;
  grpc_client_config =
      create_client_config flags.client_id flags.repo flags.stream_window flags.webhook_hmac;
})

-- Without a configuration of Redis the events are kept in memory.
abbrev pub with_client_cache :
    World → ClientFlags → Option String → RelayConfig → Creation Started → ClientLaunch
with_client_cache world flags oauth_token relay_config ends = exits
with_client_cache world flags oauth_token relay_config meets_nil_provider = asks_nil_provider
with_client_cache world flags oauth_token relay_config (creates started) =
    with_client_tls flags oauth_token relay_config started (
      new_tls_config world.files flags.ca_file_location flags.cert_file_location
        flags.cert_key_file_location false)

abbrev pub with_client_relay :
    World → ClientFlags → Option String → Option RelayConfig → ClientLaunch
with_client_relay world flags oauth_token none = exits
with_client_relay world flags oauth_token (some relay_config) =
    with_client_cache world flags oauth_token relay_config
      (init_cache world.redis world.setting flags.repo none)

unfoldable pub client_configured : World → ClientFlags → Option String → ClientLaunch
client_configured world flags oauth_token = with_client_relay world flags oauth_token (
    create_relay_config world.parse_url flags.relay_enabled flags.relay_host flags.relay_path
      flags.relay_health_check_path flags.relay_port flags.relay_protocol flags.relay_insecure)

-- An error of the set-up is only logged, and then the nil provider is asked for a tracer.
abbrev pub with_client_telemetry : World → ClientFlags → Option String → Outcome → ClientLaunch
with_client_telemetry world flags oauth_token process_exits = exits
with_client_telemetry world flags oauth_token (returns st made) =
    if is_empty st.error then client_configured world flags oauth_token else asks_nil_provider

-- `oauth_token` is the variable OAUTH_TOKEN, if it is set.
unfoldable pub client_main : World → ClientFlags → Option String → ClientLaunch
unfolding client_configured
client_main world flags oauth_token =
    if world.setting.otel_enabled
    then with_client_telemetry world flags oauth_token (setup_otel_sdk world.setting.sdk true)
    else client_configured world flags oauth_token

-- A turn of the loop: when it starts, the errors of its stream, what the stream does, and whether the
-- context of `main` has an error behind it.
pub record Turn : Type 0 where
  pub started : ℕ
  pub errors : StreamErrors
  pub schedule : List (ℕ × Wake)
  pub is_interrupted : Bool

-- How the loop ends: it breaks, the process exits on an error, or a stream panics. With no turn left
-- it sleeps before the next.
pub data Finish : Type 0 where
  sleeping : Finish
  closing : Finish
  fatal : String → Finish
  crashed : Finish

unfoldable pub client_loop :
    Mac
    → NewClient
    → GrpcServerConfig
    → GrpcClientConfig
    → List Turn
    → InMemoryStore
    → Finish × InMemoryStore
client_loop mac new_client server client [] s = (sleeping, s)
client_loop mac new_client server client (turn ∷ turns) s =
    let done =
      handle_webhook_event_stream mac new_client server client turn.started turn.errors
        turn.schedule s in
    elim done.0 [
      | panicked ↦ (crashed, done.1)
      | exited message ↦ (fatal message, done.1)
      | returned e ↦ elim e [
        | some message ↦ (fatal message, done.1)
        | none ↦ elim turn.is_interrupted [
          | true ↦ (closing, done.1)
          | false ↦ client_loop mac new_client server client turns done.1
        ]
      ]
    ]
