-- ===== src/Serve.antt =====
-- cmd/server/main.go: the gRPC servers and the webhook server.
pub mod Main
pub mod Start
pub mod Access
pub mod Shutdown
pub mod Reports
pub mod Connections
pub mod Signals
use gitstafette.Common.{
  String, Bool, true, false, not, ◌&&◌, Option, none, some, List, [], ◌∷◌, ◌++◌, map, ◌==◌, ◌<>◌,
  if◌then◌else◌,
}
use gitstafette.Event.{Bytes}
use gitstafette.Cache.Ingest.{HttpHeader}
use gitstafette.Cache.Heap.{Heap}
use gitstafette.Cache.InMemory.{InMemoryStore}
use gitstafette.Cache.Create.{Creation, creates, ends, meets_nil_provider, create_in_memory_store}
use gitstafette.Cache.Startup.{
  RedisConfig, RedisLibrary, Backend, in_memory, redis, Started, init_cache,
}
use gitstafette.Info.{ServerConfig, InfoServer, server, relay}
use gitstafette.Relay.Config.{RelayConfig, create_relay_config}
use gitstafette.Relay.{Service, initiate_relay}
use gitstafette.Serve.Connections.{Keepalive, keepalive}
use gitstafette.Serve.Reports.{Sentry, SentryOptions, init_sentry}
use gitstafette.Telemetry.Setup.{Sdk, Outcome, returns, process_exits, setup_otel_sdk}
use gitstafette.Tls.{TlsConfig, Files, Configured, new_tls_config}
use gitstafette.Webhook.{GitstafetteContext, is_empty}

-- What a gRPC server runs before a handler: `ValidateToken`, or `unaryInterceptor`.
pub data Interceptor : Type 0 where
  validates_token : Interceptor
  demands_secret : Interceptor

pub data Registered : Type 0 where
  gitstafette_service : Registered
  info_service : InfoServer → Registered
  health_service : Registered

-- `none` as credentials is a server without TLS, and as keepalive one with the library's policy.
pub record GrpcServer : Type 0 where
  pub address : String
  pub credentials : Option TlsConfig
  pub keepalive_policy : Option Keepalive
  pub stream_interceptors : List Interceptor
  pub unary_interceptors : List Interceptor
  pub services : List Registered

unfoldable pub initialize_grpc_health_server : String → GrpcServer
initialize_grpc_health_server grpc_port = record {
  address = ":" <> grpc_port;
  credentials = none;
  keepalive_policy = some keepalive;
  stream_interceptors = [];
  unary_interceptors = demands_secret ∷ [];
  services = health_service ∷ [];
}

-- The health service comes along where there is no server of its own.
unfoldable pub initialize_grpc_server :
    String → Option TlsConfig → Option GrpcServer → ServerConfig → RelayConfig → GrpcServer
initialize_grpc_server grpc_port tls_config health_server server_config relay_config = record {
  address = ":" <> grpc_port;
  credentials = tls_config;
  keepalive_policy = none;
  stream_interceptors = validates_token ∷ [];
  unary_interceptors = [];
  services =
      (gitstafette_service
        ∷ info_service
            (record { relay_config = relay_config; server_config = server_config; kind = server })
        ∷ [])
      ++ elim health_server [ none ↦ health_service ∷ [] | some s ↦ [] ];
}

pub data Endpoint : Type 0 where
  hello_world github_post watch_list_get events_for_repository : Endpoint

pub record Route : Type 0 where
  pub verb : String
  pub path : String
  pub endpoint : Endpoint

pub record EchoServer : Type 0 where
  pub address : String
  pub webhook_hmac : String
  pub routes : List Route

unfoldable pub initialize_echo_server : String → String → EchoServer
initialize_echo_server port webhook_hmac = record {
  address = ":" <> port;
  webhook_hmac = webhook_hmac;
  routes =
      record { verb = "GET"; path = "/"; endpoint = hello_world }
      ∷ record { verb = "POST"; path = "/v1/github/"; endpoint = github_post }
      ∷ record { verb = "GET"; path = "/v1/watchlist"; endpoint = watch_list_get }
      ∷ record { verb = "GET"; path = "/v1/events/:repo"; endpoint = events_for_repository }
      ∷ [];
}

-- The context that the first middleware hands to each handler.
unfoldable pub with_context : EchoServer → HttpHeader → Bytes → GitstafetteContext
with_context e headers payload = record {
  headers = headers;
  message_payload = payload;
  webhook_hmac = e.webhook_hmac;
}
