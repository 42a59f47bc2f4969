-- ===== src/Client.antt =====
-- cmd/client/main.go with `GRPCServerConfig` and `GRPCClientConfig` of api/v1/grpc_config.go: the
-- client reads the stream of the server into its own cache.
pub mod Ingest
pub mod Round
pub mod Window
pub mod Main
pub mod HealthCheck
pub mod Kept
pub mod Options
pub mod Start
use gitstafette.Common.{
  ℤ, to_uint32, seconds, add_duration, ℕ, ◌+◌, ◌*◌, ◌%◌, ◌^◌, String, Bool, Option, none, some,
  List, [], ◌∷◌, ◌++◌, ◌==◌, not, ltb, ◌<>◌, if◌then◌else◌,
}
use gitstafette.Event.{WebhookEvent}
use gitstafette.Cache.InMemory.{InMemoryStore}
use gitstafette.Cache.Ingest.{GoError, event}
use gitstafette.Server.{second, WebhookEventsRequest}
use gitstafette.Webhook.Signature.{Mac, validate_event}
use gitstafette.Tls.{TlsConfig}

pub record GrpcServerConfig : Type 0 where
  pub host : String
  pub port : String
  pub stream_window : ℤ
  pub insecure : Bool
  pub oauth_token : String
  pub tls_config : Option TlsConfig

unfoldable pub create_server_config :
    String → String → ℤ → Bool → String → Option TlsConfig → GrpcServerConfig
create_server_config host port stream_window insecure oauth_token tls_config = record {
  host = host;
  port = port;
  stream_window = stream_window;
  insecure = insecure;
  oauth_token = oauth_token;
  tls_config = tls_config;
}

pub record GrpcClientConfig : Type 0 where
  pub client_id : String
  pub repository_id : String
  pub stream_window : ℤ
  pub webhook_hmac : String

unfoldable pub create_client_config : String → String → ℤ → String → GrpcClientConfig
create_client_config client_id repository_id stream_window webhook_hmac = record {
  client_id = client_id;
  repository_id = repository_id;
  stream_window = stream_window;
  webhook_hmac = webhook_hmac;
}

-- `createGrpcOptions`: the options of the connection. The system's certificates and a
-- configuration's own are two credentials.
pub data DialOption : Type 0 where
  authority : String → DialOption
  per_rpc_token : String → DialOption
  insecure_credentials : DialOption
  tls_credentials : TlsConfig → DialOption
  system_credentials : DialOption

abbrev pub tls_or_system : Option TlsConfig → DialOption
tls_or_system none = system_credentials
tls_or_system (some tls) = if tls.has_root_cas then tls_credentials tls else system_credentials

unfoldable pub create_grpc_options : GrpcServerConfig → List DialOption
create_grpc_options config =
    authority config.host
    ∷ ((if not (config.oauth_token == "") then per_rpc_token config.oauth_token ∷ [] else [])
        ++ (if config.insecure then insecure_credentials else tls_or_system config.tls_config) ∷ [])

-- The request for a stream.
unfoldable pub events_request : GrpcServerConfig → GrpcClientConfig → WebhookEventsRequest
events_request server client = record {
  client_id = client.client_id;
  repository_id = client.repository_id;
  last_received_event_id = 0;
  duration_secs = to_uint32 server.stream_window;
}

-- How the handling of a stream ends: with an error or nil, by a panic, or with the process, by
-- `log.Fatal`.
pub data Ended : Type 0 where
  returned : GoError → Ended
  panicked : Ended
  exited : String → Ended

-- The handling goes on with the store, or has ended with it.
pub data Handling : Type 0 where
  going : InMemoryStore → Handling
  ended : Ended → InMemoryStore → Handling

abbrev pub cached : InMemoryStore → Option (InMemoryStore × GoError) → Handling
cached s none = ended panicked s
cached s (some (s', none)) = going s'
cached s (some (s', some e)) = ended (returned (some e)) s'

-- One event of a response: its digest is looked at, and whatever comes of that it is cached.
abbrev pub judged : ℕ → String → WebhookEvent → InMemoryStore → Option (Bool × GoError) → Handling
judged now repository_id e s none = ended panicked s
judged now repository_id e s (some (event_is_valid, logged)) =
    cached s (event now s repository_id e)

unfoldable pub receive_event : Mac → GrpcClientConfig → ℕ → WebhookEvent → InMemoryStore → Handling
receive_event mac client now e s =
    judged now client.repository_id e s (validate_event mac client.webhook_hmac e)

-- `now` is the clock's reading for all events of a response.
unfoldable pub receive_events :
    Mac → GrpcClientConfig → ℕ → List WebhookEvent → InMemoryStore → Handling
unfolding receive_event
receive_events mac client now [] s = going s
receive_events mac client now (e ∷ es) s = elim (receive_event mac client now e s) [
  | going s' ↦ receive_events mac client now es s'
  | ended how s' ↦ ended how s'
]

-- What wakes the `select`: the interval, with what `Recv` gives, or the end of a context.
pub data Wake : Type 0 where
  response : List WebhookEvent → Wake
  end_of_stream : Wake
  receive_error : String → Wake
  stream_done : Wake
  main_done : Wake

-- The end of the handling: the error of the stream's context, if it has one.
abbrev pub finished : GoError → InMemoryStore → Ended × InMemoryStore
finished context_error s = (returned context_error, s)

-- The loop over the rounds that the schedule gives, each with the clock's reading. It ends with the
-- schedule at the latest, where the clock has reached the end of the window.
unfoldable pub stream_loop :
    Mac → GrpcClientConfig → ℕ → GoError → List (ℕ × Wake) → InMemoryStore → Ended × InMemoryStore
unfolding receive_events
stream_loop mac client finish context_error [] s = finished context_error s
stream_loop mac client finish context_error ((now, end_of_stream) ∷ rest) s =
    finished context_error s
stream_loop mac client finish context_error ((now, stream_done) ∷ rest) s = finished context_error s
stream_loop mac client finish context_error ((now, main_done) ∷ rest) s = finished context_error s
stream_loop mac client finish context_error ((now, receive_error e) ∷ rest) s =
    if ltb now finish then (returned (some e), s) else finished context_error s
stream_loop mac client finish context_error ((now, response events) ∷ rest) s =
    if ltb now finish
    then elim (receive_events mac client now events s) [
      | going s' ↦ stream_loop mac client finish context_error rest s'
      | ended how s' ↦ (how, s')
    ]
    else finished context_error s

-- The end of the loop.
unfoldable pub stream_finish : ℕ → GrpcClientConfig → ℕ
stream_finish now client = add_duration now (seconds client.stream_window)

-- google.golang.org/grpc, for one stream: the error of `grpc.NewClient` with an address and options,
-- and what the stream has as errors: of the call itself, of its context behind the loop, and of the
-- end of the connection.
abbrev pub NewClient : Type 0
NewClient = String → List DialOption → GoError

pub record StreamErrors : Type 0 where
  pub fetch_error : GoError
  pub context_error : GoError
  pub close_error : GoError

-- The deferred `conn.Close`, whose error ends the process, also behind a panic.
abbrev pub closed : GoError → Ended × InMemoryStore → Ended × InMemoryStore
closed none done = done
closed (some e) (how, s) = (exited e, s)

-- From the call of `FetchWebhookEvents` on.
abbrev pub with_stream :
    Mac
    → GrpcClientConfig
    → ℕ
    → StreamErrors
    → List (ℕ × Wake)
    → InMemoryStore
    → GoError
    → Ended × InMemoryStore
with_stream mac client now errors schedule s (some e) = (exited e, s)
with_stream mac client now errors schedule s none =
    closed errors.close_error
      (stream_loop mac client (stream_finish now client) errors.context_error schedule s)

abbrev pub with_connection :
    Mac
    → GrpcClientConfig
    → ℕ
    → StreamErrors
    → List (ℕ × Wake)
    → InMemoryStore
    → GoError
    → Ended × InMemoryStore
with_connection mac client now errors schedule s (some e) = (exited e, s)
with_connection mac client now errors schedule s none =
    with_stream mac client now errors schedule s errors.fetch_error

unfoldable pub handle_webhook_event_stream :
    Mac
    → NewClient
    → GrpcServerConfig
    → GrpcClientConfig
    → ℕ
    → StreamErrors
    → List (ℕ × Wake)
    → InMemoryStore
    → Ended × InMemoryStore
unfolding stream_loop stream_finish create_grpc_options
handle_webhook_event_stream mac new_client server client now errors schedule s =
    with_connection mac client now errors schedule s
      (new_client (server.host <> ":" <> server.port) (create_grpc_options server))
