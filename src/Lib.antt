-- ===== src/Lib.antt =====
-- Gitstafette: webhooks of GitHub are cached by a server and handed on to clients, and by a client to
-- a target in its own network.
--
-- A request of GitHub comes to the webhook endpoint (internal/api/v1/github.go), which tests its
-- digest and its repository and puts an event into the cache (internal/cache). The gRPC server
-- (internal/server/gsf_server.go) streams the events of a repository that are not relayed yet, and
-- marks them. The client (cmd/client/main.go) reads that stream into a cache of its own, whose relay
-- (internal/relay/relay.go) sends each event to the target by HTTP or gRPC, while a clean-up removes
-- relayed events.
--
-- Files:
--   Common     lists, texts, comma-separated texts, prefixes, and Go's `int`
--   Event      api/v1/webhook_event.go, with the messages of api/v1/gitstafette.pb.go
--   Cache      internal/cache: Heap (the shared event objects), InMemory (inmemory.go), Ingest (`Event`
--              and `InternalEvent` of event_cache.go), Startup (`InitCache`) and Begun
--              (what it has started), Watcher (repositories.go), Create (`NewInMemoryStore` with its
--              telemetry), Redis (redis.go); Spec and Refinement say what the store promises without
--              addresses
--   Server     internal/server/gsf_server.go; Status has the two calls that tell of fixed statuses
--   Webhook    internal/api/v1: github.go, events.go, watch_list.go; Signature has the digests,
--              Panics its panics, Delivered and Transparent follow an event to the client and to its relay's
--              target
--   Relay      internal/relay/relay.go: the pass of the relay, Cleanup, Health, and Run with the loops
--              of the goroutines; Config has api/v1/relay_config.go
--   Info       internal/info/info_server.go
--   Auth       internal/grpc, and the interceptor of cmd/server/main.go
--   Telemetry  internal/otel_util: otel_util.go, with Spans for its spans, and Method and Setup for
--              otel.go
--   Tls        internal/config/tls_config.go
--   Client     cmd/client/main.go and api/v1/grpc_config.go; Main has `main` and its loop, Start what
--              it starts, HealthCheck the endpoint for probes, Window how long a stream lasts, Kept what
--              the loop keeps
--   Serve      cmd/server/main.go: the servers; Main has what the flags start, Signals the wait
--              for a signal, Shutdown the end of `main`, Reports the start of Sentry, Connections the
--              keepalive policies, Access what a call meets in front of a handler
--   System     the goroutines of a server, interleaved on one in-memory store; Ledger says what they do
--              to the events, with no addresses and no goroutines
--   Contents   the calls of a store in any order: Specification and Run without addresses, Forgotten
--              with stores up to what they hold, as a quotient
--   Network    a server with a client that reads one of its streams after another
--   Examples   tests at concrete inputs
--
-- State. A `*WebhookEventInternal` is an address in a heap, since the server marks an event through
-- one slice and the clean-up reads it through another. A Go map is an association list. A function
-- has the source's name in snake case; it takes the store and returns the new one. Global variables
-- (`cache.Store`, `cache.Repositories`) are arguments.
--
-- Time is in nanoseconds since Go's zero time, so that an unset time is 0. `time.Now()` is an argument,
-- one reading for a call or a tick. The loops around a `select` take a schedule: for each round the
-- reading of the clock, what wakes the `select`, and what other goroutines do to the store meanwhile.
-- They recur on the schedule, so no fuel is needed; a stream whose schedule ends still waits.
--
-- Errors. An `error` is an `Option` of its text. A panic, or an exit of the process by `log.Fatal`, is
-- `none` or a constructor of its own.
--
-- Interleaving. System has a step for each operation on the store and for each part of a round between
-- two of them: a stream retrieves, sends and marks in three steps, a relay and the clean-up take a step
-- for each event of the slice that they read. Beside the state of the program it records what was taken
-- and what was sent on, which no step of the program reads. Network adds a connection, with the
-- responses on it that the client has not read, and the client's cache; where the client turns from a
-- stream, what is on the way is recorded as abandoned.
--
-- Parameters, for code of other parties: `Mac` (HMAC-SHA256), `Wire` (protobuf), `RedisLibrary`,
-- `RedisClient` and `Json` (go-redis, strconv, encoding/json), `Files` (the file system and x509), `Net`
-- (net and strconv), `Float` (strconv), `Sdk` and `Tracing` (OpenTelemetry), `GrpcLibrary`
-- and `NewClient` (google.golang.org/grpc), url.Parse, the environment, and what targets answer.
--
-- Not modelled: logging and reports to Sentry; the spans and counters in the handlers, which only
-- note what happens; the middleware of echo for logs and Sentry; EventsServerStreamInterceptor and
-- WrappedStream, which no server uses and which only trace and log; data races, as the mutex covers
-- `Store` and `Remove` only and each is one step here; several Redis servers or clients at once;
-- deployment files.
pub mod Common
pub mod Event
pub mod Cache
pub mod Server
pub mod Webhook
pub mod Relay
pub mod Info
pub mod Auth
pub mod Telemetry
pub mod Tls
pub mod Client
pub mod Serve
pub mod System
pub mod Contents
pub mod Network
pub mod Examples
