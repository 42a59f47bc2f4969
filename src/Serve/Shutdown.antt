-- ===== src/Serve/Shutdown.antt =====
-- cmd/server/main.go, the end of `main`: what is stopped after an interrupt.
use gitstafette.Common.{String, not, Option, none, some, List, [], ◌∷◌, ◌==◌, if◌then◌else◌}
use gitstafette.Serve.{GrpcServer}
use gitstafette.Serve.Main.{Flags, Running}

-- The gRPC servers that were stopped, in this order; a call of `GracefulStop` on nil; or the exit of
-- the process where the webhook server does not shut down.
pub data Stopped : Type 0 where
  returns : List GrpcServer → Stopped
  panics : Stopped
  fatal : String → Stopped

-- `grpcHealthServer.GracefulStop()`
abbrev pub stop_health : GrpcServer → Option GrpcServer → Stopped
stop_health grpc_server none = panics
stop_health grpc_server (some health_server) = returns (grpc_server ∷ health_server ∷ [])

-- `echo_error` is what `echoServer.Shutdown` returns.
unfoldable pub shut_down : Flags → Running → Option String → Stopped
shut_down flags run (some echo_error) = fatal echo_error
shut_down flags run none =
    if not (flags.grpc_health_port == flags.grpc_port)
    then stop_health run.grpc_server run.grpc_health_server
    else returns (run.grpc_server ∷ [])
