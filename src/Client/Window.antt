-- ===== src/Client/Window.antt =====
-- How long a stream lasts, for the client and for the server that it asks.
use gitstafette.Common.{
  ℕ, ◌+◌, ◌*◌, ◌^◌, ◌<◌, ◌≡◌, refl, pos, arith, to_uint32_bound, to_uint32_small, seconds_small,
  add_duration,
}
use gitstafette.Server.{second}
use gitstafette.Client.{GrpcServerConfig, GrpcClientConfig, events_request, stream_finish}

-- Whatever the window of the flags, the duration that the client asks for fits 32 bits.
pub request_bound :
    (server : GrpcServerConfig) (client : GrpcClientConfig)
    → (events_request server client).duration_secs < 2 ^ 32
unfolding events_request
request_bound server client = to_uint32_bound server.stream_window

-- A window of less than 2^32 seconds, not negative, which both configurations have, is asked for as
-- it is. The server's product of it with a second fits an `int64`, and the client's own loop ends as
-- long after its start as the server's does.
pub window_lem :
    (server : GrpcServerConfig) (client : GrpcClientConfig) (now n : ℕ)
    → n < 2 ^ 32
    → server.stream_window ≡ pos n
    → client.stream_window ≡ pos n
    → ((events_request server client).duration_secs ≡ n)
      × (second * (events_request server client).duration_secs < 2 ^ 63)
      × (stream_finish now client ≡ now + second * (events_request server client).duration_secs)
unfolding events_request stream_finish add_duration
window_lem server client now n small e f = (
  rw e (to_uint32_small n small),
  omega (arith, request_bound server client),
  rw (e, f, seconds_small n small, to_uint32_small n small) refl,
)
