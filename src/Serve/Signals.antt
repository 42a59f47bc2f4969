-- ===== src/Serve/Signals.antt =====
-- cmd/server/main.go, `main` from the start of the goroutines on: the wait for a signal.
use gitstafette.Common.{String, Bool, true, false, ◌||◌, Option, List, [], ◌∷◌, if◌then◌else◌}
use gitstafette.Serve.Main.{Flags, Running}
use gitstafette.Serve.Shutdown.{Stopped, shut_down}

-- os.Interrupt and SIGTERM.
pub data Signal : Type 0 where
  interrupt : Signal
  terminate : Signal

-- `signal.NotifyContext(context.Background(), os.Interrupt, syscall.SIGTERM)`: the signals that end
-- the context of the relays and of the clean-up, and no longer the process.
abbrev pub ends_context : Signal → Bool
ends_context interrupt = true
ends_context terminate = true

-- `signal.Notify(quit, os.Interrupt)`
abbrev pub quits : Signal → Bool
quits interrupt = true
quits terminate = false

-- What happens while `main` waits: a signal comes, or a goroutine ends the process, by a panic as on a
-- nil provider or by `log.Fatal` as where a server cannot listen.
pub data Event : Type 0 where
  signals : Signal → Event
  goroutine_dies : Event

-- Whether the context is done where `main` still waits, or what it stops, or the end of the process.
pub data Awaited : Type 0 where
  waiting : Bool → Awaited
  stops : Stopped → Awaited
  dies : Awaited

-- The events come one after the other. `echo_error` is what the shutdown of the webhook server
-- returns.
unfoldable pub await : Flags → Running → Option String → Bool → List Event → Awaited
unfolding shut_down
await flags run echo_error done [] = waiting done
await flags run echo_error done (goroutine_dies ∷ events) = dies
await flags run echo_error done (signals signal ∷ events) =
    let rest = await flags run echo_error (done || ends_context signal) events in
    if quits signal then stops (shut_down flags run echo_error) else rest
