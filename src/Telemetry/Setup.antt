-- ===== src/Telemetry/Setup.antt =====
-- `SetupOTelSDK`, `newTraceProvider` and `newMeterProvider`: the set-up of the telemetry, whose
-- error paths must undo what was set up before.
use gitstafette.Common.{
  ◌≡◌, ◌≢◌, ◌↔◌, ◌⊎◌, Option-cases, inl, inr, refl, String, Bool, false, not, Option, none, some,
  List, [], ◌∷◌, ◌++◌, ◌<>◌, arith, if◌then◌else◌,
}

-- What the calls of the SDK return: an error, or nil. The providers' own shutdown may fail too.
pub data Provider : Type 0 where
  tracer_provider meter_provider : Provider

pub record Sdk : Type 0 where
  pub new_resource : Option String
  pub new_client : Option String
  pub new_trace_exporter : Option String
  pub new_metric_exporter : Option String
  pub shutdown : Provider → Option String

-- The functions that wait to be called, those that were called, and the error, joined of parts.
pub record State : Type 0 where
  pub shutdown_funcs : List Provider
  pub called : List Provider
  pub error : List String

abbrev pub joined : Option String → List String → List String
joined none errors = errors
joined (some e) errors = e ∷ errors

unfoldable pub errors_of : (Provider → Option String) → List Provider → List String
errors_of fn [] = []
errors_of fn (p ∷ ps) = joined (fn p) (errors_of fn ps)

-- The returned `shutdown`: each function is called once, and the list is emptied.
unfoldable pub shutdown_all : Sdk → State → State
unfolding errors_of
shutdown_all sdk st = record {
  shutdown_funcs = [];
  called = st.called ++ st.shutdown_funcs;
  error = errors_of sdk.shutdown st.shutdown_funcs;
}

-- `err = errors.Join(inErr, shutdown(ctx))`
unfoldable pub handle_err : Sdk → String → State → State
unfolding shutdown_all
handle_err sdk in_err st =
    let down = shutdown_all sdk st in record down { error = in_err ∷ down.error }

unfoldable pub register : Provider → State → State
register p st = record st { shutdown_funcs = st.shutdown_funcs ++ p ∷ [] }

-- A failure counts only where the telemetry is enabled; otherwise it is only logged.
abbrev pub if_enabled : Bool → String → Option String → Option String
if_enabled enabled message none = none
if_enabled enabled message (some e) = if enabled then some (message <> e) else none

abbrev pub first_error : Option String → Option String → Option String
first_error none second = second
first_error (some e) second = some e

unfoldable pub new_trace_provider : Sdk → Bool → Option String
new_trace_provider sdk enabled =
    first_error
      (if_enabled enabled "failed to create gRPC connection to collector: " sdk.new_client)
      (if_enabled enabled "failed to create trace exporter: " sdk.new_trace_exporter)

-- The provider, nil where the telemetry is disabled, or the exit of the process.
pub data Made : Type 0 where
  provider : Made
  nil_provider : Made
  exits : Made

unfoldable pub new_meter_provider : Sdk → Bool → Made
new_meter_provider sdk enabled =
    if not enabled
    then nil_provider
    else elim sdk.new_metric_exporter [ none ↦ provider | some e ↦ exits ]

-- The set-up returns, with a meter provider or nil, or the process exits.
pub data Outcome : Type 0 where
  returns : State → Made → Outcome
  process_exits : Outcome

abbrev pub with_meter : State → Made → Outcome
with_meter st exits = process_exits
with_meter st provider = returns (register meter_provider st) provider
with_meter st nil_provider = returns (register meter_provider st) nil_provider

abbrev pub with_tracer : Sdk → Bool → State → Option String → Outcome
with_tracer sdk enabled st (some e) = returns (handle_err sdk e st) nil_provider
with_tracer sdk enabled st none =
    with_meter (register tracer_provider st) (new_meter_provider sdk enabled)

abbrev pub with_resource : Sdk → Bool → State → Option String → Outcome
with_resource sdk enabled st (some e) = returns (handle_err sdk e st) nil_provider
with_resource sdk enabled st none = with_tracer sdk enabled st (new_trace_provider sdk enabled)

abbrev pub initial : State
initial = record { shutdown_funcs = []; called = []; error = [] }

unfoldable pub setup_otel_sdk : Sdk → Bool → Outcome
unfolding handle_err register new_trace_provider new_meter_provider
setup_otel_sdk sdk enabled = with_resource sdk enabled initial sdk.new_resource

abbrev pub Leaves : State → Made → Type 0
Leaves st made =
    ((st.error ≡ [])
      × (st.shutdown_funcs ≡ tracer_provider ∷ meter_provider ∷ [])
      × (st.called ≡ []))
    ⊎ ((st.error ≢ []) × (st.shutdown_funcs ≡ []) × (made ≡ nil_provider))

-- Where the set-up returns, either there is no error, both providers wait for their shutdown and
-- none was called, or there is an error, nothing waits, and there is no meter provider.
pub setup_lem :
    (sdk : Sdk) (enabled : Bool) (st : State) (made : Made)
    → setup_otel_sdk sdk enabled ≡ returns st made
    → Leaves st made
unfolding setup_otel_sdk
setup_lem sdk enabled st made h = ground arith

-- With the telemetry disabled the set-up returns with a nil meter provider, also where it returns
-- no error; only the resource can fail.
pub setup_disabled :
    (sdk : Sdk)
    → (st : State) × (setup_otel_sdk sdk false ≡ returns st nil_provider)
      × ((st.error ≡ []) ↔ (sdk.new_resource ≡ none))
unfolding setup_otel_sdk
setup_disabled sdk = elim (Option-cases sdk.new_resource) [
  | inl fine ↦ (
    register meter_provider (register tracer_provider initial),
    ground (arith, fine),
    ground (arith, fine),
  )
  | inr (e, broken) ↦
      (handle_err sdk e initial, rw (broken, setup_otel_sdk) refl, ground (arith, broken))
]
