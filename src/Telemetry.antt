-- ===== src/Telemetry.antt =====
-- internal/otel_util: the configuration of the telemetry, its set-up, and the attributes of spans.
pub mod Method
pub mod Setup
pub mod Spans
use gitstafette.Common.{
  ℕ, ◌≡◌, ◌↔◌, ◌⊎◌, refl, String, Bool, true, false, not, ◌&&◌, Option, none, some, List, [], ◌∷◌,
  ◌==◌, ◌<>◌, eq_iff, arith, if◌then◌else◌,
}

-- `os.Getenv`, empty for a variable that is not set.
abbrev pub Environment : Type 0
Environment = String → String

unfoldable pub is_otel_enabled : Environment → Bool
is_otel_enabled getenv =
    if not (getenv "OTEL_ENABLED" == "") && getenv "OTEL_ENABLED" == "true" then true else false

-- The sampling rate is a `float64`, of which only the parsing and the default matter.
pub record Float : Type 1 where
  pub Number : Type 0
  pub one : Number
  pub parse_float : String → Option Number

module _ (float : Float) where
  pub record OtelConfig : Type 0 where
    pub service_name : String
    pub host_name : String
    pub protocol : String
    pub port : String
    pub grpc_exporter : Bool
    pub enabled : Bool
    pub sampling_rate : float.Number

  -- `if v := os.Getenv(k); v != "" { x = v }`
  abbrev pub or_default : String → String → String
  or_default value default = if not (value == "") then value else default

  abbrev rate_or_one : Option float.Number → float.Number
  rate_or_one none = float.one
  rate_or_one (some rate) = rate

  unfoldable pub new_otel_config : Environment → OtelConfig
  unfolding is_otel_enabled
  new_otel_config getenv = record {
    service_name = or_default (getenv "OTEL_SERVICE_NAME") "gitstafette";
    host_name = or_default (getenv "OTEL_HOSTNAME") "localhost";
    protocol = or_default (getenv "OTEL_PROTOCOL") "http";
    port = or_default (getenv "OTEL_PORT") "4317";
    grpc_exporter = true;
    enabled = is_otel_enabled getenv;
    sampling_rate =
        if not (getenv "OTEL_TRACE_SAMPLING_RATE" == "")
        then rate_or_one (float.parse_float (getenv "OTEL_TRACE_SAMPLING_RATE"))
        else float.one;
  }

  unfoldable pub get_otel_endpoint : OtelConfig → String
  get_otel_endpoint o = if not o.enabled then "" else o.host_name <> ":" <> o.port

  -- The endpoint is the host and the port of the environment, with their defaults, exactly if
  -- OTEL_ENABLED is `true`, and empty otherwise; the protocol plays no part in it.
  pub get_otel_endpoint-new :
      (getenv : Environment)
      → get_otel_endpoint (new_otel_config getenv) ≡ (
          if getenv "OTEL_ENABLED" == "true"
          then or_default (getenv "OTEL_HOSTNAME") "localhost"
            <> ":"
            <> or_default (getenv "OTEL_PORT") "4317"
          else "")
  unfolding get_otel_endpoint new_otel_config
  get_otel_endpoint-new getenv = ground (
    arith,
    eq_iff (getenv "OTEL_ENABLED") "",
    eq_iff (getenv "OTEL_ENABLED") "true",
    eq_iff "true" "",
  )
