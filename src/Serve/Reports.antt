-- ===== src/Serve/Reports.antt =====
-- cmd/server/main.go: `initSentry`.
use gitstafette.Common.{ℕ, String, Option, none, some}

-- `TracesSampleRate` is the whole number 1.0.
pub record SentryOptions : Type 0 where
  pub dsn : String
  pub traces_sample_rate : ℕ

-- Without the variable nothing is done; an error is logged.
pub data Sentry : Type 0 where
  unset : Sentry
  failed : String → Sentry
  initialized : SentryOptions → Sentry

abbrev pub initialized_or_failed : SentryOptions → Option String → Sentry
initialized_or_failed options none = initialized options
initialized_or_failed options (some e) = failed e

unfoldable pub init_sentry : (SentryOptions → Option String) → Option String → Sentry
init_sentry sentry_init none = unset
init_sentry sentry_init (some sentry_dsn) =
    let options : SentryOptions = record { dsn = sentry_dsn; traces_sample_rate = 1 } in
    initialized_or_failed options (sentry_init options)
