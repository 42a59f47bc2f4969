-- ===== src/Serve/Connections.antt =====
-- cmd/server/main.go: how the server of the health service keeps its connections.
use gitstafette.Common.{ℕ, ◌*◌, Bool, true}
use gitstafette.Server.{second}

-- `keepalive.EnforcementPolicy` and `keepalive.ServerParameters`, in nanoseconds.
pub record Keepalive : Type 0 where
  pub min_time : ℕ
  pub permit_without_stream : Bool
  pub max_connection_idle : ℕ
  pub max_connection_age : ℕ
  pub max_connection_age_grace : ℕ
  pub time : ℕ
  pub timeout : ℕ

-- `kaep` and `kasp`.
abbrev pub keepalive : Keepalive
keepalive = record {
  min_time = 3 * second;
  permit_without_stream = true;
  max_connection_idle = 15 * second;
  max_connection_age = 60 * second;
  max_connection_age_grace = 5 * second;
  time = 5 * second;
  timeout = 10 * second;
}
