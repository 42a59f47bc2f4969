-- ===== src/Client/HealthCheck.antt =====
-- cmd/client/main.go: the health check over HTTP.
use gitstafette.Common.{String, ◌<>◌}

-- A server over HTTP with one path, which answers with this text.
pub record HealthCheckServer : Type 0 where
  pub address : String
  pub path : String
  pub text : String

-- What `healthCheck` writes.
abbrev pub health_check_text : String
health_check_text = "OK\n"

unfoldable pub init_health_check_server : String → HealthCheckServer
init_health_check_server port = record {
  address = ":" <> port;
  path = "/health";
  text = health_check_text;
}
