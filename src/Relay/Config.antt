-- ===== src/Relay/Config.antt =====
-- api/v1/relay_config.go
use gitstafette.Common.{String, Bool, Option, none, some, ◌<>◌}

-- The endpoints are URLs, kept as the texts that `url.Parse` of Go's library gives back.
pub record RelayConfig : Type 0 where
  pub enabled : Bool
  pub host : String
  pub path : String
  pub port : String
  pub protocol : String
  pub endpoint : String
  pub health_endpoint : String
  pub insecure : Bool

-- `fmt.Sprintf("%s://%s:%s%s", …)`
unfoldable pub endpoint_text : String → String → String → String → String
endpoint_text protocol host port path = protocol <> "://" <> host <> ":" <> port <> path

abbrev with_endpoints : RelayConfig → Option String → Option String → Option RelayConfig
with_endpoints config (some endpoint) (some health) =
    some (record config { endpoint = endpoint; health_endpoint = health })
with_endpoints config _ _ = none

-- `none` is the exit of the process on a malformed URL.
unfoldable pub create_relay_config :
    (String → Option String)
    → Bool
    → String
    → String
    → String
    → String
    → String
    → Bool
    → Option RelayConfig
unfolding endpoint_text
create_relay_config parse enabled host path health_check_path port protocol insecure =
    with_endpoints
      (record {
        enabled = enabled;
        host = host;
        path = path;
        port = port;
        protocol = protocol;
        endpoint = "";
        health_endpoint = "";
        insecure = insecure;
      })
      (parse (endpoint_text protocol host port path))
      (parse (endpoint_text protocol host port health_check_path))
