-- ===== src/Info.antt =====
-- internal/info/info_server.go with `ServerConfig` of api/v1/relay_config.go: what an instance says
-- of itself. The messages are those of api/info/gitstafette_info.pb.go.
use gitstafette.Common.{
  ◌≡◌, ◌↔◌, String, Bool, true, false, not, Option, none, some, List, ◌==◌, arith, if◌then◌else◌,
}
use gitstafette.Common.Separated.{join}
use gitstafette.Cache.Startup.{RedisConfig, RedisLibrary, Started, init_cache}
use gitstafette.Cache.Begun.{init_cache-IsStart}
use gitstafette.Cache.Create.{Setting, creates}
use gitstafette.Relay.Config.{RelayConfig}

pub record ServerConfig : Type 0 where
  pub name : String
  pub host : String
  pub port : String
  pub grpc_port : String
  pub repositories : List String

pub data InstanceType : Type 0 where
  relay server client hub discovery explorer : InstanceType

pub record ServerInfo : Type 0 where
  pub hostname : String
  pub ip : String
  pub port : String
  pub protocol : String
  pub repositories : Option String

pub record GetInfoResponse : Type 0 where
  pub alive : Bool
  pub version : String
  pub name : String
  pub instance_type : InstanceType
  pub server : ServerInfo
  pub relay : Option ServerInfo

pub record InfoServer : Type 0 where
  pub relay_config : RelayConfig
  pub server_config : ServerConfig
  pub kind : InstanceType

-- The variable HOSTNAME of the environment, empty if it is not set.
unfoldable pub hostname_of : String → String
hostname_of variable = if not (variable == "") then variable else "localhost"

unfoldable pub get_info : String → InfoServer → GetInfoResponse
unfolding hostname_of
get_info variable srv =
    let repos = join srv.server_config.repositories in
    record {
      alive = true;
      version = "0.0.1";
      name = srv.server_config.name;
      instance_type = srv.kind;
      server = record {
        hostname = hostname_of variable;
        ip = "";
        port = srv.server_config.port;
        protocol = "grpc";
        repositories = some repos;
      };
      relay =
          if srv.relay_config.enabled
          then some (record {
            hostname = srv.relay_config.host;
            ip = "";
            port = srv.relay_config.port;
            protocol = srv.relay_config.protocol;
            repositories = some repos;
          })
          else none;
    }

-- An instance started on a list of repositories tells that list, as it was given, and tells of a relay target exactly if the relay is enabled.
pub get_info-init_cache :
    (library : RedisLibrary) (setting : Setting) (repository_ids : String)
    (config : Option RedisConfig) (started : Started) (variable : String) (srv : InfoServer)
    → init_cache library setting repository_ids config ≡ creates started
    → srv.server_config.repositories ≡ started.repo_ids
    → ((get_info variable srv).server.repositories ≡ some repository_ids)
      × (((get_info variable srv).relay ≡ none) ↔ (srv.relay_config.enabled ≡ false))
unfolding get_info
get_info-init_cache library setting ids config started variable srv e same =
    let begun = init_cache-IsStart library setting ids config started e in
    (ground (arith, begun.0, same), ground arith)
