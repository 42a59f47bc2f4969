-- ===== src/Client/Options.antt =====
-- The options of the client's connection.
use gitstafette.Common.{
  String, List, ◌≡◌, ◌↔◌, refl, Bool, true, false, Option, none, some, [], ◌∷◌, ◌==◌, arith, keep,
  not, ◌&&◌, if◌then◌else◌,
}
use gitstafette.Tls.{TlsConfig}
use gitstafette.Client.{
  NewClient, GrpcServerConfig, DialOption, per_rpc_token, insecure_credentials, tls_credentials,
  system_credentials, create_grpc_options, tls_or_system,
}

abbrev pub is_transport : DialOption → Bool
is_transport insecure_credentials = true
is_transport (tls_credentials tls) = true
is_transport system_credentials = true
is_transport _ = false

abbrev pub sends_token : DialOption → Bool
sends_token (per_rpc_token t) = true
sends_token _ = false

transport-tls_or_system : (tls : Option TlsConfig) → is_transport (tls_or_system tls) ≡ true
transport-tls_or_system none = refl
transport-tls_or_system (some tls) = ground arith

secure-tls_or_system : (tls : Option TlsConfig) → (tls_or_system tls ≡ insecure_credentials) → ⊥
secure-tls_or_system none = cc
secure-tls_or_system (some tls) = ground arith

no_token-tls_or_system : (tls : Option TlsConfig) → sends_token (tls_or_system tls) ≡ false
no_token-tls_or_system none = refl
no_token-tls_or_system (some tls) = ground arith

abbrev pub has_roots : Option TlsConfig → Bool
has_roots none = false
has_roots (some tls) = tls.has_root_cas

system-tls_or_system :
    (tls : Option TlsConfig) → (tls_or_system tls ≡ system_credentials) ↔ (has_roots tls ≡ false)
system-tls_or_system none = ground arith
system-tls_or_system (some tls) = ground arith

-- The options hold exactly one set of transport credentials, which is the insecure one exactly if
-- the configuration says so, and else the system's exactly if the configuration has no authorities.
-- A token is sent exactly if one is set.
pub create_grpc_options_lem :
    (config : GrpcServerConfig)
    → (keep sends_token (create_grpc_options config)
        ≡ (if config.oauth_token == "" then [] else per_rpc_token config.oauth_token ∷ []))
      × ((d : DialOption) × (keep is_transport (create_grpc_options config) ≡ d ∷ [])
          × ((d ≡ insecure_credentials) ↔ (config.insecure ≡ true))
          × ((d ≡ system_credentials)
              ↔ ((not config.insecure && not (has_roots config.tls_config)) ≡ true)))
unfolding create_grpc_options
create_grpc_options_lem config = (
  ground (arith, no_token-tls_or_system config.tls_config),
  (
    if config.insecure then insecure_credentials else tls_or_system config.tls_config,
    ground (arith, transport-tls_or_system config.tls_config),
    ground (arith, secure-tls_or_system config.tls_config),
    ground (arith, system-tls_or_system config.tls_config),
  ),
)

-- google.golang.org/grpc: credentials for each call that require transport security, as a token does,
-- are refused together with insecure transport credentials.
pub record RefusesTokens (new_client : NewClient) : Type 0 where
  pub refuses :
      (address token : String) (options : List DialOption)
      → keep sends_token options ≡ per_rpc_token token ∷ []
      → keep is_transport options ≡ insecure_credentials ∷ []
      → (e : String) × (new_client address options ≡ some e)

pub insecure_token_refused :
    (new_client : NewClient)
    → RefusesTokens new_client
    → (config : GrpcServerConfig) (address : String) → config.insecure ≡ true
    → (config.oauth_token == "") ≡ false
    → (e : String) × (new_client address (create_grpc_options config) ≡ some e)
unfolding create_grpc_options
insecure_token_refused new_client law config address insecure token =
    law.refuses address config.oauth_token (create_grpc_options config)
      (ground (arith, insecure, token)) (ground (arith, insecure, token))
