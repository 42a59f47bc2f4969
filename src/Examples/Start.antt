-- ===== src/Examples/Start.antt =====
-- Tests of the start of the client.
use gitstafette.Cache.Startup.{initialize_store}
use gitstafette.Telemetry.Setup.{setup_otel_sdk}
use gitstafette.Client.{NewClient}
use gitstafette.Client.Options.{RefusesTokens}
use gitstafette.Client.Main.{Turn, fatal, client_loop}
use gitstafette.Cache.InMemory.{InMemoryStore}
use gitstafette.Webhook.Signature.{Mac}
use gitstafette.Common.{none, List, [], ◌∷◌, ◌⊎◌}
use gitstafette.Common.{
  ◌≡◌, ◌↔◌, ◌&&◌, ◌==◌, not, keep, pos, refl, String, true, false, some, [], ◌∷◌, if◌then◌else◌,
}
use gitstafette.Common.Separated.{contains_comma, split}
use gitstafette.Cache.InMemory.{new_in_memory_store}
use gitstafette.Cache.Create.{create_in_memory_store}
use gitstafette.Cache.Startup.{Started, in_memory, init_cache}
use gitstafette.Relay.Config.{create_relay_config}
use gitstafette.Serve.Start.{relays_repository}
use gitstafette.Tls.{TlsConfig, empty_tls_config, is_set, new_tls_config}
use gitstafette.Cache.InMemory.Invariant.{IsWellFormed}
use gitstafette.Cache.Spec.{view}
use gitstafette.Relay.{initiate_relay}
use gitstafette.Client.{
  DialOption, per_rpc_token, insecure_credentials, system_credentials, create_grpc_options,
  create_server_config, create_client_config,
}
use gitstafette.Client.HealthCheck.{init_health_check_server}
use gitstafette.Client.Main.{
  ClientFlags, ClientRunning, streams, client_main, run_info_server, client_server_config,
  is_insecure, token_or_empty,
}
use gitstafette.Client.Options.{is_transport, sends_token}
use gitstafette.Client.Start.{client_main_lem}
use gitstafette.Examples.{repo, empty_heap}
use gitstafette.Examples.Serve.{world, relay_config}

-- A certificate and no authority file.
abbrev client_flags : ClientFlags
client_flags = record {
  name = "gsf-client";
  port = "50051";
  server = "localhost";
  insecure = true;
  secure = false;
  repo = repo;
  info_port = "50052";
  relay_enabled = true;
  relay_host = "127.0.0.1";
  relay_path = "/";
  relay_health_check_path = "/";
  relay_port = "8080";
  relay_protocol = "http";
  relay_insecure = false;
  ca_file_location = "";
  cert_file_location = "client.pem";
  cert_key_file_location = "client-key.pem";
  client_id = "me";
  stream_window = pos 180;
  health_check_port = "8081";
  webhook_hmac = "";
}

abbrev client_tls : TlsConfig
client_tls = record empty_tls_config { certificates = some ("client.pem", "client-key.pem") }

abbrev client_begun : Started
client_begun = record {
  repo_ids = repo ∷ [];
  repositories = record { repositories = repo ∷ [] };
  store = in_memory (new_in_memory_store empty_heap true true);
}

abbrev client_running : ClientRunning
client_running = record {
  info_server = run_info_server (client_server_config client_flags) relay_config "50052";
  relays = initiate_relay relay_config repo;
  cache = client_begun;
  health_check_server = init_health_check_server "8081";
  grpc_server_config =
      create_server_config "localhost" "50051" (pos 180) true "abc" (some client_tls);
  grpc_client_config = create_client_config "me" repo (pos 180) "";
}

client_starts : client_main world client_flags (some "abc") ≡ streams client_running
unfolding client_main initialize_store create_in_memory_store setup_otel_sdk new_tls_config
    init_cache contains_comma split create_relay_config create_server_config create_client_config
    run_info_server
client_starts = refl

-- A library that refuses every connection without TLS that has a token.
abbrev strict : NewClient
strict address options = elim (keep sends_token options) [
  | [] ↦ none
  | t ∷ ts ↦ some "the credentials require transport level security"
]

strict-RefusesTokens : RefusesTokens strict
strict-RefusesTokens = record {
  refuses = λ address token options has_token insecure.
      ("the credentials require transport level security", rw (has_token, strict) refl);
}

client_main_lem_example :
    ((memory : InMemoryStore) × (client_running.cache.store ≡ in_memory memory)
      × IsWellFormed memory
      × ((q : String) → view memory q ≡ []))
    × (relays_repository repo client_running.relays
        ≡ (client_flags.relay_enabled && client_flags.repo == repo))
    × (keep sends_token (create_grpc_options client_running.grpc_server_config) ≡ (
        if token_or_empty (some "abc") == ""
        then []
        else per_rpc_token (token_or_empty (some "abc")) ∷ []))
    × ((d : DialOption) × (keep is_transport (create_grpc_options client_running.grpc_server_config)
          ≡ d ∷ [])
        × ((d ≡ insecure_credentials) ↔ (is_insecure client_flags ≡ true))
        × ((d ≡ system_credentials) ↔ (
            (not (is_insecure client_flags) && not (is_set client_flags.ca_file_location)) ≡ true)))
    × (((is_insecure client_flags && not (token_or_empty (some "abc") == "")) ≡ false)
        ⊎ ((e : String) × ((mac : Mac) (turn : Turn) (turns : List Turn) (s : InMemoryStore)
              → client_loop mac strict client_running.grpc_server_config
                  client_running.grpc_client_config
                  (turn ∷ turns)
                  s
                ≡ (fatal e, s))))
client_main_lem_example =
    client_main_lem world client_flags (some "abc") client_running client_starts strict
      strict-RefusesTokens repo
