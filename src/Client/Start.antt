-- ===== src/Client/Start.antt =====
-- What a client that was started does.
use gitstafette.Common.{
  ℕ, ◌≡◌, ◌∙◌, ap, sym, refl, ◌⊎◌, inl, inr, Bool-cases, ◌<>◌, List, some, ◌↔◌, String, true, false,
  not, ◌&&◌, Option, none, [], ◌∷◌, ◌==◌, arith, keep, if◌then◌else◌,
}
use gitstafette.Cache.InMemory.Invariant.{IsWellFormed}
use gitstafette.Cache.Create.{creates, create_in_memory_store_lem}
use gitstafette.Cache.InMemory.{InMemoryStore}
use gitstafette.Cache.Startup.{Started, in_memory, init_cache}
use gitstafette.Cache.Begun.{init_cache-memory}
use gitstafette.Webhook.Signature.{Mac}
use gitstafette.Cache.Spec.{view}
use gitstafette.Relay.Config.{create_relay_config}
use gitstafette.Relay.{initiate_relay}
use gitstafette.Tls.{Files, TlsConfig, is_set, new_tls_config}
use gitstafette.Serve.Main.{World}
use gitstafette.Serve.Start.{relays_repository}
use gitstafette.Client.{
  DialOption, per_rpc_token, insecure_credentials, system_credentials, create_grpc_options,
  create_server_config, NewClient, StreamErrors, Wake, exited, GrpcServerConfig, GrpcClientConfig,
  handle_webhook_event_stream,
}
use gitstafette.Client.Main.{
  ClientFlags, ClientRunning, streams, client_main, client_configured, is_insecure, token_or_empty,
  Turn, fatal, client_loop,
}
use gitstafette.Client.Options.{
  is_transport, sends_token, has_roots, create_grpc_options_lem, RefusesTokens,
  insecure_token_refused,
}

-- A client's configuration has authorities exactly if a file is named.
roots-new_tls_config :
    (files : Files) (ca_file certificate_file key_file : String) (tls : Option TlsConfig)
    → new_tls_config files ca_file certificate_file key_file false ≡ some (tls, none)
    → has_roots tls ≡ is_set ca_file
unfolding new_tls_config
roots-new_tls_config files ca_file certificate_file key_file tls h = ground (arith, h)

refused_stream :
    (mac : Mac) (new_client : NewClient) (server : GrpcServerConfig) (client : GrpcClientConfig)
    (now : ℕ) (errors : StreamErrors) (schedule : List (ℕ × Wake)) (s : InMemoryStore) (e : String)
    → new_client (server.host <> ":" <> server.port) (create_grpc_options server) ≡ some e
    → handle_webhook_event_stream mac new_client server client now errors schedule s ≡ (exited e, s)
unfolding handle_webhook_event_stream
refused_stream mac new_client server client now errors schedule s e h = rw h refl

-- Where the library refuses the options of a connection, the first turn ends the process.
refused_turn :
    (mac : Mac) (new_client : NewClient) (server : GrpcServerConfig) (client : GrpcClientConfig)
    (turn : Turn) (turns : List Turn) (s : InMemoryStore) (e : String)
    → new_client (server.host <> ":" <> server.port) (create_grpc_options server) ≡ some e
    → client_loop mac new_client server client (turn ∷ turns) s ≡ (fatal e, s)
unfolding client_loop
refused_turn mac new_client server client turn turns s e h = ground (
  arith,
  refused_stream mac new_client server client turn.started turn.errors turn.schedule s e h,
)

module _ (world : World) (flags : ClientFlags) (oauth_token : Option String) (run : ClientRunning)
    (h : client_main world flags oauth_token ≡ streams run) where
  configured : client_configured world flags oauth_token ≡ streams run
  unfolding client_main
  configured = ground (arith, h)

  cache_of : init_cache world.redis world.setting flags.repo none ≡ creates run.cache
  unfolding client_configured
  cache_of = ground (arith, configured)

  -- Without a configuration of Redis the events are in memory.
  memory_of :
      (memory : InMemoryStore) × (run.cache.store ≡ in_memory memory)
      × IsWellFormed memory
      × ((q : String) → view memory q ≡ [])
  memory_of =
      let from = init_cache-memory world.redis world.setting flags.repo none run.cache cache_of in
      let fresh = create_in_memory_store_lem world.setting from.0 from.1 in
      (from.0, ap (λ (x : Started). x.store) (sym from.2), fresh.0, fresh.1)

  tls_of_run :
      new_tls_config world.files flags.ca_file_location flags.cert_file_location
        flags.cert_key_file_location false
      ≡ some (run.grpc_server_config.tls_config, none)
  unfolding client_configured create_server_config
  tls_of_run = ground (arith, configured)

  insecure_of_run : run.grpc_server_config.insecure ≡ is_insecure flags
  unfolding client_configured create_server_config
  insecure_of_run = ground (arith, configured)

  sent_token_of_run : run.grpc_server_config.oauth_token ≡ token_or_empty oauth_token
  unfolding client_configured create_server_config
  sent_token_of_run = ground (arith, configured)

  relays_of_run :
      (r : String) → relays_repository r run.relays ≡ (flags.relay_enabled && flags.repo == r)
  unfolding client_configured create_relay_config initiate_relay
  relays_of_run r = ground (arith, configured)

  -- With a library that refuses it, no turn opens a stream without TLS and with a token.
  refused_turns :
      (new_client : NewClient)
      → RefusesTokens new_client
      → (is_insecure flags && not (token_or_empty oauth_token == "")) ≡ true
      → (e : String) × ((mac : Mac) (turn : Turn) (turns : List Turn) (s : InMemoryStore)
          → client_loop mac new_client run.grpc_server_config run.grpc_client_config
              (turn ∷ turns)
              s
            ≡ (fatal e, s))
  refused_turns new_client law both =
      let refused =
        insecure_token_refused new_client law run.grpc_server_config
          (run.grpc_server_config.host <> ":" <> run.grpc_server_config.port)
          (ground (arith, insecure_of_run, both)) (ground (arith, sent_token_of_run, both)) in
      (
        refused.0,
        λ mac turn turns s.
            refused_turn mac new_client run.grpc_server_config run.grpc_client_config turn turns s
              refused.0 refused.1,
      )

  -- A client that has started keeps its events in a store in memory that is well formed and has no
  -- event, and has started the goroutine of the relay of its repository exactly if the relay is
  -- enabled, and of no other. The options of its connection have the token exactly if one is set. They
  -- are without TLS exactly if the flags say insecure and not secure; otherwise they have the
  -- certificates of the system, whatever certificate of its own the flags name, exactly if they name
  -- no authority file. Where they are without TLS and a token is set, and the library refuses that, as
  -- grpc does, the client exits with an error at its first turn, whatever the turn.
  pub client_main_lem :
      (new_client : NewClient)
      → RefusesTokens new_client
      → (r : String)
      → ((memory : InMemoryStore) × (run.cache.store ≡ in_memory memory)
          × IsWellFormed memory
          × ((q : String) → view memory q ≡ []))
        × (relays_repository r run.relays ≡ (flags.relay_enabled && flags.repo == r))
        × (keep sends_token (create_grpc_options run.grpc_server_config) ≡ (
            if token_or_empty oauth_token == ""
            then []
            else per_rpc_token (token_or_empty oauth_token) ∷ []))
        × ((d : DialOption) × (keep is_transport (create_grpc_options run.grpc_server_config)
              ≡ d ∷ [])
            × ((d ≡ insecure_credentials) ↔ (is_insecure flags ≡ true))
            × ((d ≡ system_credentials)
                ↔ ((not (is_insecure flags) && not (is_set flags.ca_file_location)) ≡ true)))
        × (((is_insecure flags && not (token_or_empty oauth_token == "")) ≡ false)
            ⊎ ((e : String) × ((mac : Mac) (turn : Turn) (turns : List Turn) (s : InMemoryStore)
                  → client_loop mac new_client run.grpc_server_config run.grpc_client_config
                      (turn ∷ turns)
                      s
                    ≡ (fatal e, s))))
  client_main_lem new_client law r =
      let options = create_grpc_options_lem run.grpc_server_config in
      let roots =
        roots-new_tls_config world.files flags.ca_file_location flags.cert_file_location
          flags.cert_key_file_location run.grpc_server_config.tls_config tls_of_run in
      (
        memory_of,
        relays_of_run r,
        options.0 ∙ ap (λ t. if t == "" then [] else per_rpc_token t ∷ []) sent_token_of_run,
        (
          options.1.0,
          options.1.1,
          rw (← insecure_of_run) options.1.2,
          rw (← insecure_of_run, ← roots) options.1.3,
        ),
        elim (Bool-cases (is_insecure flags && not (token_or_empty oauth_token == ""))) [
          | inr fine ↦ inl fine
          | inl both ↦ inr (refused_turns new_client law both)
        ],
      )
