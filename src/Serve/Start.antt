-- ===== src/Serve/Start.antt =====
-- What a server that was started does.
use gitstafette.Common.{
  ℕ, ◌+◌, ◌≡◌, ap, refl, String, Bool, true, false, ◌&&◌, ◌||◌, Option, none, some, List, [], ◌∷◌,
  ◌==◌, arith, member, if◌then◌else◌,
}
use gitstafette.Cache.Create.{creates}
use gitstafette.Cache.Startup.{init_cache}
use gitstafette.Cache.Begun.{init_cache-watched}
use gitstafette.Cache.Watcher.{repository_is_watched}
use gitstafette.Relay.Config.{RelayConfig, create_relay_config}
use gitstafette.Relay.{Service, relay_health_check, relay_cached_events, initiate_relay}
use gitstafette.Tls.{TlsConfig, Files, is_set, new_tls_config}
use gitstafette.Serve.Shutdown.{returns, shut_down}
use gitstafette.Serve.Signals.{
  Event, signals, goroutine_dies, interrupt, terminate, Awaited, waiting, stops, dies, await,
}
use gitstafette.Serve.{
  Registered, gitstafette_service, info_service, health_service, GrpcServer, initialize_grpc_server,
  initialize_grpc_health_server, initialize_echo_server,
}
use gitstafette.Serve.Main.{
  initiate_relays, Flags, World, Running, serves, server_main, launch, health_server_of,
  relay_config_of,
}

-- Whether the relay of a repository is among the goroutines.
abbrev pub relays_repository : String → List Service → Bool
relays_repository r [] = false
relays_repository r (relay_health_check ∷ rest) = relays_repository r rest
relays_repository r (relay_cached_events q ∷ rest) = q == r || relays_repository r rest

abbrev pub health_services : List Registered → ℕ
health_services [] = 0
health_services (health_service ∷ rest) = health_services rest + 1
health_services (gitstafette_service ∷ rest) = health_services rest
health_services (info_service i ∷ rest) = health_services rest

abbrev pub services_of : Option GrpcServer → List Registered
services_of none = []
services_of (some s) = s.services

-- What ends the wait, if anything does: an interrupt (`true`), or the death of a goroutine. A signal
-- that does not, SIGTERM, has come before.
abbrev pub first_end : List Event → Option Bool
first_end [] = none
first_end (goroutine_dies ∷ events) = some false
first_end (signals interrupt ∷ events) = some true
first_end (signals terminate ∷ events) = first_end events

abbrev pub any_comes : List Event → Bool
any_comes [] = false
any_comes (event ∷ events) = true

-- What an end of the wait leads to, in a server that has these gRPC servers.
abbrev pub ending : List GrpcServer → Bool → Option Bool → Awaited
ending servers done none = waiting done
ending servers done (some true) = stops (returns servers)
ending servers done (some false) = dies

abbrev pub health_servers : Option GrpcServer → List GrpcServer
health_servers none = []
health_servers (some s) = s ∷ []

-- Whether a client has to show a certificate.
abbrev pub demands_certificate : Option TlsConfig → Bool
demands_certificate none = false
demands_certificate (some tls) = tls.require_client_cert

demands-new_tls_config :
    (files : Files) (ca_file certificate_file key_file : String) (tls : Option TlsConfig)
    → new_tls_config files ca_file certificate_file key_file true ≡ some (tls, none)
    → demands_certificate tls ≡ is_set ca_file
unfolding new_tls_config
demands-new_tls_config files ca_file certificate_file key_file tls h = ground (arith, h)

relays-initiate_relays :
    (config : RelayConfig) (r : String) (rs : List String)
    → config.enabled ≡ true
    → relays_repository r (initiate_relays config rs) ≡ member r rs
unfolding initiate_relays initiate_relay
relays-initiate_relays config r [] e = refl
relays-initiate_relays config r (q ∷ rs) e = rw e (cc (relays-initiate_relays config r rs e))

enabled-create :
    (world : World) (flags : Flags) (config : RelayConfig)
    → relay_config_of world flags ≡ some config
    → config.enabled ≡ flags.relay_enabled
unfolding create_relay_config
enabled-create world flags config h = ground (arith, h)

module _ (world : World) (flags : Flags) (run : Running)
    (h : server_main world flags ≡ serves run) where
  cache_of :
      init_cache world.redis world.setting flags.repository_ids (some flags.redis)
      ≡ creates run.cache
  unfolding server_main launch
  cache_of = ground (arith, h)

  relay_of_run : relay_config_of world flags ≡ some run.relay_config
  unfolding server_main launch
  relay_of_run = ground (arith, h)

  relays_of_run : run.relays ≡ (
      if run.relay_config.enabled then initiate_relays run.relay_config run.cache.repo_ids else [])
  unfolding server_main launch
  relays_of_run = ground (arith, h)

  health_of_run : run.grpc_health_server ≡ health_server_of flags
  unfolding server_main launch
  health_of_run = ground (arith, h)

  services_of_run :
      health_services run.grpc_server.services
      ≡ health_services (elim run.grpc_health_server [ none ↦ health_service ∷ [] | some s ↦ [] ])
  unfolding server_main launch initialize_grpc_server
  services_of_run = ground (arith, h)

  one_health_service :
      health_services run.grpc_server.services
        + health_services (services_of run.grpc_health_server)
      ≡ 1
  unfolding initialize_grpc_health_server
  one_health_service = ground (arith, services_of_run, health_of_run)

  tls_of_run :
      new_tls_config world.files flags.ca_file_location flags.cert_file_location
        flags.cert_key_file_location true
      ≡ some (run.grpc_server.credentials, none)
  unfolding server_main launch initialize_grpc_server
  tls_of_run = ground (arith, h)

  hmac_of_run : run.echo_server.webhook_hmac ≡ flags.webhook_hmac
  unfolding server_main launch initialize_echo_server
  hmac_of_run = ground (arith, h)

  stopped_of_run :
      shut_down flags run none ≡ returns (run.grpc_server ∷ health_servers run.grpc_health_server)
  unfolding shut_down
  stopped_of_run = ground (arith, health_of_run)

  -- Until the wait ends a signal has ended the context.
  awaited_of_run :
      (done : Bool) (events : List Event)
      → await flags run none done events
        ≡ ending
            (run.grpc_server ∷ health_servers run.grpc_health_server)
            (done || any_comes events)
            (first_end events)
  unfolding await
  awaited_of_run done [] = ground arith
  awaited_of_run done (goroutine_dies ∷ events) = refl
  awaited_of_run done (signals interrupt ∷ events) = ap stops stopped_of_run
  awaited_of_run done (signals terminate ∷ events) =
      rw (awaited_of_run (done || true) events) (ground arith)

  -- A server that has started has started the goroutine of the relay of a repository exactly if the
  -- relay is enabled and the repository is watched. It has the health service on one of its gRPC
  -- servers and on one only, and its webhook endpoint tests digests with the token of the flags. It
  -- demands a certificate of a client of its events exactly if an authority file is named. As long as
  -- neither an interrupt comes nor a goroutine ends the process it waits, and the context of its relays
  -- and its clean-up is done as soon as a SIGTERM has come. If an interrupt is first, and the webhook
  -- server shuts down without an error, each of its gRPC servers is stopped, and none that it does not
  -- have; if a goroutine is first, none is.
  pub server_main_lem :
      (r : String) (events : List Event)
      → (relays_repository r run.relays
          ≡ (flags.relay_enabled && repository_is_watched run.cache.repositories r))
        × (health_services run.grpc_server.services
              + health_services (services_of run.grpc_health_server)
            ≡ 1)
        × (run.echo_server.webhook_hmac ≡ flags.webhook_hmac)
        × (demands_certificate run.grpc_server.credentials ≡ is_set flags.ca_file_location)
        × (await flags run none false events
            ≡ ending
                (run.grpc_server ∷ health_servers run.grpc_health_server)
                (any_comes events)
                (first_end events))
  server_main_lem r events = (
    ground (
      arith,
      relays_of_run,
      enabled-create world flags run.relay_config relay_of_run,
      relays-initiate_relays run.relay_config r run.cache.repo_ids,
      init_cache-watched world.redis world.setting flags.repository_ids (some flags.redis) run.cache
          cache_of r,
    ),
    one_health_service,
    hmac_of_run,
    demands-new_tls_config world.files flags.ca_file_location flags.cert_file_location
        flags.cert_key_file_location run.grpc_server.credentials tls_of_run,
    awaited_of_run false events,
  )
