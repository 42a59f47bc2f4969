-- ===== src/Serve/Access.antt =====
-- Which calls of the gRPC servers need a token.
use gitstafette.Common.{
  ◌≡◌, ◌∙◌, refl, String, Bool, true, false, not, ◌&&◌, ◌||◌, arith, Option, none, some, List, [],
  ◌∷◌, Bool-cases, inl, inr, if◌then◌else◌,
}
use gitstafette.Auth.{Intercepted, handled, validate_token, unary_interceptor}
use gitstafette.Info.{ServerConfig}
use gitstafette.Relay.Config.{RelayConfig}
use gitstafette.Serve.{
  Registered, gitstafette_service, info_service, health_service, validates_token, demands_secret,
  GrpcServer, initialize_grpc_server, initialize_grpc_health_server,
}
use gitstafette.Tls.{TlsConfig}

-- The methods of the services, by their names in the protocol.
pub data Method : Type 0 where
  webhook_event_status webhook_event_statuses webhook_event_push fetch_webhook_events : Method
  get_info : Method
  health_check health_list health_watch : Method

-- `stream` in the descriptions of the services.
abbrev pub is_stream : Method → Bool
is_stream webhook_event_statuses = true
is_stream fetch_webhook_events = true
is_stream health_watch = true
is_stream _ = false

abbrev pub is_some : {A : Type 0} → Option A → Bool
is_some none = false
is_some (some a) = true

-- The service that a method belongs to.
abbrev pub is_health : Method → Bool
is_health health_check = true
is_health health_list = true
is_health health_watch = true
is_health _ = false

abbrev pub belongs : Method → Registered → Bool
belongs m health_service = is_health m
belongs get_info (info_service i) = true
belongs m (info_service i) = false
belongs get_info gitstafette_service = false
belongs m gitstafette_service = not (is_health m)

abbrev pub is_served : Method → List Registered → Bool
is_served m [] = false
is_served m (s ∷ ss) = belongs m s || is_served m ss

-- google.golang.org/grpc: a call of a method, with the variable OAUTH_TOKEN of the process, the
-- authorization values of the call, and what the handler gives. `none` is the answer that the method
-- is not implemented. A stream runs through the server's stream interceptors and no others, every
-- other call through its unary interceptors and no others.
pub record GrpcLibrary : Type 1 where
  pub call :
      {A : Type 0}
      → GrpcServer
      → Option String
      → Method
      → Option (List String)
      → A
      → Option (Intercepted A)
  pub unknown :
      {A : Type 0} (s : GrpcServer) (token : Option String) (m : Method)
      (metadata : Option (List String)) (result : A)
      → is_served m s.services ≡ false
      → call s token m metadata result ≡ none
  pub stream_token :
      {A : Type 0} (s : GrpcServer) (token : Option String) (m : Method)
      (metadata : Option (List String)) (result : A)
      → is_served m s.services ≡ true
      → is_stream m ≡ true
      → s.stream_interceptors ≡ validates_token ∷ []
      → call s token m metadata result ≡ some (validate_token token metadata result)
  pub stream_free :
      {A : Type 0} (s : GrpcServer) (token : Option String) (m : Method)
      (metadata : Option (List String)) (result : A)
      → is_served m s.services ≡ true
      → is_stream m ≡ true
      → s.stream_interceptors ≡ []
      → call s token m metadata result ≡ some (handled result)
  pub unary_secret :
      {A : Type 0} (s : GrpcServer) (token : Option String) (m : Method)
      (metadata : Option (List String)) (result : A)
      → is_served m s.services ≡ true
      → is_stream m ≡ false
      → s.unary_interceptors ≡ demands_secret ∷ []
      → call s token m metadata result ≡ some (unary_interceptor metadata result)
  pub unary_free :
      {A : Type 0} (s : GrpcServer) (token : Option String) (m : Method)
      (metadata : Option (List String)) (result : A)
      → is_served m s.services ≡ true
      → is_stream m ≡ false
      → s.unary_interceptors ≡ []
      → call s token m metadata result ≡ some (handled result)

-- The server of the events has every method, those of the health service only if that has no server
-- of its own.
served_events :
    (port : String) (tls : Option TlsConfig) (health : Option GrpcServer) (config : ServerConfig)
    (relay : RelayConfig) (m : Method)
    → is_served m (initialize_grpc_server port tls health config relay).services
      ≡ not (is_health m && is_some health)
unfolding initialize_grpc_server
served_events port tls none config relay health_check = refl
served_events port tls none config relay health_list = refl
served_events port tls none config relay health_watch = refl
served_events port tls (some h) config relay health_check = refl
served_events port tls (some h) config relay health_list = refl
served_events port tls (some h) config relay health_watch = refl
served_events port tls health config relay get_info = refl
served_events port tls health config relay webhook_event_status = refl
served_events port tls health config relay webhook_event_statuses = refl
served_events port tls health config relay webhook_event_push = refl
served_events port tls health config relay fetch_webhook_events = refl

served_probes :
    (port : String) (m : Method)
    → is_served m (initialize_grpc_health_server port).services ≡ is_health m
unfolding initialize_grpc_health_server
served_probes port m = ground arith

module _ (grpc : GrpcLibrary) {A : Type 0} (token : Option String) (m : Method)
    (metadata : Option (List String)) (result : A) where
  events_access :
      (port : String) (tls : Option TlsConfig) (health : Option GrpcServer) (config : ServerConfig)
      (relay : RelayConfig)
      → grpc.call (initialize_grpc_server port tls health config relay) token m metadata result ≡ (
          if is_health m && is_some health
          then none
          else some (if is_stream m then validate_token token metadata result else handled result))
  unfolding initialize_grpc_server
  events_access port tls health config relay =
      let s = initialize_grpc_server port tls health config relay in
      let known = served_events port tls health config relay m in
      elim (Bool-cases (is_health m && is_some health)) [
        | inl apart ↦ rw apart (grpc.unknown s token m metadata result (rw apart at known))
        | inr here ↦ elim (Bool-cases (is_stream m)) [
          | inl stream ↦
              rw (here, stream)
                (grpc.stream_token s token m metadata result (rw here at known) stream refl)
          | inr unary ↦
              rw (here, unary)
                (grpc.unary_free s token m metadata result (rw here at known) unary refl)
        ]
      ]

  probes_access :
      (port : String)
      → grpc.call (initialize_grpc_health_server port) token m metadata result ≡ (
          if is_health m
          then some (if is_stream m then handled result else unary_interceptor metadata result)
          else none)
  unfolding initialize_grpc_health_server
  probes_access port =
      let s = initialize_grpc_health_server port in
      let known = served_probes port m in
      elim (Bool-cases (is_health m)) [
        | inr apart ↦ rw apart (grpc.unknown s token m metadata result (known ∙ apart))
        | inl here ↦ elim (Bool-cases (is_stream m)) [
          | inl stream ↦
              rw (here, stream)
                (grpc.stream_free s token m metadata result (known ∙ here) stream refl)
          | inr unary ↦
              rw (here, unary)
                (grpc.unary_secret s token m metadata result (known ∙ here) unary refl)
        ]
      ]

  -- The server of the events has each method, except that the health service may have a server of
  -- its own. There a stream needs the token, and every other call, a push of an event too, is handled
  -- whatever its metadata. A server of the health service has no other methods, and it is the other
  -- way round: a stream is handled whatever its metadata, and every other call needs the secret.
  pub access_lem :
      (port health_port : String) (tls : Option TlsConfig) (health : Option GrpcServer)
      (config : ServerConfig) (relay : RelayConfig)
      → (grpc.call (initialize_grpc_server port tls health config relay) token m metadata result ≡ (
          if is_health m && is_some health
          then none
          else some (if is_stream m then validate_token token metadata result else handled result)))
        × (grpc.call (initialize_grpc_health_server health_port) token m metadata result ≡ (
            if is_health m
            then some (if is_stream m then handled result else unary_interceptor metadata result)
            else none))
  access_lem port health_port tls health config relay =
      (events_access port tls health config relay, probes_access health_port)
