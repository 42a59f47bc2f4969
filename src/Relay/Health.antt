-- ===== src/Relay/Health.antt =====
-- `RelayHealthCheck`, `doGrpcHealthcheck` and `doHttpHealthcheck`: the health of the relay target.
use gitstafette.Common.{
  ℕ, ◌+◌, ◌≡◌, ◌∙◌, ◌⊎◌, inl, inr, refl, String, Bool, true, false, ◌||◌, Option, none, some, List,
  [], ◌∷◌, ◌==◌, arith, length, all, if◌then◌else◌,
}
use gitstafette.Relay.Config.{RelayConfig}

pub record Status : Type 0 where
  pub last_check_was_successfull : Bool
  pub counter_of_failed_health_checks : ℕ
  pub time_of_last_check : ℕ
  pub time_of_last_failure : ℕ

abbrev pub initial_status : ℕ → Status
initial_status now = record {
  last_check_was_successfull = false;
  counter_of_failed_health_checks = 0;
  time_of_last_check = now;
  time_of_last_failure = 0;
}

-- What `client.Check` returns, or `no_client` where `grpc.NewClient` fails; and what the GET of the
-- health endpoint returns: whether the status code is one of success, or an error.
pub data GrpcAnswer : Type 0 where
  serving not_serving no_client : GrpcAnswer
  rpc_error : String → GrpcAnswer

pub data HttpAnswer : Type 0 where
  response : Bool → HttpAnswer
  http_error : String → HttpAnswer

-- The result and the error, or the exit of the process. What the target answers is only logged.
unfoldable pub do_grpc_healthcheck : GrpcAnswer → Option (Bool × Option String)
do_grpc_healthcheck no_client = none
do_grpc_healthcheck serving = some (false, none)
do_grpc_healthcheck not_serving = some (false, none)
do_grpc_healthcheck (rpc_error e) = some (false, none)

unfoldable pub do_http_healthcheck : HttpAnswer → Bool × Option String
do_http_healthcheck (response is_success) = (is_success, none)
do_http_healthcheck (http_error e) = (false, some e)

abbrev healthy_of : Option (Bool × Option String) → Option Bool
healthy_of none = none
healthy_of (some (healthy, error)) = some healthy

-- The `switch` on the protocol. `repoIds[0]` of an empty slice panics.
unfoldable pub check_health : RelayConfig → List String → GrpcAnswer → HttpAnswer → Option Bool
unfolding do_grpc_healthcheck do_http_healthcheck
check_health relay repo_ids grpc http =
    if relay.protocol == "grpc"
    then healthy_of (do_grpc_healthcheck grpc)
    else if relay.protocol == "http" || relay.protocol == "https"
    then elim repo_ids [ [] ↦ none | r ∷ rs ↦ some (do_http_healthcheck http).0 ]
    else some false

-- The two readings of the clock are at the check and at the failure.
abbrev pub note_health : ℕ → ℕ → Bool → Status → Status
note_health checked failed true status = record status {
  last_check_was_successfull = true;
  counter_of_failed_health_checks = 0;
  time_of_last_check = checked;
}
note_health checked failed false status = record status {
  last_check_was_successfull = false;
  counter_of_failed_health_checks = status.counter_of_failed_health_checks + 1;
  time_of_last_check = checked;
  time_of_last_failure = failed;
}

-- One tick's input: what the targets answer and the readings of the clock.
pub record Probe : Type 0 where
  pub grpc : GrpcAnswer
  pub http : HttpAnswer
  pub checked : ℕ
  pub failed : ℕ

abbrev noted : Probe → Status → Option Bool → Option Status
noted probe status none = none
noted probe status (some healthy) = some (note_health probe.checked probe.failed healthy status)

unfoldable pub health_tick : RelayConfig → List String → Probe → Status → Option Status
unfolding check_health
health_tick relay repo_ids probe status =
    noted probe status (check_health relay repo_ids probe.grpc probe.http)

abbrev and_then : (Status → Option Status) → Option Status → Option Status
and_then f none = none
and_then f (some status) = f status

-- The ticks until the context is done.
unfoldable pub health_ticks : RelayConfig → List String → List Probe → Status → Option Status
unfolding health_tick
health_ticks relay repo_ids [] status = some status
health_ticks relay repo_ids (probe ∷ probes) status =
    and_then (health_ticks relay repo_ids probes) (health_tick relay repo_ids probe status)

-- A success starts the count anew, a failure adds one.
abbrev pub failures_in_a_row : ℕ → List HttpAnswer → ℕ
failures_in_a_row n [] = n
failures_in_a_row n (response true ∷ rest) = failures_in_a_row 0 rest
failures_in_a_row n (response false ∷ rest) = failures_in_a_row (n + 1) rest
failures_in_a_row n (http_error e ∷ rest) = failures_in_a_row (n + 1) rest

abbrev pub http_answers : List Probe → List HttpAnswer
http_answers [] = []
http_answers (probe ∷ probes) = probe.http ∷ http_answers probes

http_tick :
    (relay : RelayConfig) (r : String) (rs : List String) (probe : Probe) (status : Status)
    → (relay.protocol ≡ "http") ⊎ (relay.protocol ≡ "https")
    → health_tick relay (r ∷ rs) probe status
      ≡ some (note_health probe.checked probe.failed (do_http_healthcheck probe.http).0 status)
unfolding health_tick
http_tick relay r rs probe status (inl p) = rw p refl
http_tick relay r rs probe status (inr p) = rw p refl

counted :
    (checked failed : ℕ) (answer : HttpAnswer) (status : Status) (rest : List HttpAnswer)
    → failures_in_a_row
        (note_health checked failed
          (do_http_healthcheck answer).0
          status).counter_of_failed_health_checks
        rest
      ≡ failures_in_a_row status.counter_of_failed_health_checks (answer ∷ rest)
unfolding do_http_healthcheck
counted checked failed (response true) status rest = refl
counted checked failed (response false) status rest = refl
counted checked failed (http_error e) status rest = refl

-- With an HTTP target and a repository to name, the health check never panics, and its counter is
-- the number of failures since the last success.
pub http-health_ticks :
    (relay : RelayConfig) (r : String) (rs : List String) (probes : List Probe) (status : Status)
    → (relay.protocol ≡ "http") ⊎ (relay.protocol ≡ "https")
    → (done : Status) × (health_ticks relay (r ∷ rs) probes status ≡ some done)
      × (done.counter_of_failed_health_checks
          ≡ failures_in_a_row status.counter_of_failed_health_checks (http_answers probes))
unfolding health_ticks
http-health_ticks relay r rs [] status p = (status, refl, refl)
http-health_ticks relay r rs (probe ∷ probes) status p =
    let next = note_health probe.checked probe.failed (do_http_healthcheck probe.http).0 status in
    let rest = http-health_ticks relay r rs probes next p in
    (
      rest.0,
      rw (http_tick relay r rs probe status p) rest.1,
      rest.2 ∙ counted probe.checked probe.failed probe.http status (http_answers probes),
    )

abbrev pub has_client : GrpcAnswer → Bool
has_client no_client = false
has_client _ = true

abbrev pub grpc_answers : List Probe → List GrpcAnswer
grpc_answers [] = []
grpc_answers (probe ∷ probes) = probe.grpc ∷ grpc_answers probes

grpc_fails :
    (answer : GrpcAnswer)
    → has_client answer ≡ true
    → do_grpc_healthcheck answer ≡ some (false, none)
unfolding do_grpc_healthcheck
grpc_fails serving h = refl
grpc_fails not_serving h = refl
grpc_fails no_client h = cc
grpc_fails (rpc_error e) h = refl

grpc_tick :
    (relay : RelayConfig) (repo_ids : List String) (probe : Probe) (status : Status)
    → relay.protocol ≡ "grpc"
    → has_client probe.grpc ≡ true
    → health_tick relay repo_ids probe status
      ≡ some (note_health probe.checked probe.failed false status)
unfolding health_tick
grpc_tick relay repo_ids probe status p h = rw (p, grpc_fails probe.grpc h) refl

-- With a gRPC target for which a client can be made every check counts as a failure, also those to
-- which the target answers that it is serving.
pub grpc-health_ticks :
    (relay : RelayConfig) (repo_ids : List String) (probes : List Probe) (status : Status)
    → relay.protocol ≡ "grpc"
    → all has_client (grpc_answers probes) ≡ true
    → (done : Status) × (health_ticks relay repo_ids probes status ≡ some done)
      × (done.counter_of_failed_health_checks
          ≡ status.counter_of_failed_health_checks + length probes)
unfolding health_ticks
grpc-health_ticks relay repo_ids [] status p c = (status, refl, omega arith)
grpc-health_ticks relay repo_ids (probe ∷ probes) status p c =
    let next : Status = note_health probe.checked probe.failed false status in
    let first : has_client probe.grpc ≡ true = ground (arith, c) in
    let rest = grpc-health_ticks relay repo_ids probes next p (ground (arith, c)) in
    (rest.0, rw (grpc_tick relay repo_ids probe status p first) rest.1, omega (arith, rest.2))
