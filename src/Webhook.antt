-- ===== src/Webhook.antt =====
-- internal/api/v1: the HTTP endpoints of the server. GitHub posts its events to one; the others
-- list the watched repositories and the events of a repository.
pub mod Signature
pub mod Post
pub mod Panics
pub mod Again
pub mod Delivered
pub mod Transparent
use gitstafette.Common.{
  ℕ, ◌-◌, String, Bool, true, false, not, ◌||◌, Option, none, some, List, [], ◌∷◌, ◌==◌, ◌<>◌, leb,
  length, slice_at, map, if◌then◌else◌,
}
use gitstafette.Event.{Bytes, WebhookEventInternal}
use gitstafette.Cache.InMemory.{InMemoryStore, retrieve_events_for_repository}
use gitstafette.Cache.Ingest.{GoError, HttpHeader, first_or_empty, internal_event}
use gitstafette.Cache.Watcher.{RepositoryWatcher, repository_is_watched}
use Signature.{Mac, validate_message, signature_header}

abbrev pub target_id_header : String
target_id_header = "X-Github-Hook-Installation-Target-Id"

abbrev pub target_type_header : String
target_type_header = "X-Github-Hook-Installation-Target-Type"

-- `GitstafetteContext`: the request, with the token that the server was started with. The payload
-- is what could be read of the body, since a read error is only logged.
pub record GitstafetteContext : Type 0 where
  pub headers : HttpHeader
  pub message_payload : Bytes
  pub webhook_hmac : String

-- A handler answers with a status and a text, or panics on an index out of range.
pub data Reply : Type 0 where
  answers : ℕ → String → Reply
  panics : Reply

-- `targetType[0] != "repository"`, where the slice may be empty.
abbrev pub not_repository : List String → Option Bool
not_repository [] = none
not_repository (t ∷ ts) = some (not (t == "repository"))

abbrev pub is_empty {ℓ} : {A : Type ℓ} → List A → Bool
is_empty [] = true
is_empty (x ∷ xs) = false

-- `len(headers) <= 0 || len(headers[TargetIdHeader]) <= 0 || targetType[0] != "repository"`
unfoldable pub is_unacceptable : HttpHeader → Option Bool
is_unacceptable headers =
    if is_empty headers || is_empty (slice_at target_id_header headers)
    then some true
    else not_repository (slice_at target_type_header headers)

-- The digest, tested only where a token is set.
unfoldable pub check_digest : Mac → GitstafetteContext → GoError
check_digest mac ctx =
    if not (ctx.webhook_hmac == "")
    then validate_message mac ctx.webhook_hmac
        (first_or_empty (slice_at signature_header ctx.headers)) ctx.message_payload
    else none

abbrev pub reply_stored :
    InMemoryStore → Option (InMemoryStore × Bool × GoError) → Reply × InMemoryStore
reply_stored s none = (panics, s)
reply_stored s (some (s', stored, _)) = (
  if stored
      then answers 201 "Repository event cached"
      else answers 204 "Repository event accepted but is already cached",
  s',
)

-- From `targetRepositoryID := …` on.
unfoldable pub cache_post :
    ℕ → RepositoryWatcher → InMemoryStore → GitstafetteContext → String → Reply × InMemoryStore
cache_post now w s ctx target_repository_id =
    if repository_is_watched w target_repository_id
    then reply_stored s (internal_event now s target_repository_id ctx.message_payload ctx.headers)
    else (answers 406 ("Target " <> target_repository_id <> " is not a watched repository"), s)

abbrev pub post_checked :
    ℕ → RepositoryWatcher → InMemoryStore → GitstafetteContext → GoError → Reply × InMemoryStore
post_checked now w s ctx (some e) =
    (answers 400 ("Ran into an error validating the message digest: " <> e <> "\n"), s)
post_checked now w s ctx none =
    cache_post now w s ctx (first_or_empty (slice_at target_id_header ctx.headers))

abbrev pub post_acceptable :
    Mac
    → ℕ
    → RepositoryWatcher
    → InMemoryStore
    → GitstafetteContext
    → Option Bool
    → Reply × InMemoryStore
post_acceptable mac now w s ctx none = (panics, s)
post_acceptable mac now w s ctx (some true) =
    (answers 406 "InternalEvent is not for a repository", s)
post_acceptable mac now w s ctx (some false) = post_checked now w s ctx (check_digest mac ctx)

unfoldable pub handle_github_post :
    Mac → ℕ → RepositoryWatcher → InMemoryStore → GitstafetteContext → Reply × InMemoryStore
unfolding is_unacceptable check_digest cache_post
handle_github_post mac now w s ctx = post_acceptable mac now w s ctx (is_unacceptable ctx.headers)

-- What a handler sends as JSON.
pub data Listing : Type 0 where
  bad_request : String → Listing
  events : List WebhookEventInternal → Listing
  repositories : List String → Listing

unfoldable pub handle_retrieve_events_for_repository : InMemoryStore → String → Listing
handle_retrieve_events_for_repository s repository_id =
    if repository_id == ""
    then bad_request "This request requires a valid RepositoryID"
    else events (map s.heap.cell (retrieve_events_for_repository s repository_id))

unfoldable pub handle_watch_list_get : RepositoryWatcher → Listing
handle_watch_list_get w = repositories w.repositories
