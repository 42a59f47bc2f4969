-- ===== src/Cache/Startup.antt =====
-- internal/cache/event_cache.go, `InitCache` and `initializeStore`: what is watched, and which store
-- keeps the events.
use Prim.Native.String.{len}
use gitstafette.Common.{
  ℤ, pos, true, ◌<>◌, String, Bool, false, ◌||◌, Option, none, some, List, [], ◌∷◌, ◌==◌, leb,
  if◌then◌else◌,
}
use gitstafette.Cache.InMemory.{InMemoryStore}
use gitstafette.Cache.Create.{Setting, Creation, ends, with_creation, create_in_memory_store}
use gitstafette.Common.Separated.{contains_comma, split}
use gitstafette.Cache.Watcher.{RepositoryWatcher, create_repository_watcher, add_repository}

pub record RedisConfig : Type 0 where
  pub host : String
  pub port : String
  pub password : String
  pub database : String

-- What the client of a Redis server is made from.
pub record RedisOptions : Type 0 where
  pub addr : String
  pub password : String
  pub db : ℤ

-- strconv.Atoi, where `none` is an error, and github.com/go-redis/redis: the error of a ping by a
-- client with the options.
pub record RedisLibrary : Type 0 where
  pub atoi : String → Option ℤ
  pub ping : RedisOptions → Option String

pub record RedisStore : Type 0 where
  pub redis_client : RedisOptions
  pub is_connected : Bool

-- A database that is no number is 0.
abbrev pub database_of : Option ℤ → ℤ
database_of none = pos 0
database_of (some n) = n

abbrev pub is_none : {A : Type 0} → Option A → Bool
is_none none = true
is_none (some a) = false

unfoldable pub new_redis_store : RedisLibrary → RedisConfig → RedisStore
new_redis_store library config =
    let options : RedisOptions = record {
      addr = config.host <> ":" <> config.port;
      password = config.password;
      db = database_of (library.atoi config.database);
    } in
    record { redis_client = options; is_connected = is_none (library.ping options) }

pub data Backend : Type 0 where
  in_memory : InMemoryStore → Backend
  redis : RedisStore → Backend

-- From `if config != nil` on, with the in-memory store.
abbrev pub backend_of : RedisLibrary → Option RedisConfig → InMemoryStore → Backend
backend_of library none memory = in_memory memory
backend_of library (some config) memory =
    let store = new_redis_store library config in
    if store.is_connected then redis store else in_memory memory

-- The in-memory store is made before Redis is tried, and whether or not it is used.
unfoldable pub initialize_store : RedisLibrary → Setting → Option RedisConfig → Creation Backend
unfolding new_redis_store
initialize_store library setting config =
    with_creation (create_in_memory_store setting) (backend_of library config)

unfoldable pub repo_ids_of : String → List String
repo_ids_of repository_ids =
    if contains_comma repository_ids then split repository_ids else repository_ids ∷ []

unfoldable pub add_repositories : List String → RepositoryWatcher → RepositoryWatcher
unfolding add_repository
add_repositories [] w = w
add_repositories (r ∷ rs) w = add_repositories rs (add_repository w r)

pub record Started : Type 0 where
  pub repo_ids : List String
  pub repositories : RepositoryWatcher
  pub store : Backend

abbrev pub started_of : String → Backend → Started
started_of repository_ids store = record {
  repo_ids = repo_ids_of repository_ids;
  repositories = add_repositories (repo_ids_of repository_ids) create_repository_watcher;
  store = store;
}

-- Without a repository the process exits.
unfoldable pub init_cache : RedisLibrary → Setting → String → Option RedisConfig → Creation Started
unfolding initialize_store repo_ids_of add_repositories
init_cache library setting repository_ids config =
    if repository_ids == "" || leb (len repository_ids) 1
    then ends
    else with_creation (initialize_store library setting config) (started_of repository_ids)
