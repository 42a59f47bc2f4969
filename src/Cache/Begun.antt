-- ===== src/Cache/Begun.antt =====
-- What a cache that was started watches, and where it keeps its events.
use Prim.Native.String.{len}
use gitstafette.Common.{
  true, ◌<>◌, ◌≡◌, ◌≤◌, refl, String, Bool, false, ◌||◌, Option, none, some, List, [], ◌∷◌, ◌++◌,
  ◌==◌, ap, eq_iff, arith, leb, member, append_assoc, append-nil,
}
use gitstafette.Cache.InMemory.{InMemoryStore, new_in_memory_store}
use gitstafette.Cache.InMemory.Invariant.{IsWellFormed}
use gitstafette.Cache.Spec.{view}
use gitstafette.Cache.Create.{
  Setting, Creation, creates, ends, meets_nil_provider, with_creation, create_in_memory_store,
  create_in_memory_store_lem, sets_up, made, made_only,
}
use gitstafette.Common.{◌↔◌, Bool-cases, inl, inr, subst}
use gitstafette.Common.Separated.{contains_comma, split, join, join-split}
use gitstafette.Cache.Watcher.{RepositoryWatcher, repository_is_watched, watched-eq-member}
use gitstafette.Cache.Startup.{
  RedisConfig, RedisLibrary, database_of, is_none, new_redis_store, Backend, in_memory, redis,
  backend_of, initialize_store, repo_ids_of, add_repositories, Started, started_of, init_cache,
}

split_plain : (s : String) → contains_comma s ≡ false → split s ≡ s ∷ []
unfolding split contains_comma
split_plain String.[] h = refl
split_plain (String.◌∷◌ c s) h = ground (arith, split_plain s)

repo_ids-eq-split : (s : String) → repo_ids_of s ≡ split s
unfolding repo_ids_of
repo_ids-eq-split s = ground (arith, split_plain s)

repositories-add :
    (rs : List String) (w : RepositoryWatcher)
    → (add_repositories rs w).repositories ≡ w.repositories ++ rs
unfolding add_repositories
repositories-add [] w = rw append-nil
repositories-add (r ∷ rs) w = rw (repositories-add rs, append_assoc) refl

not_short : (s : String) → 2 ≤ len s → (s == "" || leb (len s) 1) ≡ false
not_short s long = ground (arith, eq_iff s "", ap len {x = s} {y = ""})

abbrev pub keeps_in_redis : Backend → Bool
keeps_in_redis (in_memory store) = false
keeps_in_redis (redis store) = true

-- An in-memory store is well formed, and no repository has an event in it.
abbrev pub IsFresh : Backend → Type 0
IsFresh (in_memory store) = IsWellFormed store × ((r : String) → view store r ≡ [])
IsFresh (redis store) = Unit

-- Whether the Redis server of a configuration answers.
abbrev pub answers_ping : RedisLibrary → Option RedisConfig → Bool
answers_ping library none = false
answers_ping library (some c) = is_none (
    library.ping (record {
      addr = c.host <> ":" <> c.port;
      password = c.password;
      db = database_of (library.atoi c.database);
    }))

keeps-backend_of :
    (library : RedisLibrary) (config : Option RedisConfig) (memory : InMemoryStore)
    → keeps_in_redis (backend_of library config memory) ≡ answers_ping library config
unfolding new_redis_store
keeps-backend_of library none memory = refl
keeps-backend_of library (some c) memory = ground arith

IsFresh-backend_of :
    (library : RedisLibrary) (config : Option RedisConfig) (memory : InMemoryStore)
    → IsFresh (in_memory memory)
    → IsFresh (backend_of library config memory)
unfolding new_redis_store
IsFresh-backend_of library none memory v = v
IsFresh-backend_of library (some c) memory v =
    elim (Bool-cases (new_redis_store library c).is_connected) [
      | inl up ↦ rw up tt
      | inr down ↦ rw down v
    ]

-- What a cache that was started watches, tells and keeps.
abbrev pub IsStart : RedisLibrary → String → Option RedisConfig → Started → Type 0
IsStart library repository_ids config started =
    (join started.repo_ids ≡ repository_ids)
    × ((r : String)
        → repository_is_watched started.repositories r ≡ member r (split repository_ids))
    × (keeps_in_redis started.store ≡ answers_ping library config)
    × IsFresh started.store

started_of-IsStart :
    (library : RedisLibrary) (ids : String) (config : Option RedisConfig) (memory : InMemoryStore)
    → IsFresh (in_memory memory)
    → IsStart library ids config (started_of ids (backend_of library config memory))
started_of-IsStart library ids config memory v = (
  rw repo_ids-eq-split (join-split ids),
  λ r. rw (watched-eq-member, repositories-add, repo_ids-eq-split) refl,
  keeps-backend_of library config memory,
  IsFresh-backend_of library config memory v,
)

from_memory :
    (library : RedisLibrary) (ids : String) (config : Option RedisConfig) (started : Started)
    (c : Creation InMemoryStore)
    → with_creation (with_creation c (backend_of library config)) (started_of ids) ≡ creates started
    → (memory : InMemoryStore) × (c ≡ creates memory)
      × (started_of ids (backend_of library config memory) ≡ started)
from_memory library ids config started (creates memory) h = (memory, refl, cc h)
from_memory library ids config started ends h = cc
from_memory library ids config started meets_nil_provider h = cc

-- A cache that was started has made an in-memory store.
pub init_cache-memory :
    (library : RedisLibrary) (setting : Setting) (repository_ids : String)
    (config : Option RedisConfig) (started : Started)
    → init_cache library setting repository_ids config ≡ creates started
    → (memory : InMemoryStore) × (create_in_memory_store setting ≡ creates memory)
      × (started_of repository_ids (backend_of library config memory) ≡ started)
unfolding init_cache initialize_store
init_cache-memory library setting ids config started h =
    from_memory library ids config started (create_in_memory_store setting) (ground (arith, h))

begun_of :
    (library : RedisLibrary) (setting : Setting) (ids : String) (config : Option RedisConfig)
    (memory : InMemoryStore)
    → 2 ≤ len ids
    → create_in_memory_store setting ≡ creates memory
    → init_cache library setting ids config
      ≡ creates (started_of ids (backend_of library config memory))
unfolding init_cache initialize_store
begun_of library setting ids config memory long h = rw (not_short ids long, h) refl

-- A text of two bytes or more starts the cache exactly if the telemetry is disabled or each part of
-- it can be made. Then what is watched is what stands between the commas of the text, and nothing
-- else, and joined by commas it is the text. The events are kept in Redis exactly if there is a
-- configuration and its server answers the ping, with the database 0 where the configuration's is no
-- number, and otherwise in a store that is well formed and has no event.
pub init_cache_lem :
    (library : RedisLibrary) (setting : Setting) (repository_ids : String)
    (config : Option RedisConfig)
    → 2 ≤ len repository_ids
    → ((started : Started) × (init_cache library setting repository_ids config ≡ creates started)
        × IsStart library repository_ids config started)
      ↔ (sets_up setting ≡ true)
init_cache_lem library setting ids config long = (
  λ begun.
      let from = init_cache-memory library setting ids config begun.0 begun.1 in
      made_only setting from.0 from.1,
  λ up.
      let memory = new_in_memory_store setting.heap setting.otel_enabled setting.meter_ok in
      (
        started_of ids (backend_of library config memory),
        begun_of library setting ids config memory long (made setting up),
        started_of-IsStart library ids config memory
            (create_in_memory_store_lem setting memory (made setting up)),
      ),
)

pub init_cache-IsStart :
    (library : RedisLibrary) (setting : Setting) (repository_ids : String)
    (config : Option RedisConfig) (started : Started)
    → init_cache library setting repository_ids config ≡ creates started
    → IsStart library repository_ids config started
init_cache-IsStart library setting ids config started h =
    let from = init_cache-memory library setting ids config started h in
    subst (IsStart library ids config) from.2 (
      started_of-IsStart library ids config from.0
        (create_in_memory_store_lem setting from.0 from.1))

-- What a cache that was started watches are its repositories.
pub init_cache-watched :
    (library : RedisLibrary) (setting : Setting) (repository_ids : String)
    (config : Option RedisConfig) (started : Started)
    → init_cache library setting repository_ids config ≡ creates started
    → (r : String) → repository_is_watched started.repositories r ≡ member r started.repo_ids
init_cache-watched library setting ids config started h r =
    let from = init_cache-memory library setting ids config started h in
    subst (λ x. repository_is_watched x.repositories r ≡ member r x.repo_ids) from.2
      (rw (watched-eq-member, repositories-add) refl)
