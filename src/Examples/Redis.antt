-- ===== src/Examples/Redis.antt =====
-- A test of the Redis store, on a server that keeps a list for each key.
use gitstafette.Common.{
  ◌+◌, ◌≡◌, refl, ap, String, true, some, List, [], ◌∷◌, ◌++◌, ◌==◌, eq_refl, length, if◌then◌else◌,
}
use gitstafette.Cache.Redis.{
  Result, ok, err, RedisClient, IsListServer, Json, redis_store, redis_retrieve_events,
}
use gitstafette.Cache.Redis.Loss.{redis-loses}
use gitstafette.Examples.{event_named, repo}

abbrev cons_to : String → Result String × List String → Result String × List String
cons_to x (ok v, vs) = (ok v, x ∷ vs)
cons_to x (err e, vs) = (err e, x ∷ vs)

abbrev pop_last : List String → Result String × List String
pop_last [] = (err "redis: nil", [])
pop_last (x ∷ []) = (ok x, [])
pop_last (x ∷ y ∷ ys) = cons_to x (pop_last (y ∷ ys))

pop_last_lem : (vs : List String) (v : String) → pop_last (vs ++ v ∷ []) ≡ (ok v, vs)
pop_last_lem [] v = refl
pop_last_lem (x ∷ []) v = refl
pop_last_lem (x ∷ y ∷ vs) v = ap (cons_to x) (pop_last_lem (y ∷ vs) v)

abbrev list_client : RedisClient
list_client = record {
  Server = String → List String;
  l_push = λ k v s. (ok (length (s k) + 1), λ j. if j == k then v ∷ s k else s j);
  r_pop = λ k s. ((pop_last (s k)).0, λ j. if j == k then (pop_last (s k)).1 else s j);
  l_len = λ k s. ok (length (s k));
}

list_client-IsListServer : IsListServer list_client
list_client-IsListServer = record {
  items = λ s k. s k;
  l_len_lem = λ k s. refl;
  l_push_result = λ k v s. refl;
  l_push_items = λ k v s. rw eq_refl refl;
  r_pop_result = λ k s vs v e. rw (e, pop_last_lem) refl;
  r_pop_items = λ k s vs v e. rw (eq_refl, e, pop_last_lem) refl;
}

abbrev ids_only : Json
ids_only = record { marshal = λ e. some e.id; unmarshal = λ text. some (event_named text) }

redis-loses_example :
    ((redis_store list_client ids_only repo (event_named "a") (λ k. [])).0 ≡ true)
    × ((redis_store list_client ids_only repo (event_named "a") (λ k. [])).1 repo ≡ "a" ∷ [])
    × ((redis_retrieve_events list_client ids_only repo
          (redis_store list_client ids_only repo (event_named "a") (λ k. [])).1).0
        ≡ [])
    × ((redis_retrieve_events list_client ids_only repo
            (redis_store list_client ids_only repo (event_named "a") (λ k. [])).1).1
          repo
        ≡ [])
unfolding redis_store list_client-IsListServer redis_retrieve_events
redis-loses_example =
    redis-loses list_client ids_only list_client-IsListServer repo "a" (event_named "a") (λ k. [])
      refl
