-- ===== src/Cache/Redis.antt =====
-- internal/cache/redis.go: the store that keeps its events in a Redis list for each repository.
pub mod Loss
use gitstafette.Common.{
  ℕ, zero, suc, ◌+◌, ◌≡◌, refl, String, Bool, true, false, Option, none, some, List, [], ◌∷◌, ◌++◌,
  ◌==◌, ◌||◌, eqb, arith, length, append-nil, length-append, if◌then◌else◌,
}
use gitstafette.Event.{WebhookEventInternal}

-- github.com/go-redis/redis: the commands that the store uses, over the state of the server. A
-- result is an error or a value.
pub data Result {ℓ} (A : Type ℓ) : Type ℓ where
  ok : A → Result A
  err : String → Result A

pub record RedisClient : Type 1 where
  pub Server : Type 0
  pub l_push : String → String → Server → Result ℕ × Server
  pub r_pop : String → Server → Result String × Server
  pub l_len : String → Server → Result ℕ

-- What the documentation says of a server that answers: each key has a list, `LPUSH` puts in front,
-- `RPOP` takes the last, `LLEN` counts.
pub record IsListServer (c : RedisClient) : Type 0 where
  pub items : c.Server → String → List String
  pub l_len_lem : (k : String) (s : c.Server) → c.l_len k s ≡ ok (length (items s k))
  pub l_push_result :
      (k v : String) (s : c.Server) → (c.l_push k v s).0 ≡ ok (length (items s k) + 1)
  pub l_push_items : (k v : String) (s : c.Server) → items (c.l_push k v s).1 k ≡ v ∷ items s k
  pub r_pop_result :
      (k : String) (s : c.Server) (vs : List String) (v : String)
      → items s k ≡ vs ++ v ∷ []
      → (c.r_pop k s).0 ≡ ok v
  pub r_pop_items :
      (k : String) (s : c.Server) (vs : List String) (v : String)
      → items s k ≡ vs ++ v ∷ []
      → items (c.r_pop k s).1 k ≡ vs

-- `json.Marshal` and `json.Unmarshal` of Go's library, for events; `none` is an error.
pub record Json : Type 0 where
  pub marshal : WebhookEventInternal → Option String
  pub unmarshal : String → Option WebhookEventInternal

module _ (c : RedisClient) (json : Json) where
  abbrev pub stored : Result ℕ × c.Server → Bool × c.Server
  stored (ok n, s) = (if eqb n 0 then false else true, s)
  stored (err e, s) = (false, s)

  abbrev pub push : String → Option String → c.Server → Bool × c.Server
  push repository_id none s = (false, s)
  push repository_id (some text) s = stored (c.l_push repository_id text s)

  unfoldable pub redis_store : String → WebhookEventInternal → c.Server → Bool × c.Server
  redis_store repository_id event s = push repository_id (json.marshal event) s

  abbrev pub count_of : Result ℕ → ℕ
  count_of (ok n) = n
  count_of (err e) = 0

  unfoldable pub redis_count_events : String → c.Server → ℕ
  redis_count_events repository_id s = count_of (c.l_len repository_id s)

  -- The loop of `RetrieveEventsForRepository`, for the rounds that are left. The event that a round
  -- reads is a local variable of the round, and `events` stays as it is.
  unfoldable pub pop_events :
      String → ℕ → List WebhookEventInternal → c.Server → List WebhookEventInternal × c.Server
  pop_events repository_id zero events s = (events, s)
  pop_events repository_id (suc n) events s =
      let (popped, s') = c.r_pop repository_id s in
      elim popped [
        | err e ↦ (events, s')
        | ok text ↦
            let event : Option WebhookEventInternal = json.unmarshal text in
            pop_events repository_id n events s'
      ]

  unfoldable pub redis_retrieve_events : String → c.Server → List WebhookEventInternal × c.Server
  unfolding pop_events redis_count_events
  redis_retrieve_events repository_id s =
      pop_events repository_id (redis_count_events repository_id s) [] s

  unfoldable pub redis_remove : String → WebhookEventInternal → c.Server → Bool × c.Server
  redis_remove repository_id event s = (false, s)
