-- ===== src/Cache/Redis/Loss.antt =====
-- What the Redis store gives back of what was put in.
use gitstafette.Common.{
  ℕ, zero, suc, ◌+◌, ◌≡◌, refl, sym, ap, String, true, some, List, [], ◌∷◌, ◌++◌, arith, length,
}
use gitstafette.Event.{WebhookEventInternal}
use gitstafette.Cache.Redis.{
  Result, ok, err, RedisClient, IsListServer, Json, redis_store, stored, push, redis_count_events,
  pop_events, redis_retrieve_events,
}

pop_events-keeps :
    (c : RedisClient) (json : Json) (k : String) (n : ℕ) (events : List WebhookEventInternal)
    (s : c.Server)
    → (pop_events c json k n events s).0 ≡ events
unfolding pop_events
pop_events-keeps c json k zero events s = refl
pop_events-keeps c json k (suc n) events s =
    ground (arith, pop_events-keeps c json k n events (c.r_pop k s).1)

nil_of_length : (xs : List String) → length xs ≡ 0 → xs ≡ []
nil_of_length [] h = refl
nil_of_length (x ∷ xs) h = cc

-- The last item of a list of known length.
last_split :
    (n : ℕ) (xs : List String)
    → length xs ≡ suc n
    → (vs : List String) × (v : String) × (xs ≡ vs ++ v ∷ []) × (length vs ≡ n)
last_split n [] h = absurd (omega (arith, h))
last_split zero (x ∷ []) h = ([], x, refl, refl)
last_split zero (x ∷ y ∷ xs) h = absurd (omega (arith, h))
last_split (suc n) (x ∷ xs) h =
    let rest = last_split n xs (omega (arith, h)) in
    (x ∷ rest.0, rest.1, ground (arith, rest.2), omega (arith, rest.3))

module _ (c : RedisClient) (json : Json) (list_server : IsListServer c) where
  pop_events-drains :
      (k : String) (n : ℕ) (events : List WebhookEventInternal) (s : c.Server)
      → length (list_server.items s k) ≡ n
      → list_server.items (pop_events c json k n events s).1 k ≡ []
  unfolding pop_events
  pop_events-drains k zero events s h = nil_of_length (list_server.items s k) h
  pop_events-drains k (suc n) events s h =
      let parts = last_split n (list_server.items s k) h in
      let popped = list_server.r_pop_result k s parts.0 parts.1 parts.2 in
      let left = list_server.r_pop_items k s parts.0 parts.1 parts.2 in
      rw (popped, pop_events)
        (pop_events-drains k n events (c.r_pop k s).1 (omega (arith, ap length left, parts.3)))

  stored_lem : (x : Result ℕ × c.Server) (n : ℕ) → x.0 ≡ ok (n + 1) → stored c json x ≡ (true, x.1)
  stored_lem (ok m, s) n e = ground arith
  stored_lem (err m, s) n e = cc

  store_lem :
      (k text : String) (event : WebhookEventInternal) (s : c.Server)
      → json.marshal event ≡ some text
      → redis_store c json k event s ≡ (true, (c.l_push k text s).1)
  unfolding redis_store
  store_lem k text event s m =
      rw (m, push)
        (stored_lem (c.l_push k text s) (length (list_server.items s k))
          (list_server.l_push_result k text s))

  count_lem :
      (k : String) (s : c.Server) → redis_count_events c json k s ≡ length (list_server.items s k)
  unfolding redis_count_events
  count_lem k s = rw list_server.l_len_lem refl

  -- On a list server, an event that has a JSON text is accepted and put into the list. The next
  -- retrieval gives back nothing, and takes all events of the repository off the server.
  pub redis-loses :
      (k text : String) (event : WebhookEventInternal) (s : c.Server)
      → json.marshal event ≡ some text
      → ((redis_store c json k event s).0 ≡ true)
        × (list_server.items (redis_store c json k event s).1 k ≡ text ∷ list_server.items s k)
        × ((redis_retrieve_events c json k (redis_store c json k event s).1).0 ≡ [])
        × (list_server.items (redis_retrieve_events c json k (redis_store c json k event s).1).1 k
            ≡ [])
  unfolding redis_retrieve_events
  redis-loses k text event s m = rw (store_lem k text event s m) (
    refl,
    list_server.l_push_items k text s,
    pop_events-keeps c json k _ [] (c.l_push k text s).1,
    pop_events-drains k _ [] (c.l_push k text s).1 (sym (count_lem k (c.l_push k text s).1)),
  )
