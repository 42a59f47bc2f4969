-- ===== src/Webhook/Post.antt =====
-- `HandleGitHubPost`: when an event is cached, and what the other answers leave alone.
use gitstafette.Common.{
  ℕ, ◌≡◌, ◌≢◌, ◌⊎◌, inl, inr, refl, String, Bool, true, false, not, Option, none, some, List, [],
  ◌∷◌, ◌++◌, map, ◌==◌, ◌<>◌, eq_iff, append_assoc, append-nil, arith, length, replicate, slice_at,
  member, all, Bool-cases, Option-cases, if◌then◌else◌,
}
use gitstafette.Event.{WebhookEventInternal, WebhookEventHeader, delivery_id_header}
use gitstafette.Cache.InMemory.{InMemoryStore}
use gitstafette.Cache.InMemory.Invariant.{IsWellFormed}
use gitstafette.Cache.Ingest.{
  HttpHeader, first_or_empty, insert, internal_event, append_headers, get_header, received,
  empty_header,
}
use gitstafette.Cache.Spec.{view, event_ids}
use gitstafette.Cache.Refinement.{view-insert_new, view-insert_known}
use gitstafette.Cache.Watcher.{RepositoryWatcher, repository_is_watched}
use gitstafette.Webhook.Signature.{Mac, computed_sha, validate_message_iff, signature_header}
use gitstafette.Webhook.{
  GitstafetteContext, answers, target_id_header, target_type_header, is_empty, not_repository,
  is_unacceptable, check_digest, cache_post, handle_github_post, reply_stored,
}

-- Every header of the request has a value, as net/http gives them.
abbrev pub has_values : HttpHeader → Bool
has_values = all (λ h. not (is_empty h.1))

abbrev pub first_values : HttpHeader → List WebhookEventHeader
first_values = map (λ h. record { key = h.0; first_value = first_or_empty h.1 })

append_headers_lem :
    (hs : HttpHeader) (found : List WebhookEventHeader)
    → append_headers hs found ≡ (if has_values hs then some (found ++ first_values hs) else none)
unfolding append_headers
append_headers_lem [] found = rw append-nil
append_headers_lem ((k, []) ∷ hs) found = refl
append_headers_lem ((k, v ∷ vs) ∷ hs) found =
    rw (append_headers_lem hs (found ++ record { key = k; first_value = v } ∷ []), append_assoc)
      refl

-- The event that the cache makes of a request.
unfoldable pub incoming : ℕ → GitstafetteContext → WebhookEventInternal
incoming now ctx =
    received now (get_header ctx.headers delivery_id_header) ctx.message_payload
      (replicate (length ctx.headers) empty_header ++ first_values ctx.headers)

abbrev pub target : GitstafetteContext → String
target ctx = first_or_empty (slice_at target_id_header ctx.headers)

pub cache_post_lem :
    (now : ℕ) (w : RepositoryWatcher) (s : InMemoryStore) (ctx : GitstafetteContext)
    → cache_post now w s ctx (target ctx) ≡ (
        if repository_is_watched w (target ctx)
        then reply_stored s (
            if has_values ctx.headers
            then some (
              (insert s (target ctx) (incoming now ctx)).0,
              (insert s (target ctx) (incoming now ctx)).1,
              none,
            )
            else none)
        else (answers 406 ("Target " <> target ctx <> " is not a watched repository"), s))
unfolding cache_post internal_event incoming
cache_post_lem now w s ctx =
    ground (arith, append_headers_lem ctx.headers (replicate (length ctx.headers) empty_header))

-- With a target named, the test is on the target type.
acceptable_lem :
    (hs : HttpHeader)
    → slice_at target_id_header hs ≢ []
    → is_unacceptable hs ≡ not_repository (slice_at target_type_header hs)
unfolding is_unacceptable
acceptable_lem [] h = absurd (h refl)
acceptable_lem (x ∷ hs) h = by_target (slice_at target_id_header (x ∷ hs)) h
  where
    by_target :
        {o : Option Bool} (ids : List String)
        → ids ≢ []
        → (if is_empty ids then some true else o) ≡ o
    by_target [] n = absurd (n refl)
    by_target (i ∷ ids) n = refl

module _ (mac : Mac) (now : ℕ) (w : RepositoryWatcher) (s : InMemoryStore)
    (ctx : GitstafetteContext) where
  unfoldable pub posted : InMemoryStore × Bool
  posted = insert s (target ctx) (incoming now ctx)

  -- The way to each answer that is not an early return.
  pub record IsCreated : Type 0 where
    pub acceptable : is_unacceptable ctx.headers ≡ some false
    pub verified : check_digest mac ctx ≡ none
    pub watched : repository_is_watched w (target ctx) ≡ true
    pub valued : has_values ctx.headers ≡ true
    pub stored : posted.1 ≡ true
    pub state : (handle_github_post mac now w s ctx).1 ≡ posted.0

  pub created_path :
      (text : String) → (handle_github_post mac now w s ctx).0 ≡ answers 201 text → IsCreated
  unfolding handle_github_post posted
  created_path text h = record {
    acceptable = ground (arith, cache_post_lem now w s ctx);
    verified = ground (arith, cache_post_lem now w s ctx);
    watched = ground (arith, cache_post_lem now w s ctx);
    valued = ground (arith, cache_post_lem now w s ctx);
    stored = ground (arith, cache_post_lem now w s ctx);
    state = ground (arith, cache_post_lem now w s ctx);
  }

  check_digest_iff :
      check_digest mac ctx ≡ none
      → (ctx.webhook_hmac ≡ "")
        ⊎ (first_or_empty (slice_at signature_header ctx.headers)
            ≡ computed_sha mac ctx.webhook_hmac ctx.message_payload)
  unfolding check_digest
  check_digest_iff h = elim (Bool-cases (ctx.webhook_hmac == "")) [
    | inl off ↦ inl ((eq_iff ctx.webhook_hmac "").0 off)
    | inr on ↦
        inr
          ((validate_message_iff mac ctx.webhook_hmac _ ctx.message_payload).0
            (ground (arith, h))).1
  ]

  -- On a well-formed store, an event is answered with 201 only for a watched repository, with the
  -- right digest if a token is set, and if its id is new there. It is then the last event of its
  -- repository, and nothing else has changed.
  pub post_created :
      IsWellFormed s
      → (text : String) → (handle_github_post mac now w s ctx).0 ≡ answers 201 text
      → ((ctx.webhook_hmac ≡ "")
          ⊎ (first_or_empty (slice_at signature_header ctx.headers)
              ≡ computed_sha mac ctx.webhook_hmac ctx.message_payload))
        × (repository_is_watched w (target ctx) ≡ true)
        × (member (incoming now ctx).id (event_ids (view s (target ctx))) ≡ false)
        × (view (handle_github_post mac now w s ctx).1
            ≡ (λ r. if target ctx == r then view s r ++ incoming now ctx ∷ [] else view s r))
  unfolding posted incoming
  post_created v text h =
      let p = created_path text h in
      let new = view-insert_new s (target ctx) (incoming now ctx) v p.stored in
      (check_digest_iff p.verified, p.watched, new.0, rw p.state new.1)

  not_created_path :
      ((handle_github_post mac now w s ctx).0 ≡ answers 201 "Repository event cached")
      ⊎ ((handle_github_post mac now w s ctx).1 ≡ s)
      ⊎ (((handle_github_post mac now w s ctx).1 ≡ posted.0) × (posted.1 ≡ false))
  unfolding handle_github_post posted
  not_created_path = ground (arith, cache_post_lem now w s ctx)

  -- If the handler does not answer 201, also if it panics, what a well-formed store holds stays as
  -- it was.
  pub post_not_created :
      IsWellFormed s
      → ((text : String) → (handle_github_post mac now w s ctx).0 ≢ answers 201 text)
      → view (handle_github_post mac now w s ctx).1 ≡ view s
  unfolding posted
  post_not_created v h = elim not_created_path [
    | inl created ↦ absurd (h _ created)
    | inr (inl same) ↦ rw same
    | inr (inr (state, known)) ↦
        rw state (view-insert_known s (target ctx) (incoming now ctx) v known)
  ]

  -- With a token set, a request for a repository whose digest is missing or is not the computed one
  -- is answered with 400, and changes nothing.
  pub post_forged :
      {ts : List String}
      → slice_at target_id_header ctx.headers ≢ []
      → slice_at target_type_header ctx.headers ≡ "repository" ∷ ts
      → ctx.webhook_hmac ≢ ""
      → (first_or_empty (slice_at signature_header ctx.headers)
          ≢ computed_sha mac ctx.webhook_hmac ctx.message_payload)
      → (text : String) × (handle_github_post mac now w s ctx ≡ (answers 400 text, s))
  unfolding handle_github_post
  post_forged h k token forged = elim (Option-cases (check_digest mac ctx)) [
    | inl fine ↦ absurd (ground (arith, check_digest_iff fine))
    | inr (e, wrong) ↦ (
      "Ran into an error validating the message digest: " <> e <> "\n",
      rw (acceptable_lem ctx.headers h, k, wrong) refl,
    )
  ]

  -- A request that passes all tests, for an event that is stored already.
  pub handle_known :
      is_unacceptable ctx.headers ≡ some false
      → check_digest mac ctx ≡ none
      → repository_is_watched w (target ctx) ≡ true
      → has_values ctx.headers ≡ true
      → (insert s (target ctx) (incoming now ctx)).1 ≡ false
      → handle_github_post mac now w s ctx ≡ (
        answers 204 "Repository event accepted but is already cached",
        (insert s (target ctx) (incoming now ctx)).0,
      )
  unfolding handle_github_post
  handle_known a d x y z = rw (a, d, cache_post_lem now w s ctx, x, y, z) refl
