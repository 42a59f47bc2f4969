-- ===== src/Webhook/Panics.antt =====
-- When `HandleGitHubPost` panics.
use gitstafette.Common.{
  ℕ, ap, sym, ◌∙◌, ◌≡◌, ◌≢◌, ◌↔◌, ◌⊎◌, inl, inr, refl, String, Bool, true, false, Option, none,
  some, List, [], ◌∷◌, ◌==◌, eq_iff, arith, slice_at, Bool-cases, if◌then◌else◌,
}
use gitstafette.Cache.InMemory.{InMemoryStore}
use gitstafette.Cache.Ingest.{HttpHeader, first_or_empty}
use gitstafette.Cache.Watcher.{RepositoryWatcher, repository_is_watched}
use gitstafette.Webhook.Signature.{Mac, computed_sha, validate_message_iff, signature_header}
use gitstafette.Webhook.{
  GitstafetteContext, panics, target_id_header, target_type_header, is_empty, not_repository,
  is_unacceptable, check_digest, handle_github_post,
}
use gitstafette.Webhook.Post.{has_values, target, cache_post_lem}

-- The test of a request that has headers, on the values of its target and of the target's type.
abbrev tested : List String → List String → Option Bool
tested ids types = if is_empty ids then some true else not_repository types

is_unacceptable-eq-tested :
    (hs : HttpHeader)
    → is_unacceptable hs ≡ tested (slice_at target_id_header hs) (slice_at target_type_header hs)
unfolding is_unacceptable
is_unacceptable-eq-tested [] = refl
is_unacceptable-eq-tested (x ∷ hs) = refl

tested-none : (ids types : List String) → (tested ids types ≡ none) ↔ ((ids ≢ []) × (types ≡ []))
tested-none [] types = (λ h. cc, λ h. absurd (h.0 refl))
tested-none (i ∷ ids) [] = (λ h. (λ e. cc, refl), λ h. refl)
tested-none (i ∷ ids) (t ∷ types) = (λ h. cc, λ h. absurd (cons_not_nil h.1))
  where
    cons_not_nil : t ∷ types ≢ []
    cons_not_nil e = cc

tested-false :
    (ids types : List String)
    → (tested ids types ≡ some false)
      ↔ ((ids ≢ []) × ((ts : List String) × (types ≡ "repository" ∷ ts)))
tested-false [] types = (λ h. cc, λ h. absurd (h.0 refl))
tested-false (i ∷ ids) [] = (λ h. cc, λ h. cc (h.1.1))
tested-false (i ∷ ids) (t ∷ types) = (
  λ h. (λ e. cc, (types, ap (λ x. x ∷ types) ((eq_iff t "repository").0 (ground (arith, h))))),
  λ h. ground (arith, eq_iff t "repository", h.1.1),
)

module _ (mac : Mac) (now : ℕ) (w : RepositoryWatcher) (s : InMemoryStore)
    (ctx : GitstafetteContext) where
  digest_iff : (check_digest mac ctx ≡ none) ↔ (
      (ctx.webhook_hmac ≡ "")
      ⊎ ((first_or_empty (slice_at signature_header ctx.headers) ≢ "")
          × (first_or_empty (slice_at signature_header ctx.headers)
              ≡ computed_sha mac ctx.webhook_hmac ctx.message_payload)))
  unfolding check_digest
  digest_iff =
      let valid =
        validate_message_iff mac ctx.webhook_hmac
          (first_or_empty (slice_at signature_header ctx.headers)) ctx.message_payload in
      elim (Bool-cases (ctx.webhook_hmac == "")) [
        | inl off ↦ (λ h. inl ((eq_iff ctx.webhook_hmac "").0 off), λ h. rw off refl)
        | inr on ↦ (
          λ h. inr (valid.0 (ground (arith, h, on))),
          λ h. elim h [
            | inl unset ↦ ground (arith, unset, on, eq_iff ctx.webhook_hmac "")
            | inr right ↦ rw on (valid.1 right)
          ],
        )
      ]

  panics_iff : ((handle_github_post mac now w s ctx).0 ≡ panics) ↔ (
      (is_unacceptable ctx.headers ≡ none)
      ⊎ ((is_unacceptable ctx.headers ≡ some false)
          × (check_digest mac ctx ≡ none)
          × (repository_is_watched w (target ctx) ≡ true)
          × (has_values ctx.headers ≡ false)))
  unfolding handle_github_post
  panics_iff =
      (ground (arith, cache_post_lem now w s ctx), ground (arith, cache_post_lem now w s ctx))

  -- A request makes the handler panic in just two cases: it names a target and no target type; or its
  -- target is a repository that is watched, its digest is the right one if a token is set, and one of
  -- its headers has no value.
  pub post_panics_iff : ((handle_github_post mac now w s ctx).0 ≡ panics) ↔ (
      ((slice_at target_id_header ctx.headers ≢ [])
        × (slice_at target_type_header ctx.headers ≡ []))
      ⊎ ((slice_at target_id_header ctx.headers ≢ [])
          × ((ts : List String) × (slice_at target_type_header ctx.headers ≡ "repository" ∷ ts))
          × ((ctx.webhook_hmac ≡ "")
              ⊎ ((first_or_empty (slice_at signature_header ctx.headers) ≢ "")
                  × (first_or_empty (slice_at signature_header ctx.headers)
                      ≡ computed_sha mac ctx.webhook_hmac ctx.message_payload)))
          × (repository_is_watched w (target ctx) ≡ true)
          × (has_values ctx.headers ≡ false)))
  post_panics_iff =
      let ids = slice_at target_id_header ctx.headers in
      let types = slice_at target_type_header ctx.headers in
      let test = is_unacceptable-eq-tested ctx.headers in
      (
        λ h. elim (panics_iff.0 h) [
          | inl index ↦ inl ((tested-none ids types).0 (sym test ∙ index))
          | inr (fine, verified, watched, bare) ↦
              let for_repository = (tested-false ids types).0 (sym test ∙ fine) in
              inr (for_repository.0, for_repository.1, digest_iff.0 verified, watched, bare)
        ],
        λ h. panics_iff.1 (elim h [
          | inl index ↦ inl (test ∙ (tested-none ids types).1 index)
          | inr (named, repository, verified, watched, bare) ↦ inr (
            test ∙ (tested-false ids types).1 (named, repository),
            digest_iff.1 verified,
            watched,
            bare,
          )
        ]),
      )
