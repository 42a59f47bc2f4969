-- ===== src/Auth.antt =====
-- internal/grpc/interceptors.go and healthcheck.go, and the interceptor of cmd/server/main.go: who
-- may call the gRPC servers.
use gitstafette.Common.{
  ◌≡◌, ◌↔◌, ◌⊎◌, inl, inr, refl, sym, ◌∙◌, ap, String, Bool, true, false, not, Option, none, some,
  List, [], ◌∷◌, ◌==◌, ◌<>◌, eq_iff, eq_refl, subst, Option-cases, if◌then◌else◌,
}
use gitstafette.Common.Prefix.{strip_prefix, trim_prefix, strip-append, strip_sound, or_else}

-- `valid` of interceptors.go: only the first value counts.
unfoldable pub valid : List String → String → Bool
valid [] expected_token = false
valid (first ∷ rest) expected_token = trim_prefix first "Bearer " == expected_token

-- codes.InvalidArgument and codes.Unauthenticated, with their messages, or what the handler gives.
pub data Intercepted {ℓ} (A : Type ℓ) : Type ℓ where
  invalid_argument : String → Intercepted A
  unauthenticated : String → Intercepted A
  handled : A → Intercepted A

module _ {ℓ} {A : Type ℓ} where
  -- The authorization values of the metadata, if the call has metadata.
  abbrev pub with_token : String → Option (List String) → A → Intercepted A
  with_token oauth_token none result =
      invalid_argument "missing metadata when validating OAuth Token"
  with_token oauth_token (some authorization) result =
      if not (valid authorization oauth_token)
      then unauthenticated "OAuth Token Missing Or Not Valid"
      else handled result

  -- `oauth_token` is the variable OAUTH_TOKEN, if it is set.
  unfoldable pub validate_token : Option String → Option (List String) → A → Intercepted A
  validate_token none metadata result = handled result
  validate_token (some oauth_token) metadata result = with_token oauth_token metadata result

  -- `unaryInterceptor` of cmd/server/main.go, whose `valid` has its token written in.
  abbrev pub with_secret : Option (List String) → A → Intercepted A
  with_secret none result = invalid_argument "missing metadata"
  with_secret (some authorization) result =
      if not (valid authorization "some-secret-token")
      then unauthenticated "invalid token"
      else handled result

  unfoldable pub unary_interceptor : Option (List String) → A → Intercepted A
  unary_interceptor metadata result = with_secret metadata result

-- `HealthCheckService`: `Check` and `Watch` answer that they are serving, `List` has no entries.
pub data HealthAnswer : Type 0 where
  serving : HealthAnswer
  entries : List String → HealthAnswer

unfoldable pub health_check : HealthAnswer
health_check = serving

unfoldable pub health_watch : HealthAnswer
health_watch = serving

unfoldable pub health_list : HealthAnswer
health_list = entries []

trimmed_bare : (s : String) → strip_prefix "Bearer " s ≡ none → trim_prefix s "Bearer " ≡ s
unfolding trim_prefix
trimmed_bare s n = ap (λ o. or_else o s) n

trimmed : (s t : String) → strip_prefix "Bearer " s ≡ some t → trim_prefix s "Bearer " ≡ t
unfolding trim_prefix
trimmed s t e = ap (λ o. or_else o s) e

trimmed_bearer : (t : String) → trim_prefix ("Bearer " <> t) "Bearer " ≡ t
trimmed_bearer t = trimmed ("Bearer " <> t) t (strip-append "Bearer " t)

-- A first value is accepted if it is the token behind `Bearer `, or the bare token, provided that
-- this does not itself begin with `Bearer `.
pub valid_iff :
    (first : String) (rest : List String) (token : String)
    → (valid (first ∷ rest) token ≡ true)
      ↔ ((first ≡ "Bearer " <> token) ⊎ ((first ≡ token) × (strip_prefix "Bearer " token ≡ none)))
unfolding valid
valid_iff first rest token = (to_forms, from_forms)
  where
    to_forms :
        trim_prefix first "Bearer " == token ≡ true
        → (first ≡ "Bearer " <> token) ⊎ ((first ≡ token) × (strip_prefix "Bearer " token ≡ none))
    to_forms h = elim (Option-cases (strip_prefix "Bearer " first)) [
      | inl n ↦
          let e : first ≡ token = (eq_iff first token).0 (rw (trimmed_bare first n) at h) in
          inr (e, subst (λ x. strip_prefix "Bearer " x ≡ none) e n)
      | inr (t, some_t) ↦
          let e : t ≡ token = (eq_iff t token).0 (rw (trimmed first t some_t) at h) in
          inl (strip_sound "Bearer " first t some_t ∙ ap (λ x. "Bearer " <> x) e)
    ]

    from_forms :
        (first ≡ "Bearer " <> token) ⊎ ((first ≡ token) × (strip_prefix "Bearer " token ≡ none))
        → trim_prefix first "Bearer " == token ≡ true
    from_forms (inl e) = rw (e, trimmed_bearer) (eq_refl token)
    from_forms (inr (e, n)) =
        rw (trimmed_bare first (subst (λ x. strip_prefix "Bearer " x ≡ none) (sym e) n), e)
          (eq_refl token)

accepted :
    (b : Bool) {A : Type 0} (message : String) (result : A)
    → (if not b then unauthenticated message else handled result) ≡ handled result
    → b ≡ true
accepted true message result h = refl
accepted false message result h = cc

-- With a token set, the handler of a stream runs exactly for calls whose first authorization value
-- is the token, behind `Bearer ` or bare; every other call is turned away. With none set it runs
-- for every call.
pub validate_token_iff :
    {A : Type 0} (token : String) (metadata : Option (List String)) (result : A)
    → ((validate_token (some token) metadata result ≡ handled result) ↔ (
        (first : String) × (rest : List String) × (metadata ≡ some (first ∷ rest))
        × ((first ≡ "Bearer " <> token)
            ⊎ ((first ≡ token) × (strip_prefix "Bearer " token ≡ none)))))
      × (validate_token none metadata result ≡ handled result)
unfolding validate_token valid
validate_token_iff {A} token metadata result = ((runs metadata, lets_run), refl)
  where
    runs :
        (m : Option (List String))
        → with_token token m result ≡ handled result
        → (first : String) × (rest : List String) × (m ≡ some (first ∷ rest))
          × ((first ≡ "Bearer " <> token)
              ⊎ ((first ≡ token) × (strip_prefix "Bearer " token ≡ none)))
    runs none h = cc
    runs (some []) h = cc (accepted false "OAuth Token Missing Or Not Valid" result h)
    runs (some (first ∷ rest)) h = (
      first,
      rest,
      refl,
      (valid_iff first rest token).0
          (accepted (valid (first ∷ rest) token) "OAuth Token Missing Or Not Valid" result h),
    )

    lets_run :
        ((first : String) × (rest : List String) × (metadata ≡ some (first ∷ rest))
          × ((first ≡ "Bearer " <> token)
              ⊎ ((first ≡ token) × (strip_prefix "Bearer " token ≡ none))))
        → with_token token metadata result ≡ handled result
    lets_run (first, rest, e, form) = rw (e, (valid_iff first rest token).1 form) refl
