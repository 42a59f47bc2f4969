-- ===== src/System/Arrival.antt =====
-- What a request and a push put into the store.
use gitstafette.Server.{pushed_event}
use gitstafette.Common.{
  ℕ, ◌≡◌, ◌⊎◌, inl, inr, refl, false, none, some, [], arith, Option, Option-cases,
}
use gitstafette.Event.{
  WebhookEvent, WebhookEventInternal, external_to_internal_event, collect_headers,
}
use gitstafette.Cache.InMemory.{InMemoryStore}
use gitstafette.Cache.Ingest.{insert, event}
use gitstafette.Cache.Watcher.{RepositoryWatcher}
use gitstafette.Server.{WebhookEventPushRequest, WebhookEventPushResponse, webhook_event_push}
use gitstafette.Webhook.Signature.{Mac}
use gitstafette.Webhook.{GitstafetteContext, handle_github_post}
use gitstafette.Webhook.Post.{target, incoming, cache_post_lem}
use gitstafette.System.{is_created}

-- A request leaves the store alone, or inserts its event, and is answered with 201 exactly if that
-- is stored.
pub post_inserts :
    (mac : Mac) (now : ℕ) (w : RepositoryWatcher) (s : InMemoryStore) (ctx : GitstafetteContext)
    → (((handle_github_post mac now w s ctx).1 ≡ s)
        × (is_created (handle_github_post mac now w s ctx).0 ≡ false))
      ⊎ (((handle_github_post mac now w s ctx).1 ≡ (insert s (target ctx) (incoming now ctx)).0)
          × (is_created (handle_github_post mac now w s ctx).0
              ≡ (insert s (target ctx) (incoming now ctx)).1))
unfolding handle_github_post
post_inserts mac now w s ctx = ground (arith, cache_post_lem now w s ctx)

pub incoming-not_relayed :
    (now : ℕ) (ctx : GitstafetteContext) → (incoming now ctx).is_relayed ≡ false
unfolding incoming
incoming-not_relayed now ctx = refl

pub external-not_relayed :
    (now : ℕ) (event : WebhookEvent) (e : WebhookEventInternal)
    → external_to_internal_event now event ≡ some e
    → e.is_relayed ≡ false
unfolding external_to_internal_event
external-not_relayed now event e h = elim (Option-cases (collect_headers event.headers "" [])) [
  | inl panics ↦ ground (arith, h, panics)
  | inr (found, ok) ↦ ground (arith, h, ok)
]

pub pushed-not_relayed :
    (now : ℕ) (event : Option WebhookEvent) (e : WebhookEventInternal)
    → pushed_event now event ≡ some e
    → e.is_relayed ≡ false
pushed-not_relayed now none e h = cc
pushed-not_relayed now (some event) e h = external-not_relayed now event e h

pub push_inserts :
    (now : ℕ) (s store : InMemoryStore) (request : WebhookEventPushRequest)
    (e : WebhookEventInternal) (response : WebhookEventPushResponse)
    → pushed_event now request.webhook_event ≡ some e
    → webhook_event_push now s request ≡ some (store, response, none)
    → store ≡ (insert s request.repository_id e).0
unfolding webhook_event_push event
push_inserts now s store request e response h k = elim (Option-cases request.webhook_event) [
  | inl missing ↦ ground (arith, h, missing)
  | inr (message, given) ↦ ground (arith, h, k, given)
]
