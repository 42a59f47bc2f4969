-- ===== src/System/Steps/Arrivals.antt =====
-- A request and a push keep the invariant.
use gitstafette.System.Arrival.{pushed-not_relayed}
use gitstafette.Server.{pushed_event}
use gitstafette.Common.{
  fun_ext, ℕ, ◌≡◌, inl, inr, refl, String, true, false, none, some, List, arith,
}
use gitstafette.Event.{WebhookEventInternal}
use gitstafette.Cache.InMemory.{InMemoryStore}
use gitstafette.Cache.Ingest.{insert}
use gitstafette.Cache.Watcher.{RepositoryWatcher}
use gitstafette.Server.{WebhookEventPushRequest, WebhookEventPushResponse, webhook_event_push}
use gitstafette.Webhook.Signature.{Mac}
use gitstafette.Webhook.{GitstafetteContext, handle_github_post}
use gitstafette.Webhook.Post.{target, incoming}
use gitstafette.System.{System, set_at, accept, is_created}
use gitstafette.System.Invariant.{Inv, with_insert, with_origin}
use gitstafette.System.Arrival.{post_inserts, push_inserts, incoming-not_relayed}

-- Nothing is taken where the answer is not 201.
accept_none : (r id : String) (f : String → List String) → accept false r id f ≡ f
accept_none r id f = fun_ext (λ q. ground arith)

module _ (w : RepositoryWatcher) (stream_of relay_of : ℕ → String) (s : System)
    (inv : Inv stream_of relay_of s) where
  pub keep_post :
      (mac : Mac) (now : ℕ) (ctx : GitstafetteContext)
      → Inv stream_of relay_of (record s {
        store = (handle_github_post mac now w s.store ctx).1;
        origin = set_at s.origin s.store.heap.next (target ctx);
        accepted =
            accept
              (is_created (handle_github_post mac now w s.store ctx).0)
              (target ctx)
              (incoming now ctx).id
              s.accepted;
      })
  keep_post mac now ctx = elim (post_inserts mac now w s.store ctx) [
    | inl (same, declined) ↦
        rw (same, declined, accept_none (target ctx) (incoming now ctx).id s.accepted)
          (with_origin stream_of relay_of s inv (target ctx))
    | inr (inserted, created) ↦
        rw (inserted, created)
          (with_insert stream_of relay_of s inv (target ctx) (incoming now ctx)
            (insert s.store (target ctx) (incoming now ctx)).1 (incoming-not_relayed now ctx)
            (λ h. h))
  ]

  pub keep_push :
      (now : ℕ) (request : WebhookEventPushRequest) (e : WebhookEventInternal)
      (store : InMemoryStore) (response : WebhookEventPushResponse)
      → pushed_event now request.webhook_event ≡ some e
      → webhook_event_push now s.store request ≡ some (store, response, none)
      → Inv stream_of relay_of (record s {
        store = store;
        origin = set_at s.origin s.store.heap.next request.repository_id;
        accepted = accept true request.repository_id e.id s.accepted;
      })
  keep_push now request e store response h k =
      rw (push_inserts now s.store store request e response h k) (
        with_insert stream_of relay_of s inv request.repository_id e true
          (pushed-not_relayed now request.webhook_event e h) (λ _. refl))
