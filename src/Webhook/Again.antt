-- ===== src/Webhook/Again.antt =====
-- `HandleGitHubPost`, given the same request twice.
use gitstafette.Common.{
  ℕ, ◌≡◌, refl, String, true, false, eq_iff, eq_refl, arith, member-append, map-append,
}
use gitstafette.Event.{WebhookEventInternal}
use gitstafette.Cache.InMemory.{InMemoryStore}
use gitstafette.Cache.InMemory.Invariant.{IsWellFormed}
use gitstafette.Cache.Ingest.{insert}
use gitstafette.Cache.Ingest.Invariant.{insert-IsWellFormed}
use gitstafette.Cache.Spec.{view}
use gitstafette.Cache.Refinement.{insert-result, view-insert_new, view-insert_known}
use gitstafette.Cache.Watcher.{RepositoryWatcher}
use gitstafette.Webhook.Signature.{Mac}
use gitstafette.Webhook.{GitstafetteContext, answers, handle_github_post}
use gitstafette.Webhook.Post.{target, incoming, created_path, handle_known, posted}

insert_again :
    (s : InMemoryStore) (r : String) (e f : WebhookEventInternal)
    → IsWellFormed s
    → (insert s r e).1 ≡ true
    → f.id ≡ e.id
    → (insert (insert s r e).0 r f).1 ≡ false
insert_again s r e f v new same =
    rw
      (
        insert-result (insert s r e).0 r f (insert-IsWellFormed s r e v),
        (view-insert_new s r e v new).1,
        eq_refl,
        map-append,
        member-append,
        same,
      )
      (ground (arith, eq_iff e.id e.id))

id-incoming :
    (now later : ℕ) (ctx : GitstafetteContext) → (incoming later ctx).id ≡ (incoming now ctx).id
unfolding incoming
id-incoming now later ctx = refl

-- On a well-formed store, a request that was answered with 201 is answered with 204 when it comes
-- again, at any time, and what the store holds stays as it is after the first.
pub post_again :
    (mac : Mac) (now later : ℕ) (w : RepositoryWatcher) (s : InMemoryStore)
    (ctx : GitstafetteContext)
    → IsWellFormed s
    → (text : String) → (handle_github_post mac now w s ctx).0 ≡ answers 201 text
    → let s' = (handle_github_post mac now w s ctx).1 in
      ((handle_github_post mac later w s' ctx).0
        ≡ answers 204 "Repository event accepted but is already cached")
      × (view (handle_github_post mac later w s' ctx).1 ≡ view s')
unfolding posted
post_again mac now later w s ctx v text h =
    let p = created_path mac now w s ctx text h in
    let s' = (insert s (target ctx) (incoming now ctx)).0 in
    let known =
      insert_again s (target ctx) (incoming now ctx) (incoming later ctx) v p.stored
        (id-incoming now later ctx) in
    let again = handle_known mac later w s' ctx p.acceptable p.verified p.watched p.valued known in
    rw (p.state, again)
      (
        refl,
        view-insert_known s' (target ctx) (incoming later ctx)
            (insert-IsWellFormed s (target ctx) (incoming now ctx) v) known,
      )
