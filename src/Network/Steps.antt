-- ===== src/Network/Steps.antt =====
-- What a step of the server keeps of the ids of events and messages.
use gitstafette.Network.Own.{pushed-IsOwn}
use gitstafette.Server.{pushed_event}
use gitstafette.Common.{
  ℕ, ◌≡◌, refl, inl, inr, String, Bool, false, none, some, List, Distinct, arith,
}
use gitstafette.Event.{WebhookEvent, WebhookEventInternal}
use gitstafette.Cache.Heap.{write}
use gitstafette.Cache.InMemory.{InMemoryStore}
use gitstafette.Cache.Watcher.{RepositoryWatcher}
use gitstafette.Relay.Config.{RelayConfig}
use gitstafette.Relay.{relay_event}
use gitstafette.Relay.Cleanup.{heap-cleanup_events}
use gitstafette.Server.{
  fetched, retrieve_cached_events_for_repository, update_relay_status, webhook_event_push,
  WebhookEventPushRequest, WebhookEventPushResponse,
}
use gitstafette.Server.Changes.{retrieve_lem, unsent}
use gitstafette.Server.Marking.{sent_ids}
use gitstafette.Webhook.Signature.{Mac}
use gitstafette.Webhook.{GitstafetteContext, handle_github_post}
use gitstafette.Webhook.Delivered.{keys}
use gitstafette.Webhook.Post.{target, incoming}
use gitstafette.System.{
  System, Phase, waiting, holding, delivered, over, set_at, begin, Step, posts, pushes, retrieves,
  sends, marks, ends, fails, ticks, relays_one, passes, sweeps, sweeps_next, sweeps_one, sweeps_on,
  rests,
}
use gitstafette.System.Arrival.{post_inserts, push_inserts}
use gitstafette.System.Invariant.{Inv, set_at-all}
use gitstafette.System.Steps.Relays.{relays_event}
use gitstafette.Network.{HasMap, sends_on, wire_ids}
use gitstafette.Network.Own.{OwnIds, incoming-IsOwn, insert-OwnIds, mark_all-OwnIds}
use gitstafette.Network.Messages.{OwnPhase, unsent_own}

module _ (w : RepositoryWatcher) (relay : RelayConfig) (stream_of relay_of : ℕ → String)
    (s : System) (inv : Inv stream_of relay_of s) (own : OwnIds s.store.heap) where
  own_post :
      (mac : Mac) (now : ℕ) (ctx : GitstafetteContext) (m : Distinct (keys ctx.headers))
      → OwnIds (handle_github_post mac now w s.store ctx).1.heap
  own_post mac now ctx m = elim (post_inserts mac now w s.store ctx) [
    | inl (same, declined) ↦ rw same own
    | inr (inserted, created) ↦
        rw inserted
          (insert-OwnIds s.store (target ctx) (incoming now ctx) (incoming-IsOwn now ctx m) own)
  ]

  own_push :
      (now : ℕ) (request : WebhookEventPushRequest) (e : WebhookEventInternal)
      (store : InMemoryStore) (response : WebhookEventPushResponse)
      → pushed_event now request.webhook_event ≡ some e
      → webhook_event_push now s.store request ≡ some (store, response, none)
      → OwnIds store.heap
  own_push now request e store response h k =
      rw (push_inserts now s.store store request e response h k) (
        insert-OwnIds s.store request.repository_id e (pushed-IsOwn now request.webhook_event e h)
          own)

  own_relay :
      (i p : ℕ) (works : ℕ → Bool)
      → (relay_event relay (relay_of i) works p (begin s.store.heap)).exited ≡ false
      → OwnIds (relay_event relay (relay_of i) works p (begin s.store.heap)).heap
  unfolding write
  own_relay i p works x = elim (relays_event relay stream_of relay_of s inv i p works x) [
    | inl (already, same, none_sent) ↦ rw same own
    | inr (written, some_sent) ↦ rw written (λ q l. ground (arith, own q l))
  ]

  -- Objects that have been made keep the ids of their headers, and new ones have them.
  pub Step-OwnIds :
      {t : System} (step : Step w relay stream_of relay_of s t)
      → HasMap w relay stream_of relay_of step
      → OwnIds t.store.heap
  unfolding update_relay_status
  Step-OwnIds (posts mac now ctx) m = own_post mac now ctx m
  Step-OwnIds (pushes now request e store response h k) m =
      own_push now request e store response h k
  Step-OwnIds (retrieves i es h k) m = own
  Step-OwnIds (sends i es h) m = own
  Step-OwnIds (marks i now es h) m = mark_all-OwnIds now es _ s.store.heap own
  Step-OwnIds (ends i h) m = own
  Step-OwnIds (fails i es h) m = own
  Step-OwnIds (ticks i h) m = own
  Step-OwnIds (relays_one i p ps works h x) m = own_relay i p works x
  Step-OwnIds (passes i h) m = own
  Step-OwnIds (sweeps h) m = own
  Step-OwnIds (sweeps_next r rs h) m = own
  Step-OwnIds (sweeps_one now r p ps rs h) m = rw heap-cleanup_events own
  Step-OwnIds (sweeps_on r rs h) m = own
  Step-OwnIds (rests h) m = own

  retrieved_own :
      (i : ℕ) (es : List WebhookEvent)
      → retrieve_cached_events_for_repository w s.store (stream_of i) ≡ fetched es
      → wire_ids es ≡ sent_ids es
  retrieved_own i es h =
      let e : es ≡ unsent s.store (stream_of i) =
        ground (arith, retrieve_lem w s.store (stream_of i), h) in
      rw e (
        unsent_own s.store (stream_of i) (λ p m. own p (inv.lossless.made (stream_of i) p m).alive))

  module _ (held : (i : ℕ) → OwnPhase (s.streams i)) where
    turned : (i : ℕ) (p : Phase) → OwnPhase p → (j : ℕ) → OwnPhase (set_at s.streams i p j)
    turned i p h = set_at-all stream_of relay_of (λ j. OwnPhase) s.streams i p held h

    -- What a stream holds keeps the ids of its events.
    pub Step-OwnPhase :
        {t : System} → Step w relay stream_of relay_of s t → (i : ℕ) → OwnPhase (t.streams i)
    Step-OwnPhase (posts mac now ctx) = held
    Step-OwnPhase (pushes now request e store response h k) = held
    Step-OwnPhase (retrieves i es h k) = turned i (holding es) (retrieved_own i es k)
    Step-OwnPhase (sends i es h) = turned i (delivered es) tt
    Step-OwnPhase (marks i now es h) = turned i waiting tt
    Step-OwnPhase (ends i h) = turned i over tt
    Step-OwnPhase (fails i es h) = turned i over tt
    Step-OwnPhase (ticks i h) = held
    Step-OwnPhase (relays_one i p ps works h x) = held
    Step-OwnPhase (passes i h) = held
    Step-OwnPhase (sweeps h) = held
    Step-OwnPhase (sweeps_next r rs h) = held
    Step-OwnPhase (sweeps_one now r p ps rs h) = held
    Step-OwnPhase (sweeps_on r rs h) = held
    Step-OwnPhase (rests h) = held

-- A step that sends nothing of a repository on leaves the account of it.
pub handed-Step :
    (w : RepositoryWatcher) (relay : RelayConfig) (stream_of relay_of : ℕ → String) {s t : System}
    (r : String) (step : Step w relay stream_of relay_of s t)
    → sends_on w relay stream_of relay_of r step ≡ false
    → t.handed r ≡ s.handed r
handed-Step w relay stream_of relay_of r (posts mac now ctx) h = refl
handed-Step w relay stream_of relay_of r (pushes now request e store response k l) h = refl
handed-Step w relay stream_of relay_of r (retrieves i es k l) h = refl
handed-Step w relay stream_of relay_of r (sends i es k) h = ground (arith, h)
handed-Step w relay stream_of relay_of r (marks i now es k) h = refl
handed-Step w relay stream_of relay_of r (ends i k) h = refl
handed-Step w relay stream_of relay_of r (fails i es k) h = refl
handed-Step w relay stream_of relay_of r (ticks i k) h = refl
handed-Step w relay stream_of relay_of r (relays_one i p ps works k x) h = ground (arith, h)
handed-Step w relay stream_of relay_of r (passes i k) h = refl
handed-Step w relay stream_of relay_of r (sweeps k) h = refl
handed-Step w relay stream_of relay_of r (sweeps_next q rs k) h = refl
handed-Step w relay stream_of relay_of r (sweeps_one now q p ps rs k) h = refl
handed-Step w relay stream_of relay_of r (sweeps_on q rs k) h = refl
handed-Step w relay stream_of relay_of r (rests k) h = refl
