-- ===== src/System/Steps.antt =====
-- Every step of the system keeps the invariant.
pub mod Arrivals
pub mod Streams
pub mod Relays
use gitstafette.Common.{
  fun_ext, member-append, ℕ, ◌<◌, ◌≡◌, ◌⊎◌, inl, inr, refl, subst, String, Bool, true, false, ◌&&◌,
  none, some, List, [], ◌∷◌, ◌==◌, eq_iff, arith, eqb, mem, member, slice_at, Bool-cases,
  if◌then◌else◌,
}
use gitstafette.Event.{WebhookEvent, WebhookEventInternal, external_to_internal_event}
use gitstafette.Cache.Heap.{Heap, write, ids}
use gitstafette.Cache.InMemory.{InMemoryStore, retrieve_events_for_repository}
use gitstafette.Cache.InMemory.Slices.{retrieve-eq-slice}
use gitstafette.Cache.Ingest.{insert}
use gitstafette.Cache.Spec.{view, event_ids}
use gitstafette.Cache.Refinement.{event_ids-view}
use gitstafette.Cache.Watcher.{RepositoryWatcher}
use gitstafette.Server.{
  WebhookEventPushRequest, WebhookEventPushResponse, webhook_event_push, fetched,
  retrieve_cached_events_for_repository, update_relay_status, mark_all,
}
use gitstafette.Server.Marking.{sent_ids, cell-mark_all, next-mark_all}
use gitstafette.Server.Pending.{pending}
use gitstafette.Server.Changes.{retrieve_lem, sent_ids-external, unsent}
use gitstafette.Webhook.Signature.{Mac}
use gitstafette.Webhook.{GitstafetteContext, handle_github_post, is_empty}
use gitstafette.Webhook.Post.{target, incoming}
use gitstafette.Relay.Config.{RelayConfig}
use gitstafette.Relay.{relay_event, set_relayed}
use gitstafette.Relay.Cleanup.{cleanup_events, is_due}
use gitstafette.System.{
  waiting, holding, delivered, over, idle, passing, resting, between, sweeping, System, set_at,
  note, accept, is_created, begin, Step, posts, pushes, retrieves, sends, marks, ends, fails, ticks,
  relays_one, passes, sweeps, sweeps_next, sweeps_one, sweeps_on, rests,
}
use gitstafette.System.Lossless.{member-note, member-note}
use gitstafette.System.Invariant.{
  Inv, StreamHolds, AllMade, PassHolds, SweepHolds, with_stream, with_relay, with_sweep,
  with_insert, with_origin, with_heap, with_remove,
}
use gitstafette.System.Arrival.{
  post_inserts, push_inserts, incoming-not_relayed, external-not_relayed,
}
use Arrivals.{keep_post, keep_push}
use Streams.{keep_retrieve, keep_send, keep_mark}
use Relays.{keep_sweep_one, keep_relay_one}

module _ (w : RepositoryWatcher) (relay : RelayConfig) (stream_of relay_of : ℕ → String)
    (s : System) (inv : Inv stream_of relay_of s) where
  -- Every step keeps the invariant.
  pub Step-Inv : {t : System} → Step w relay stream_of relay_of s t → Inv stream_of relay_of t
  Step-Inv (posts mac now ctx) = keep_post w stream_of relay_of s inv mac now ctx
  Step-Inv (pushes now request e store response h k) =
      keep_push w stream_of relay_of s inv now request e store response h k
  Step-Inv (retrieves i es h k) = keep_retrieve w stream_of relay_of s inv i es k
  Step-Inv (sends i es h) = keep_send w stream_of relay_of s inv i es h
  Step-Inv (marks i now es h) = keep_mark w stream_of relay_of s inv i now es h
  Step-Inv (ends i h) = with_stream stream_of relay_of s inv i over tt
  Step-Inv (fails i es h) = with_stream stream_of relay_of s inv i over tt
  Step-Inv (ticks i h) =
      with_relay stream_of relay_of s inv i
        (passing (retrieve_events_for_repository s.store (relay_of i)))
        (rw retrieve-eq-slice (inv.lossless.made (relay_of i)))
  Step-Inv (relays_one i p ps works h x) =
      keep_relay_one relay stream_of relay_of s inv i p ps works h x
  Step-Inv (passes i h) = with_relay stream_of relay_of s inv i idle tt
  Step-Inv (sweeps h) = with_sweep stream_of relay_of s inv (between w.repositories) tt
  Step-Inv (sweeps_next r rs h) =
      with_sweep stream_of relay_of s inv (sweeping r (retrieve_events_for_repository s.store r) rs)
        (rw retrieve-eq-slice (inv.lossless.made r))
  Step-Inv (sweeps_one now r p ps rs h) = keep_sweep_one stream_of relay_of s inv now r p ps rs h
  Step-Inv (sweeps_on r rs h) = with_sweep stream_of relay_of s inv (between rs) tt
  Step-Inv (rests h) = with_sweep stream_of relay_of s inv resting tt
