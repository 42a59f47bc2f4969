-- ===== src/Examples/System.antt =====
-- A run of the goroutines: a request is taken, and a stream retrieves and sends its event.
use gitstafette.Common.{ℕ, ◌≡◌, refl, String, true, List, [], ◌∷◌, member}
use gitstafette.Event.{WebhookEvent}
use gitstafette.Cache.InMemory.{new_in_memory_store, store, retrieve_events_for_repository}
use gitstafette.Cache.Heap.{alloc}
use gitstafette.Cache.Ingest.{insert, internal_event}
use gitstafette.Cache.Spec.{view, event_ids}
use gitstafette.Cache.Watcher.{repository_is_watched}
use gitstafette.Server.Marking.{sent_ids}
use gitstafette.Webhook.Signature.{validate_message, computed_sha}
use gitstafette.Webhook.{handle_github_post}
use gitstafette.Webhook.Post.{target, incoming}
use gitstafette.System.{
  new_system, sweeping, Step, sweeps, sweeps_next, sweeps_one, sweeps_on, System, set_at, note,
  accept, is_created, holding, delivered, Reach, start, later, posts,
}
use gitstafette.System.Acts.{Reach-Act}
use gitstafette.System.Ledger.{Act}
use gitstafette.System.Unlost.{Reach-unlost}
use gitstafette.Relay.Cleanup.{cleanup_events}
use gitstafette.Server.Pending.{pending}
use gitstafette.Server.Changes.{unsent}
use gitstafette.Examples.{empty_heap, repo, watcher, toy_mac, ping, http_target}

abbrev of_repo : ℕ → String
of_repo i = repo

abbrev begun : System
begun = new_system empty_heap true true

abbrev taken : System
taken = record begun {
  store = (handle_github_post toy_mac 9 watcher begun.store ping).1;
  origin = set_at begun.origin begun.store.heap.next (target ping);
  accepted =
      accept (is_created (handle_github_post toy_mac 9 watcher begun.store ping).0) (target ping)
        (incoming 9 ping).id begun.accepted;
}

abbrev messages : List WebhookEvent
messages = unsent taken.store repo

abbrev sent_on : System
sent_on = record taken {
  streams = set_at (set_at taken.streams 0 (holding messages)) 0 (delivered messages);
  handed = note repo (sent_ids messages) taken.handed;
}

-- The clean-up comes to the event before a stream does.
abbrev cleaning : System
cleaning = record taken {
  sweep = sweeping repo (retrieve_events_for_repository taken.store repo) [];
}

cleaning-Reach : Reach watcher http_target of_repo of_repo cleaning
unfolding handle_github_post retrieve_events_for_repository validate_message computed_sha
    internal_event insert store new_in_memory_store repository_is_watched
cleaning-Reach =
    later
      (later
        (later
          (later (later (start empty_heap true true refl) (posts toy_mac 9 ping)) (sweeps refl))
          (sweeps_next "12345" (repo ∷ []) refl))
        (sweeps_on "12345" (repo ∷ []) refl))
      (sweeps_next repo [] refl)

abbrev cleaned : System
cleaned = record cleaning {
  store = cleanup_events 1_000_000_000_000 repo (0 ∷ []) cleaning.store;
  sweep = sweeping repo [] [];
}

cleans : Step watcher http_target of_repo of_repo cleaning cleaned
unfolding handle_github_post retrieve_events_for_repository validate_message computed_sha
    internal_event insert store new_in_memory_store repository_is_watched
cleans = sweeps_one 1_000_000_000_000 repo 0 [] [] refl

still_pending : member "b" (event_ids (pending (view cleaning.store repo))) ≡ true
unfolding view handle_github_post retrieve_events_for_repository validate_message computed_sha
    internal_event insert store new_in_memory_store repository_is_watched alloc
still_pending = refl

Reach-unlost_example : member "b" (event_ids (view cleaned.store repo)) ≡ true
Reach-unlost_example =
    Reach-unlost watcher http_target of_repo of_repo cleaning cleaned repo "b" cleaning-Reach cleans
      still_pending

Reach-Act_example : Act (view cleaning.store) (view cleaned.store)
Reach-Act_example =
    Reach-Act watcher http_target of_repo of_repo cleaning cleaned cleaning-Reach cleans
