-- ===== src/Relay/Early.antt =====
-- The relay and the clean-up together.
use gitstafette.Common.{
  ℕ, ◌≡◌, ◌<◌, refl, String, Bool, true, false, not, ◌&&◌, List, [], ◌∷◌, map, eq_refl, arith, eqb,
  member, all,
}
use gitstafette.Event.{WebhookEventInternal}
use gitstafette.Cache.InMemory.{InMemoryStore}
use gitstafette.Cache.InMemory.Invariant.{IsWellFormed}
use gitstafette.Cache.Spec.{view}
use gitstafette.Relay.Config.{RelayConfig}
use gitstafette.Relay.{is_grpc, set_relayed, relay_tick}
use gitstafette.Relay.Pass.{view-relay_tick, relay_tick-IsWellFormed}
use gitstafette.Relay.Cleanup.{
  is_due, not_due, cleanup_tick, time_after_which_we_cleanup, view-cleanup_tick,
}

abbrev pub never_stamped : List WebhookEventInternal → Bool
never_stamped = all (λ e. eqb e.time_relayed 0)

none_left :
    (now : ℕ) (es : List WebhookEventInternal)
    → time_after_which_we_cleanup < now
    → never_stamped es ≡ true
    → not_due now (map set_relayed es) ≡ []
unfolding is_due
none_left now [] late z = refl
none_left now (e ∷ es) late z = ground (arith, none_left now es)

-- After a tick of the relay on a well-formed store, over HTTP or with every push succeeding, a
-- clean-up at any time later than two minutes after Go's zero time leaves no event of a watched
-- repository of which no event had a time of relay: since the relay sets none, the events are not
-- kept for two minutes.
pub cleanup-relay_tick :
    (relay : RelayConfig) (r : String) (works : ℕ → Bool) (now : ℕ) (rs : List String)
    (s : InMemoryStore)
    → ((p : ℕ) → (is_grpc relay && not (works p)) ≡ false)
    → IsWellFormed s
    → time_after_which_we_cleanup < now
    → member r rs ≡ true
    → never_stamped (view s r) ≡ true
    → view (cleanup_tick now rs (relay_tick relay r works s).0) r ≡ []
cleanup-relay_tick relay r works now rs s up v late watched z =
    rw
      (
        view-cleanup_tick now rs (relay_tick relay r works s).0
            (relay_tick-IsWellFormed relay r works s v) r,
        watched,
        view-relay_tick relay r works up s v,
        eq_refl,
      )
      (none_left now (view s r) late z)
