-- ===== src/System/Ledger.antt =====
-- What the goroutines of a server do to the events, with no addresses and no goroutines: a ledger of
-- the events of each repository, and the acts that change it.
use gitstafette.Common.{ℕ, ◌≡◌, String, false, List, ◌==◌, map, member, if◌then◌else◌}
use gitstafette.Event.{WebhookEventInternal}
use gitstafette.Cache.Spec.{Events, event_ids, spec_insert, spec_remove, spec_mark}
use gitstafette.Relay.{set_relayed}
use gitstafette.Server.Pending.{pending}

-- A relay marks the event with the id, without a time.
abbrev pub spec_relay : Events → String → String → Events
spec_relay v r id q =
    if r == q then map (λ e. if e.id == id then set_relayed e else e) (v q) else v q

-- Only what is not pending is dropped.
pub data Act (v : Events) : Events → Type 0 where
  stays : Act v v
  takes :
      (r : String) (e : WebhookEventInternal) → e.is_relayed ≡ false → Act v (spec_insert v r e).0
  marks : (now : ℕ) (r : String) (sent : List String) → Act v (spec_mark now v r sent)
  relays : (r id : String) → Act v (spec_relay v r id)
  drops :
      (r id : String) → member id (event_ids (pending (v r))) ≡ false → Act v (spec_remove v r id).0
