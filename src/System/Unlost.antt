-- ===== src/System/Unlost.antt =====
-- What the ledger promises of an event that is not relayed, and what follows for the goroutines.
use gitstafette.Common.{
  ℕ, ◌≡◌, refl, String, true, false, not, List, [], ◌∷◌, ◌==◌, map, map-append, eq_iff, arith, keep,
  member, member-append, if◌then◌else◌,
}
use gitstafette.Event.{WebhookEventInternal}
use gitstafette.Cache.Spec.{Events, view, event_ids}
use gitstafette.Cache.Watcher.{RepositoryWatcher}
use gitstafette.Relay.Config.{RelayConfig}
use gitstafette.Relay.{set_relayed}
use gitstafette.Server.Pending.{pending, event_ids-mark_ids}
use gitstafette.System.{Step, System, Reach}
use gitstafette.System.Acts.{Reach-Act}
use gitstafette.System.Ledger.{Act, stays, takes, marks, relays, drops}

event_ids-relay :
    (id : String) (es : List WebhookEventInternal)
    → event_ids (map (λ e. if e.id == id then set_relayed e else e) es) ≡ event_ids es
event_ids-relay id [] = refl
event_ids-relay id (e ∷ es) = ground (arith, event_ids-relay id es)

member-pending :
    (x : String) (es : List WebhookEventInternal)
    → member x (event_ids (pending es)) ≡ true
    → member x (event_ids es) ≡ true
member-pending x [] m = m
member-pending x (e ∷ es) m = ground (arith, m, member-pending x es)

member-dropped :
    (id x : String) (es : List WebhookEventInternal)
    → member x (event_ids es) ≡ true
    → id == x ≡ false
    → member x (event_ids (keep (λ e. not (e.id == id)) es)) ≡ true
member-dropped id x [] m apart = m
member-dropped id x (e ∷ es) m apart =
    ground (arith, m, apart, member-dropped id x es, eq_iff e.id id, eq_iff e.id x, eq_iff id x)

-- No act on the ledger takes away an id of which there is an event that is not relayed.
Act-keeps :
    {v u : Events} (r x : String)
    → Act v u
    → member x (event_ids (pending (v r))) ≡ true
    → member x (event_ids (u r)) ≡ true
Act-keeps {v} r x stays m = member-pending x (v r) m
Act-keeps {v} r x (takes q e fresh) m = ground (
  arith,
  member-pending x (v r) m,
  eq_iff q r,
  map-append (λ (y : WebhookEventInternal). y.id) (v q) (record e { is_relayed = false } ∷ []),
  member-append x (event_ids (v q)) (e.id ∷ []),
)
Act-keeps {v} r x (marks now q sent) m =
    ground (arith, member-pending x (v r) m, eq_iff q r, event_ids-mark_ids now sent (v q))
Act-keeps {v} r x (relays q id) m =
    ground (arith, member-pending x (v r) m, eq_iff q r, event_ids-relay id (v r))
Act-keeps {v} r x (drops q id none_pending) m = ground (
  arith,
  m,
  none_pending,
  member-pending x (v r) m,
  eq_iff q r,
  eq_iff id x,
  member-dropped id x (v r),
)

-- In every state that is reached, whatever step comes next, an id of which a repository has an event
-- that is not relayed stays stored there.
pub Reach-unlost :
    (w : RepositoryWatcher) (relay : RelayConfig) (stream_of relay_of : ℕ → String) (s t : System)
    (r x : String)
    → Reach w relay stream_of relay_of s
    → Step w relay stream_of relay_of s t
    → member x (event_ids (pending (view s.store r))) ≡ true
    → member x (event_ids (view t.store r)) ≡ true
Reach-unlost w relay stream_of relay_of s t r x reached step m =
    Act-keeps r x (Reach-Act w relay stream_of relay_of s t reached step) m
