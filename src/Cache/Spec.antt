-- ===== src/Cache/Spec.antt =====
-- What the store promises, with no addresses: each repository has a list of events, oldest first.
use gitstafette.Common.{
  ℕ, String, Bool, true, false, not, List, [], ◌∷◌, ◌++◌, map, ◌==◌, ◌&&◌, ltb, length, member,
  keep, if◌then◌else◌,
}
use gitstafette.Event.{WebhookEventInternal}
use gitstafette.Cache.InMemory.{InMemoryStore, retrieve_events_for_repository}

abbrev pub Events : Type 0
Events = String → List WebhookEventInternal

abbrev pub event_ids : List WebhookEventInternal → List String
event_ids es = map (λ e. e.id) es

-- The events that `RetrieveEventsForRepository` gives, read through their addresses.
unfoldable pub view : InMemoryStore → Events
view s r = map s.heap.cell (retrieve_events_for_repository s r)

-- A new id is appended as not relayed, a known id changes nothing.
abbrev pub spec_insert : Events → String → WebhookEventInternal → Events × Bool
spec_insert v r e =
    let known = member e.id (event_ids (v r)) in
    (
      λ q. if r == q && not known then v r ++ record e { is_relayed = false } ∷ [] else v q,
      not known,
    )

-- Every event with the id goes.
abbrev pub spec_remove : Events → String → String → Events × Bool
spec_remove v r id =
    (λ q. if r == q then keep (λ e. not (e.id == id)) (v r) else v q, ltb 0 (length (v r)))

abbrev pub mark : ℕ → WebhookEventInternal → WebhookEventInternal
mark now e = record e { is_relayed = true; time_relayed = now }

-- Every event whose id was sent is relayed now.
abbrev pub spec_mark : ℕ → Events → String → List String → Events
spec_mark now v r sent q =
    if r == q then map (λ e. if member e.id sent then mark now e else e) (v r) else v q
