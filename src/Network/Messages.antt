-- ===== src/Network/Messages.antt =====
-- The messages that streams hold bear the ids of their events.
use gitstafette.Common.{ℕ, ◌≡◌, refl, String, true, List, [], ◌∷◌, map, arith, mem, slice_at}
use gitstafette.Event.{WebhookEventInternal, internal_to_external_event}
use gitstafette.Cache.Heap.{Heap}
use gitstafette.Cache.InMemory.{InMemoryStore}
use gitstafette.Cache.Refinement.{view-eq-map}
use gitstafette.Client.Round.{id_of-wire_headers, wire_headers_of}
use gitstafette.Server.Changes.{unsent}
use gitstafette.Server.Marking.{sent_ids}
use gitstafette.Server.Pending.{pending}
use gitstafette.System.{Phase, holding}
use gitstafette.Network.{wire_ids}
use gitstafette.Network.Own.{IsOwn}

-- What a stream has retrieved and not sent.
abbrev pub OwnPhase : Phase → Type 0
OwnPhase (holding es) = wire_ids es ≡ sent_ids es
OwnPhase _ = Unit {0}

own_message :
    (e : WebhookEventInternal)
    → IsOwn e
    → wire_ids (internal_to_external_event e ∷ []) ≡ sent_ids (internal_to_external_event e ∷ [])
unfolding internal_to_external_event wire_headers_of
own_message e own = cc (id_of-wire_headers e, own)

own_messages :
    (heap : Heap) (ps : List ℕ)
    → ((p : ℕ) → mem p ps ≡ true → IsOwn (heap.cell p))
    → wire_ids (map internal_to_external_event (pending (map heap.cell ps)))
      ≡ sent_ids (map internal_to_external_event (pending (map heap.cell ps)))
own_messages heap [] own = refl
own_messages heap (p ∷ ps) own = ground (
  arith,
  own_message (heap.cell p) (own p (ground arith)),
  own_messages heap ps (λ q m. own q (ground (arith, m))),
)

pub unsent_own :
    (s : InMemoryStore) (r : String)
    → ((p : ℕ) → mem p (slice_at r s.events) ≡ true → IsOwn (s.heap.cell p))
    → wire_ids (unsent s r) ≡ sent_ids (unsent s r)
unsent_own s r own = rw view-eq-map (own_messages s.heap (slice_at r s.events) own)
