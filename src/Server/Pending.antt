-- ===== src/Server/Pending.antt =====
-- The events that a stream still has to send, and those that are relayed, in a list of events.
use gitstafette.Common.{
  ℕ, ◌≡◌, refl, String, Bool, true, false, not, ◌&&◌, ◌||◌, List, [], ◌∷◌, ◌++◌, map, eq_iff, arith,
  keep, keep-append, map-append, member, member-append, Distinct, if◌then◌else◌,
}
use gitstafette.Event.{WebhookEventInternal}
use gitstafette.Cache.Spec.{event_ids, mark}

abbrev pub pending : List WebhookEventInternal → List WebhookEventInternal
pending = keep (λ e. not e.is_relayed)

abbrev pub relayed : List WebhookEventInternal → List WebhookEventInternal
relayed = keep (λ e. e.is_relayed)

-- The events with one of the ids become relayed.
abbrev pub mark_ids : ℕ → List String → List WebhookEventInternal → List WebhookEventInternal
mark_ids now sent es = map (λ e. if member e.id sent then mark now e else e) es

pub member-keep :
    (p : WebhookEventInternal → Bool) (x : String) (es : List WebhookEventInternal)
    → member x (event_ids es) ≡ false
    → member x (event_ids (keep p es)) ≡ false
member-keep p x [] m = refl
member-keep p x (e ∷ es) m = ground (arith, member-keep p x es)

pub Distinct-keep :
    (p : WebhookEventInternal → Bool) (es : List WebhookEventInternal)
    → Distinct (event_ids es)
    → Distinct (event_ids (keep p es))
Distinct-keep p [] d = tt
Distinct-keep p (e ∷ es) d = ground (arith, member-keep p e.id es d.0, Distinct-keep p es d.1)

-- With distinct ids, an id of a relayed event is not that of a pending one.
pub pending_of_relayed :
    (x : String) (es : List WebhookEventInternal)
    → Distinct (event_ids es)
    → member x (event_ids (relayed es)) ≡ true
    → member x (event_ids (pending es)) ≡ false
pending_of_relayed x [] d m = refl
pending_of_relayed x (e ∷ es) d m = ground (
  arith,
  pending_of_relayed x es d.1,
  eq_iff e.id x,
  member-keep (λ y. y.is_relayed) e.id es d.0,
  member-keep (λ y. not y.is_relayed) e.id es d.0,
)

pub member-relayed-mark_ids :
    (now : ℕ) (sent : List String) (x : String) (es : List WebhookEventInternal)
    → member x (event_ids (relayed (mark_ids now sent es)))
      ≡ (member x (event_ids (relayed es)) || (member x (event_ids es) && member x sent))
member-relayed-mark_ids now sent x [] = refl
member-relayed-mark_ids now sent x (e ∷ es) =
    ground (arith, eq_iff e.id x, member-relayed-mark_ids now sent x es)

pub event_ids-mark_ids :
    (now : ℕ) (sent : List String) (es : List WebhookEventInternal)
    → event_ids (mark_ids now sent es) ≡ event_ids es
event_ids-mark_ids now sent [] = refl
event_ids-mark_ids now sent (e ∷ es) = ground (arith, event_ids-mark_ids now sent es)

-- Marking all pending ids leaves nothing pending.
pub pending-mark_ids :
    (now : ℕ) (sent : List String) (es : List WebhookEventInternal)
    → ((x : String) → member x (event_ids (pending es)) ≡ true → member x sent ≡ true)
    → pending (mark_ids now sent es) ≡ []
pending-mark_ids now sent [] h = refl
pending-mark_ids now sent (e ∷ es) h =
    ground
      (arith, h e.id, eq_iff e.id e.id, pending-mark_ids now sent es (λ x m. h x (ground arith)))

pub Distinct-append :
    (xs ys : List String)
    → Distinct xs
    → Distinct ys
    → ((x : String) → member x xs ≡ true → member x ys ≡ false)
    → Distinct (xs ++ ys)
Distinct-append [] ys dx dy h = dy
Distinct-append (x ∷ xs) ys dx dy h = ground (
  arith,
  h x,
  eq_iff x x,
  member-append x xs ys,
  Distinct-append xs ys dx.1 dy (λ y m. h y (ground arith)),
)

-- From one list to the other no event is lost, and none loses its mark.
pub record IsKept (es fs : List WebhookEventInternal) : Type 0 where
  pub stored : (x : String) → member x (event_ids es) ≡ true → member x (event_ids fs) ≡ true
  pub still_relayed :
      (x : String)
      → member x (event_ids (relayed es)) ≡ true
      → member x (event_ids (relayed fs)) ≡ true

pub IsKept-refl : (es : List WebhookEventInternal) → IsKept es es
IsKept-refl es = record { stored = λ x m. m; still_relayed = λ x m. m }

pub IsKept-trans :
    {es fs gs : List WebhookEventInternal} → IsKept es fs → IsKept fs gs → IsKept es gs
IsKept-trans h k = record {
  stored = λ x m. k.stored x (h.stored x m);
  still_relayed = λ x m. k.still_relayed x (h.still_relayed x m);
}

pub IsKept-append : (es fs : List WebhookEventInternal) → IsKept es (es ++ fs)
IsKept-append es fs = record {
  stored = λ x m. rw map-append (ground (arith, member-append x (event_ids es) (event_ids fs)));
  still_relayed = λ x m.
      rw (keep-append, map-append)
        (ground (arith, member-append x (event_ids (relayed es)) (event_ids (relayed fs))));
}

pub IsKept-mark_ids :
    (now : ℕ) (sent : List String) (es : List WebhookEventInternal)
    → IsKept es (mark_ids now sent es)
IsKept-mark_ids now sent es = record {
  stored = λ x m. rw event_ids-mark_ids m;
  still_relayed = λ x m. ground (arith, member-relayed-mark_ids now sent x es);
}
