-- ===== src/System/Invariant.antt =====
-- What holds of every system that is reached, and that every step keeps it.
use gitstafette.Common.{
  ℕ, ◌<◌, ◌≡◌, inl, inr, subst, String, Bool, true, false, List, arith, eqb, mem, member,
  Bool-cases,
}
use gitstafette.Event.{WebhookEventInternal}
use gitstafette.Cache.Heap.{Heap}
use gitstafette.Cache.InMemory.{remove}
use gitstafette.Cache.InMemory.Slices.{heap-remove}
use gitstafette.Cache.Ingest.{insert}
use gitstafette.Server.Marking.{sent_ids}
use gitstafette.System.{
  Phase, waiting, holding, delivered, over, Pass, idle, passing, Sweep, resting, between, sweeping,
  System, set_at, note, accept,
}
use gitstafette.System.Lossless.{IsMade, IsLossless, member-accept, member-note}
use gitstafette.System.Lossless.Insertion.{
  IsMade-insert, IsMade-origin, origin-IsLossless, insert-IsLossless,
}
use gitstafette.System.Lossless.Writes.{IsMade-heap, heap-IsLossless, remove-IsLossless}

-- What a stream holds was taken, and what it has delivered was sent on.
abbrev pub StreamHolds : (String → List String) → (String → List String) → String → Phase → Type 0
StreamHolds accepted handed r waiting = Unit {0}
StreamHolds accepted handed r (holding es) =
    (x : String) → member x (sent_ids es) ≡ true → member x (accepted r) ≡ true
StreamHolds accepted handed r (delivered es) =
    (x : String) → member x (sent_ids es) ≡ true → member x (handed r) ≡ true
StreamHolds accepted handed r over = Unit {0}

abbrev pub AllMade : Heap → (ℕ → String) → (String → List String) → String → List ℕ → Type 0
AllMade heap origin accepted r ps = (p : ℕ) → mem p ps ≡ true → IsMade heap origin accepted r p

abbrev pub PassHolds : Heap → (ℕ → String) → (String → List String) → String → Pass → Type 0
PassHolds heap origin accepted r idle = Unit {0}
PassHolds heap origin accepted r (passing ps) = AllMade heap origin accepted r ps

abbrev pub SweepHolds : Heap → (ℕ → String) → (String → List String) → Sweep → Type 0
SweepHolds heap origin accepted resting = Unit {0}
SweepHolds heap origin accepted (between rs) = Unit {0}
SweepHolds heap origin accepted (sweeping r ps rs) = AllMade heap origin accepted r ps

-- A phase stays right where more is taken, made and sent on.
StreamHolds-mono :
    (a a' h h' : String → List String) (r : String) (p : Phase)
    → ((x : String) → member x (a r) ≡ true → member x (a' r) ≡ true)
    → ((x : String) → member x (h r) ≡ true → member x (h' r) ≡ true)
    → StreamHolds a h r p
    → StreamHolds a' h' r p
StreamHolds-mono a a' h h' r waiting f g v = tt
StreamHolds-mono a a' h h' r (holding es) f g v = λ x m. f x (v x m)
StreamHolds-mono a a' h h' r (delivered es) f g v = λ x m. g x (v x m)
StreamHolds-mono a a' h h' r over f g v = tt

module _ (h h' : Heap) (o o' : ℕ → String) (a a' : String → List String)
    (keeps : (r : String) (p : ℕ) → IsMade h o a r p → IsMade h' o' a' r p) where
  PassHolds-mono : (r : String) (p : Pass) → PassHolds h o a r p → PassHolds h' o' a' r p
  PassHolds-mono r idle v = tt
  PassHolds-mono r (passing ps) v = λ p m. keeps r p (v p m)

  SweepHolds-mono : (w : Sweep) → SweepHolds h o a w → SweepHolds h' o' a' w
  SweepHolds-mono resting v = tt
  SweepHolds-mono (between rs) v = tt
  SweepHolds-mono (sweeping r ps rs) v = λ p m. keeps r p (v p m)

module _ (stream_of relay_of : ℕ → String) where
  pub record Inv (s : System) : Type 0 where
    pub lossless : IsLossless s.store s.origin s.accepted s.handed
    pub streams_hold : (i : ℕ) → StreamHolds s.accepted s.handed (stream_of i) (s.streams i)
    pub relays_hold : (i : ℕ) → PassHolds s.store.heap s.origin s.accepted (relay_of i) (s.relays i)
    pub sweep_holds : SweepHolds s.store.heap s.origin s.accepted s.sweep

  pub set_at-all :
      {A : Type 0} (P : ℕ → A → Type 0) (f : ℕ → A) (i : ℕ) (a : A)
      → ((j : ℕ) → P j (f j))
      → P i a
      → (j : ℕ) → P j (set_at f i a j)
  set_at-all P f i a all new j = elim (Bool-cases (eqb i j)) [
    | inl same ↦ let e : i ≡ j = ground (arith, same) in rw same (subst (λ x. P x a) e new)
    | inr other ↦ rw other (all j)
  ]

  module _ (s : System) (inv : Inv s) where
    pub with_stream :
        (i : ℕ) (p : Phase)
        → StreamHolds s.accepted s.handed (stream_of i) p
        → Inv (record s { streams = set_at s.streams i p })
    with_stream i p h = record {
      lossless = inv.lossless;
      streams_hold =
          set_at-all (λ j. StreamHolds s.accepted s.handed (stream_of j)) s.streams i p
            inv.streams_hold h;
      relays_hold = inv.relays_hold;
      sweep_holds = inv.sweep_holds;
    }

    pub with_relay :
        (i : ℕ) (p : Pass)
        → PassHolds s.store.heap s.origin s.accepted (relay_of i) p
        → Inv (record s { relays = set_at s.relays i p })
    with_relay i p h = record {
      lossless = inv.lossless;
      streams_hold = inv.streams_hold;
      relays_hold =
          set_at-all (λ j. PassHolds s.store.heap s.origin s.accepted (relay_of j)) s.relays i p
            inv.relays_hold h;
      sweep_holds = inv.sweep_holds;
    }

    pub with_sweep :
        (w : Sweep) → SweepHolds s.store.heap s.origin s.accepted w → Inv (record s { sweep = w })
    with_sweep w h = record {
      lossless = inv.lossless;
      streams_hold = inv.streams_hold;
      relays_hold = inv.relays_hold;
      sweep_holds = h;
    }

    -- An arrival.
    pub with_insert :
        (r : String) (e : WebhookEventInternal) (b : Bool)
        → e.is_relayed ≡ false
        → ((insert s.store r e).1 ≡ true → b ≡ true)
        → Inv (record s {
          store = (insert s.store r e).0;
          origin = set_at s.origin s.store.heap.next r;
          accepted = accept b r e.id s.accepted;
        })
    with_insert r e b fresh noted =
        let keeps = IsMade-insert s.store r e b s.origin s.accepted in
        record {
          lossless =
              insert-IsLossless s.store s.origin s.accepted s.handed inv.lossless r e b fresh noted;
          streams_hold = λ i.
              StreamHolds-mono s.accepted (accept b r e.id s.accepted) s.handed s.handed
                (stream_of i) (s.streams i)
                (λ x m. member-accept b r e.id (stream_of i) x s.accepted m) (λ x m. m)
                (inv.streams_hold i);
          relays_hold = λ i.
              PassHolds-mono s.store.heap _ s.origin _ s.accepted _ keeps (relay_of i) (s.relays i)
                (inv.relays_hold i);
          sweep_holds =
              SweepHolds-mono s.store.heap _ s.origin _ s.accepted _ keeps s.sweep inv.sweep_holds;
        }

    -- The origin of the next address is noted, and nothing arrives.
    pub with_origin : (r : String) → Inv (record s { origin = set_at s.origin s.store.heap.next r })
    with_origin r =
        let keeps = IsMade-origin s.store.heap s.origin s.accepted r in
        record {
          lossless = origin-IsLossless s.store s.origin s.accepted s.handed inv.lossless r;
          streams_hold = inv.streams_hold;
          relays_hold = λ i.
              PassHolds-mono s.store.heap _ s.origin _ s.accepted _ keeps (relay_of i) (s.relays i)
                (inv.relays_hold i);
          sweep_holds =
              SweepHolds-mono s.store.heap _ s.origin _ s.accepted _ keeps s.sweep inv.sweep_holds;
        }

    -- Objects are marked, and more ids are noted as sent on.
    pub with_heap :
        (h : Heap) (r : String) (xs : List String)
        → h.next ≡ s.store.heap.next
        → ((p : ℕ) → (h.cell p).id ≡ (s.store.heap.cell p).id)
        → ((p : ℕ)
            → p < s.store.heap.next
            → (h.cell p).is_relayed ≡ true
            → member (s.store.heap.cell p).id (note r xs s.handed (s.origin p)) ≡ true)
        → ((x : String) → member x xs ≡ true → member x (s.accepted r) ≡ true)
        → Inv (record s { store = record s.store { heap = h }; handed = note r xs s.handed })
    with_heap h r xs same_next same_id told known =
        let keeps = IsMade-heap s.store.heap h s.origin s.accepted same_next same_id in
        record {
          lossless =
              heap-IsLossless s.store s.origin s.accepted s.handed inv.lossless h r xs same_next
                same_id told known;
          streams_hold = λ i.
              StreamHolds-mono s.accepted s.accepted s.handed (note r xs s.handed) (stream_of i)
                (s.streams i) (λ x m. m) (λ x m. member-note r xs (stream_of i) x s.handed m)
                (inv.streams_hold i);
          relays_hold = λ i.
              PassHolds-mono s.store.heap h s.origin s.origin s.accepted s.accepted keeps
                (relay_of i) (s.relays i) (inv.relays_hold i);
          sweep_holds =
              SweepHolds-mono s.store.heap h s.origin s.origin s.accepted s.accepted keeps s.sweep
                inv.sweep_holds;
        }

    -- An id that was sent on goes.
    pub with_remove :
        (r : String) (p : ℕ)
        → member (s.store.heap.cell p).id (s.handed r) ≡ true
        → Inv (record s { store = (remove s.store r p).0 })
    with_remove r p sent = record {
      lossless = remove-IsLossless s.store s.origin s.accepted s.handed inv.lossless r p sent;
      streams_hold = inv.streams_hold;
      relays_hold = λ i. rw heap-remove (inv.relays_hold i);
      sweep_holds = rw heap-remove inv.sweep_holds;
    }
