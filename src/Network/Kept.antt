-- ===== src/Network/Kept.antt =====
-- What every move of a network keeps: where the events are that a server has taken.
use gitstafette.Common.{
  ℕ, ◌≡◌, refl, subst, String, Bool, false, ◌||◌, List, [], ◌∷◌, ◌++◌, eq_iff, arith, member,
  member-append,
}
use gitstafette.Event.{WebhookEvent}
use gitstafette.Event.RoundTrip.{Wire}
use gitstafette.Cache.InMemory.{InMemoryStore}
use gitstafette.Cache.InMemory.Invariant.{IsWellFormed}
use gitstafette.Cache.Spec.{view, event_ids}
use gitstafette.Cache.Watcher.{RepositoryWatcher}
use gitstafette.Client.{GrpcClientConfig, going, receive_events}
use gitstafette.Client.Round.{received_from}
use gitstafette.Relay.Config.{RelayConfig}
use gitstafette.Relay.{relay_tick}
use gitstafette.Relay.Pass.{relay_tick-IsWellFormed, event_ids-relay_tick}
use gitstafette.Server.Marking.{sent_ids}
use gitstafette.Webhook.Signature.{Mac}
use gitstafette.System.{System, Step, Reach, later, sends, holding, delivered, set_at, note}
use gitstafette.System.Reached.{Reach-Inv}
use gitstafette.Network.{
  HasMap, sends_on, Network, flatten, wire_ids, Move, serves, responds, receives, relays, reopens,
}
use gitstafette.Network.Received.{flatten-append, wire_ids-append, sent_ids-append, received_lem}
use gitstafette.Network.Own.{OwnIds}
use gitstafette.Network.Messages.{OwnPhase}
use gitstafette.Network.Steps.{Step-OwnIds, Step-OwnPhase, handed-Step}

module _ (w : RepositoryWatcher) (relay : RelayConfig) (stream_of relay_of : ℕ → String)
    (wire : Wire) (mac : Mac) (client : GrpcClientConfig) (target : RelayConfig) where
  -- What holds of every network that is reached.
  pub record IsAccounted (n : Network) : Type 0 where
    pub reached : Reach w relay stream_of relay_of n.system
    pub own : OwnIds n.system.store.heap
    pub own_streams : (i : ℕ) → OwnPhase (n.system.streams i)
    pub reads_own : stream_of n.reading ≡ client.repository_id
    pub handed_sent :
        (x : String) → member x (n.system.handed client.repository_id) ≡ member x (sent_ids n.sent)
    pub own_sent : wire_ids n.sent ≡ sent_ids n.sent
    pub well_formed : IsWellFormed n.cache
    pub account :
        (x : String)
        → member x (wire_ids n.sent) ≡ (
            member x (event_ids (view n.cache client.repository_id))
            || member x (wire_ids (flatten n.in_flight))
            || member x (wire_ids n.abandoned))

  module _ (n : Network) (v : IsAccounted n) where
    keep_serve :
        (t : System) (step : Step w relay stream_of relay_of n.system t)
        → HasMap w relay stream_of relay_of step
        → sends_on w relay stream_of relay_of client.repository_id step ≡ false
        → IsAccounted (record n { system = t })
    keep_serve t step has_map apart =
        let inv = Reach-Inv w relay stream_of relay_of v.reached in
        record {
          reached = later v.reached step;
          own = Step-OwnIds w relay stream_of relay_of n.system inv v.own step has_map;
          own_streams =
              Step-OwnPhase w relay stream_of relay_of n.system inv v.own v.own_streams step;
          reads_own = v.reads_own;
          handed_sent = λ x.
              rw (handed-Step w relay stream_of relay_of client.repository_id step apart)
                (v.handed_sent x);
          own_sent = v.own_sent;
          well_formed = v.well_formed;
          account = v.account;
        }

    keep_respond :
        (es : List WebhookEvent) (h : n.system.streams n.reading ≡ holding es)
        → IsAccounted (record n {
          system = record n.system {
            streams = set_at n.system.streams n.reading (delivered es);
            handed = note (stream_of n.reading) (sent_ids es) n.system.handed;
          };
          in_flight = n.in_flight ++ es ∷ [];
          sent = n.sent ++ es;
        })
    keep_respond es h =
        let inv = Reach-Inv w relay stream_of relay_of v.reached in
        let step = sends n.reading es h in
        let own_es : wire_ids es ≡ sent_ids es = subst OwnPhase h (v.own_streams n.reading) in
        record {
          reached = later v.reached step;
          own = v.own;
          own_streams =
              Step-OwnPhase w relay stream_of relay_of n.system inv v.own v.own_streams step;
          reads_own = v.reads_own;
          handed_sent = λ x. ground (
            arith,
            v.reads_own,
            v.handed_sent x,
            eq_iff (stream_of n.reading) client.repository_id,
            sent_ids-append n.sent es,
            member-append x (sent_ids es) (n.system.handed client.repository_id),
            member-append x (sent_ids n.sent) (sent_ids es),
          );
          own_sent = rw (wire_ids-append, sent_ids-append, v.own_sent, own_es) refl;
          well_formed = v.well_formed;
          account = λ x.
              rw
                (
                  flatten-append,
                  wire_ids-append n.sent es,
                  wire_ids-append (flatten n.in_flight) es,
                )
                (ground (
                  arith,
                  v.account x,
                  member-append x (wire_ids n.sent) (wire_ids es),
                  member-append x (wire_ids (flatten n.in_flight)) (wire_ids es),
                ));
        }

    keep_receive :
        (now : ℕ) (es : List WebhookEvent) (rest : List (List WebhookEvent)) (s : InMemoryStore)
        → n.in_flight ≡ es ∷ rest
        → receive_events mac client now (received_from wire es) n.cache ≡ going s
        → IsAccounted (record n { in_flight = rest; cache = s })
    keep_receive now es rest s h k =
        let got = received_lem wire mac client now es n.cache s v.well_formed k in
        let here : wire_ids (flatten n.in_flight) ≡ wire_ids es ++ wire_ids (flatten rest) =
          rw (h, wire_ids-append) refl in
        record {
          reached = v.reached;
          own = v.own;
          own_streams = v.own_streams;
          reads_own = v.reads_own;
          handed_sent = v.handed_sent;
          own_sent = v.own_sent;
          well_formed = got.0;
          account = λ x. ground (
            arith,
            v.account x,
            got.1 x,
            here,
            member-append x (wire_ids es) (wire_ids (flatten rest)),
          );
        }

    keep_relay :
        (works : ℕ → Bool)
        → IsAccounted
            (record n { cache = (relay_tick target client.repository_id works n.cache).0 })
    keep_relay works = record {
      reached = v.reached;
      own = v.own;
      own_streams = v.own_streams;
      reads_own = v.reads_own;
      handed_sent = v.handed_sent;
      own_sent = v.own_sent;
      well_formed = relay_tick-IsWellFormed target client.repository_id works n.cache v.well_formed;
      account = λ x. rw event_ids-relay_tick (v.account x);
    }

    keep_reopen :
        (i : ℕ)
        → stream_of i ≡ client.repository_id
        → IsAccounted (record n {
          reading = i;
          in_flight = [];
          abandoned = n.abandoned ++ flatten n.in_flight;
        })
    keep_reopen i same = record {
      reached = v.reached;
      own = v.own;
      own_streams = v.own_streams;
      reads_own = same;
      handed_sent = v.handed_sent;
      own_sent = v.own_sent;
      well_formed = v.well_formed;
      account = λ x. rw wire_ids-append (
          ground (
            arith,
            v.account x,
            member-append x (wire_ids n.abandoned) (wire_ids (flatten n.in_flight)),
          ));
    }

    pub keep_move :
        {m : Network} → Move w relay stream_of relay_of wire mac client target n m → IsAccounted m
    keep_move (serves t step has_map apart) = keep_serve t step has_map apart
    keep_move (responds es h) = keep_respond es h
    keep_move (receives now es rest s h k) = keep_receive now es rest s h k
    keep_move (relays works) = keep_relay works
    keep_move (reopens i same) = keep_reopen i same
