-- ===== src/Network/Delivery.antt =====
-- That the client can always get what the server has.
use gitstafette.Common.{
  ℕ, ◌≡◌, refl, subst, String, true, ◌||◌, List, [], ◌∷◌, ◌++◌, eq_iff, arith, member,
  member-append,
}
use gitstafette.Event.{WebhookEvent, WebhookEventInternal}
use gitstafette.Event.RoundTrip.{Wire}
use gitstafette.Cache.InMemory.{InMemoryStore}
use gitstafette.Cache.Spec.{view, event_ids}
use gitstafette.Cache.Watcher.{RepositoryWatcher, repository_is_watched}
use gitstafette.Client.{GrpcClientConfig}
use gitstafette.Client.Ingest.{receive_events_lem}
use gitstafette.Client.Round.{received_from}
use gitstafette.Relay.Config.{RelayConfig}
use gitstafette.Server.{fetched, retrieve_cached_events_for_repository}
use gitstafette.Server.Changes.{unsent, retrieve_lem, sent_ids-external}
use gitstafette.Server.Marking.{sent_ids}
use gitstafette.Server.Pending.{pending, relayed}
use gitstafette.Webhook.Signature.{Mac}
use gitstafette.System.{System, waiting, holding, delivered, set_at, note, retrieves}
use gitstafette.System.Reached.{Reach-keeps, Reach-relayed}
use gitstafette.Network.{Network, wire_ids, Reached, Moves, done, next, serves, responds, receives}
use gitstafette.Network.Kept.{IsAccounted, keep_move}
use gitstafette.Network.Accounted.{Reached-IsAccounted}
use gitstafette.Network.Received.{received-HasHeaders, read_headers}

pending_or_relayed :
    (x : String) (es : List WebhookEventInternal)
    → member x (event_ids es)
      ≡ (member x (event_ids (pending es)) || member x (event_ids (relayed es)))
pending_or_relayed x [] = refl
pending_or_relayed x (e ∷ es) = ground (arith, pending_or_relayed x es)

module _ (w : RepositoryWatcher) (relay : RelayConfig) (stream_of relay_of : ℕ → String)
    (wire : Wire) (mac : Mac) (client : GrpcClientConfig) (target : RelayConfig) where
  -- The client reads what is on the way, oldest first.
  reads_all :
      (n k : Network) (ess : List (List WebhookEvent))
      → Moves w relay stream_of relay_of wire mac client target k n
      → IsAccounted w relay stream_of relay_of wire mac client target n
      → n.in_flight ≡ ess
      → (s : InMemoryStore) × Moves w relay stream_of relay_of wire mac client target k
          (record n { in_flight = []; cache = s })
        × IsAccounted w relay stream_of relay_of wire mac client target
            (record n { in_flight = []; cache = s })
  reads_all n k [] moves v e = (
    n.cache,
    subst
        (λ ess.
          Moves w relay stream_of relay_of wire mac client target k (record n { in_flight = ess }))
        e moves,
    subst
        (λ ess.
          IsAccounted w relay stream_of relay_of wire mac client target
            (record n { in_flight = ess }))
        e v,
  )
  reads_all n k (es ∷ ess) moves v e =
      let got =
        receive_events_lem mac client 0 (received_from wire es) (read_headers wire es) n.cache
          (received-HasHeaders wire es) v.well_formed in
      let move = receives 0 es ess got.0 e got.1 in
      reads_all (record n { in_flight = ess; cache = got.0 }) k ess (next moves move)
        (keep_move w relay stream_of relay_of wire mac client target n v move) refl

  module _ (n : Network) (r : Reached w relay stream_of relay_of wire mac client target n)
      (watched : repository_is_watched w client.repository_id ≡ true)
      (waits : n.system.streams n.reading ≡ waiting) where
    response : List WebhookEvent
    response = unsent n.system.store client.repository_id

    after_retrieval : System
    after_retrieval = record n.system {
      streams = set_at n.system.streams n.reading (holding response);
    }

    v : IsAccounted w relay stream_of relay_of wire mac client target n
    v = Reached-IsAccounted w relay stream_of relay_of wire mac client target r

    can_retrieve :
        retrieve_cached_events_for_repository w n.system.store (stream_of n.reading)
        ≡ fetched response
    unfolding response
    can_retrieve =
        rw (v.reads_own, retrieve_lem w n.system.store client.repository_id, watched) refl

    holds : after_retrieval.streams n.reading ≡ holding response
    unfolding after_retrieval
    holds = ground arith

    sent_now : Network
    sent_now = record n {
      system = record after_retrieval {
        streams = set_at after_retrieval.streams n.reading (delivered response);
        handed = note (stream_of n.reading) (sent_ids response) n.system.handed;
      };
      in_flight = n.in_flight ++ response ∷ [];
      sent = n.sent ++ response;
    }

    sends_now : Moves w relay stream_of relay_of wire mac client target n sent_now
    unfolding sent_now after_retrieval
    sends_now =
        next
          (next done
            (serves after_retrieval (retrieves n.reading response waits can_retrieve) tt refl))
          (responds response holds)

    accounted_now : IsAccounted w relay stream_of relay_of wire mac client target sent_now
    unfolding sent_now after_retrieval
    accounted_now =
        let move =
          serves after_retrieval (retrieves n.reading response waits can_retrieve) tt refl in
        keep_move w relay stream_of relay_of wire mac client target
          (record n { system = after_retrieval })
          (keep_move w relay stream_of relay_of wire mac client target n v move)
          (responds response holds)

    -- Whatever was taken for the repository has been sent on now.
    all_handed :
        (x : String)
        → member x (n.system.accepted client.repository_id) ≡ true
        → member x (sent_now.system.handed client.repository_id) ≡ true
    unfolding sent_now after_retrieval response
    all_handed x m =
        let events = view n.system.store client.repository_id in
        let reached = accounted_now.reached in
        ground (
          arith,
          (Reach-keeps w relay stream_of relay_of sent_now.system reached client.repository_id x).0
              m,
          pending_or_relayed x events,
          Reach-relayed w relay stream_of relay_of sent_now.system reached client.repository_id x,
          sent_ids-external (pending events),
          v.reads_own,
          eq_iff (stream_of n.reading) client.repository_id,
          member-append x (sent_ids response) (n.system.handed client.repository_id),
        )

    was_taken :
        (x : String)
        → member x (sent_now.system.handed client.repository_id) ≡ true
        → member x (n.system.accepted client.repository_id) ≡ true
    unfolding sent_now after_retrieval
    was_taken x m =
        (Reach-keeps w relay stream_of relay_of sent_now.system accounted_now.reached
            client.repository_id x).1
          (ground (arith, m))

    -- Delivery is always possible. In every network that is reached, where the client reads a stream
    -- that waits, for a watched repository whose events are sent on to this client only, there are
    -- moves after which the server has taken the same ids, the client has turned from nothing more,
    -- nothing is on the way, and the ids that were taken for the repository are exactly those that the
    -- client has cached or that were on the way when it turned from an earlier stream.
    pub Reached-delivers :
        (m : Network) × Moves w relay stream_of relay_of wire mac client target n m
        × (m.system.accepted ≡ n.system.accepted)
        × (m.abandoned ≡ n.abandoned)
        × (m.in_flight ≡ [])
        × ((x : String)
            → member x (n.system.accepted client.repository_id) ≡ (
                member x (event_ids (view m.cache client.repository_id))
                || member x (wire_ids m.abandoned)))
    unfolding sent_now after_retrieval
    Reached-delivers =
        let read = reads_all sent_now n sent_now.in_flight sends_now accounted_now refl in
        let m : Network = record sent_now { in_flight = []; cache = read.0 } in
        (
          m,
          read.1,
          refl,
          refl,
          refl,
          λ x. ground (
            arith,
            all_handed x,
            was_taken x,
            read.2.handed_sent x,
            read.2.own_sent,
            read.2.account x,
          ),
        )
