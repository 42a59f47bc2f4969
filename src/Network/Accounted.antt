-- ===== src/Network/Accounted.antt =====
-- Where the events are that a server has taken for the repository of its client.
use gitstafette.Common.{ℕ, ◌≡◌, ◌↔◌, refl, String, Bool, true, ◌||◌, [], arith, member}
use gitstafette.Event.RoundTrip.{Wire}
use gitstafette.Cache.Heap.{Heap}
use gitstafette.Cache.InMemory.{new_in_memory_store, retrieve_events_for_repository}
use gitstafette.Cache.InMemory.Invariant.{new_in_memory_store-IsWellFormed}
use gitstafette.Cache.Spec.{view, event_ids}
use gitstafette.Cache.Watcher.{RepositoryWatcher}
use gitstafette.Client.{GrpcClientConfig}
use gitstafette.Relay.Config.{RelayConfig}
use gitstafette.Webhook.Signature.{Mac}
use gitstafette.System.{start, new_system}
use gitstafette.System.Reached.{Reach-keeps}
use gitstafette.Network.{Network, flatten, wire_ids, Reached, begins, moved}
use gitstafette.Network.Kept.{IsAccounted, keep_move}

module _ (w : RepositoryWatcher) (relay : RelayConfig) (stream_of relay_of : ℕ → String)
    (wire : Wire) (mac : Mac) (client : GrpcClientConfig) (target : RelayConfig) where
  begin_IsAccounted :
      (heap cache_heap : Heap) (otel_enabled meter_ok client_otel client_meter_ok : Bool) (i : ℕ)
      → heap.next ≡ 0
      → stream_of i ≡ client.repository_id
      → IsAccounted w relay stream_of relay_of wire mac client target (record {
        system = new_system heap otel_enabled meter_ok;
        reading = i;
        in_flight = [];
        cache = new_in_memory_store cache_heap client_otel client_meter_ok;
        sent = [];
        abandoned = [];
      })
  unfolding new_in_memory_store view retrieve_events_for_repository
  begin_IsAccounted heap cache_heap otel_enabled meter_ok client_otel client_meter_ok i none_made
        same =
      record {
        reached = start heap otel_enabled meter_ok none_made;
        own = λ p l. absurd (omega (arith, l, none_made));
        own_streams = λ j. tt;
        reads_own = same;
        handed_sent = λ x. refl;
        own_sent = refl;
        well_formed = new_in_memory_store-IsWellFormed cache_heap client_otel client_meter_ok;
        account = λ x. refl;
      }

  pub Reached-IsAccounted :
      {n : Network}
      → Reached w relay stream_of relay_of wire mac client target n
      → IsAccounted w relay stream_of relay_of wire mac client target n
  Reached-IsAccounted (begins heap cache_heap o m co cm i none_made none_cached same) =
      begin_IsAccounted heap cache_heap o m co cm i none_made same
  Reached-IsAccounted (moved {n} {m} r move) =
      keep_move w relay stream_of relay_of wire mac client target n (Reached-IsAccounted r) move

  -- No event is lost between the webhook endpoint and a client, except with a stream that the client
  -- leaves. In every network that is reached, whatever the order in which the server's goroutines,
  -- the connection, the client and its relay take their steps, if the events of the client's
  -- repository are sent on to this client only, an event id that was taken for it, by an answer of
  -- 201 or a push, is stored on the server, or has been cached by the client, or is on the way, or was
  -- on the way when the client turned from a stream; and each id in one of these places was taken.
  pub Reached-accounted :
      (n : Network)
      → Reached w relay stream_of relay_of wire mac client target n
      → (x : String)
      → (member x (n.system.accepted client.repository_id) ≡ true) ↔ (
          (member x (event_ids (view n.system.store client.repository_id))
            || member x (event_ids (view n.cache client.repository_id))
            || member x (wire_ids (flatten n.in_flight))
            || member x (wire_ids n.abandoned))
          ≡ true)
  Reached-accounted n r x =
      let v = Reached-IsAccounted r in
      let kept = Reach-keeps w relay stream_of relay_of n.system v.reached client.repository_id x in
      let same : member x (n.system.handed client.repository_id) ≡ member x (wire_ids n.sent) =
        rw v.own_sent (v.handed_sent x) in
      (
        λ m. ground (arith, kept.0 m, same, v.account x),
        λ m. kept.1 (ground (arith, m, same, v.account x)),
      )
