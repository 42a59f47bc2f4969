-- ===== src/Client/Kept.antt =====
-- What a client has cached stays in its cache, over all its streams.
use gitstafette.Common.{
  ℕ, ◌<>◌, ◌≡◌, String, Bool, true, false, none, some, List, [], ◌∷◌, ltb, member, Bool-cases,
  Option-cases, inl, inr,
}
use gitstafette.Event.{WebhookEvent, WebhookEventInternal, external_to_internal_event}
use gitstafette.Cache.InMemory.{InMemoryStore}
use gitstafette.Cache.InMemory.Invariant.{IsWellFormed}
use gitstafette.Cache.Ingest.{GoError, insert, event}
use gitstafette.Cache.Ingest.Invariant.{insert-IsWellFormed}
use gitstafette.Cache.Spec.{view, event_ids}
use gitstafette.Server.Pending.{IsKept, IsKept-refl, IsKept-trans}
use gitstafette.Server.Changes.{insert-IsKept}
use gitstafette.Webhook.Signature.{Mac, validate_event}
use gitstafette.Client.{
  GrpcServerConfig, create_grpc_options, NewClient, StreamErrors, closed, exited, GrpcClientConfig,
  Ended, returned, panicked, Handling, going, ended, receive_event, receive_events, Wake, response,
  end_of_stream, receive_error, stream_done, main_done, stream_loop, handle_webhook_event_stream,
  stream_finish,
}
use gitstafette.Client.Main.{Turn, Finish, closing, fatal, crashed, client_loop}

abbrev pub store_of : Handling → InMemoryStore
store_of (going s) = s
store_of (ended how s) = s

-- The store stays well formed, and its repositories lose nothing.
pub record Grows (s s' : InMemoryStore) : Type 0 where
  pub well_formed : IsWellFormed s → IsWellFormed s'
  pub kept : IsWellFormed s → (r : String) → IsKept (view s r) (view s' r)

Grows-refl : (s : InMemoryStore) → Grows s s
Grows-refl s = record { well_formed = λ v. v; kept = λ v r. IsKept-refl (view s r) }

Grows-trans : {s t u : InMemoryStore} → Grows s t → Grows t u → Grows s u
Grows-trans g h = record {
  well_formed = λ v. h.well_formed (g.well_formed v);
  kept = λ v r. IsKept-trans (g.kept v r) (h.kept (g.well_formed v) r);
}

Grows-insert :
    (s : InMemoryStore) (r : String) (e : WebhookEventInternal) → Grows s (insert s r e).0
Grows-insert s r e = record {
  well_formed = insert-IsWellFormed s r e;
  kept = λ v q. insert-IsKept s r e q v;
}

Grows-receive_event :
    (mac : Mac) (client : GrpcClientConfig) (now : ℕ) (e : WebhookEvent) (s : InMemoryStore)
    → Grows s (store_of (receive_event mac client now e s))
unfolding receive_event event
Grows-receive_event mac client now e s =
    elim (Option-cases (validate_event mac client.webhook_hmac e)) [
      | inl panics ↦ rw panics (Grows-refl s)
      | inr (found, valid) ↦ rw valid (elim (Option-cases (external_to_internal_event now e)) [
        | inl panics ↦ rw panics (Grows-refl s)
        | inr (parsed, read) ↦ rw read (Grows-insert s client.repository_id parsed)
      ])
    ]

Grows-receive_events :
    (mac : Mac) (client : GrpcClientConfig) (now : ℕ) (es : List WebhookEvent) (s : InMemoryStore)
    → Grows s (store_of (receive_events mac client now es s))
unfolding receive_events
Grows-receive_events mac client now [] s = Grows-refl s
Grows-receive_events mac client now (e ∷ es) s =
    further (receive_event mac client now e s) (Grows-receive_event mac client now e s)
      (Grows-receive_events mac client now es)
  where
    further :
        (h : Handling)
        → Grows s (store_of h)
        → ((s' : InMemoryStore) → Grows s' (store_of (receive_events mac client now es s')))
        → Grows s (
            store_of (elim h [
              | going s' ↦ receive_events mac client now es s'
              | ended how s' ↦ ended how s'
            ]))
    further (going s') g rest = Grows-trans g (rest s')
    further (ended how s') g rest = g

Grows-stream_loop :
    (mac : Mac) (client : GrpcClientConfig) (finish : ℕ) (error : GoError)
    (schedule : List (ℕ × Wake)) (s : InMemoryStore)
    → Grows s (stream_loop mac client finish error schedule s).1
unfolding stream_loop
Grows-stream_loop mac client finish error [] s = Grows-refl s
Grows-stream_loop mac client finish error ((now, end_of_stream) ∷ rest) s = Grows-refl s
Grows-stream_loop mac client finish error ((now, stream_done) ∷ rest) s = Grows-refl s
Grows-stream_loop mac client finish error ((now, main_done) ∷ rest) s = Grows-refl s
Grows-stream_loop mac client finish error ((now, receive_error e) ∷ rest) s =
    elim (Bool-cases (ltb now finish)) [
      | inl early ↦ rw early (Grows-refl s)
      | inr late ↦ rw late (Grows-refl s)
    ]
Grows-stream_loop mac client finish error ((now, response events) ∷ rest) s =
    elim (Bool-cases (ltb now finish)) [
      | inl early ↦ rw early (
          further (receive_events mac client now events s)
            (Grows-receive_events mac client now events s)
            (Grows-stream_loop mac client finish error rest))
      | inr late ↦ rw late (Grows-refl s)
    ]
  where
    further :
        (h : Handling)
        → Grows s (store_of h)
        → ((s' : InMemoryStore) → Grows s' (stream_loop mac client finish error rest s').1)
        → let next : Ended × InMemoryStore = elim h [
          | going s' ↦ stream_loop mac client finish error rest s'
          | ended how s' ↦ (how, s')
        ] in
          Grows s next.1
    further (going s') g more = Grows-trans g (more s')
    further (ended how s') g more = g

Grows-closed :
    (s : InMemoryStore) (e : GoError) (done : Ended × InMemoryStore)
    → Grows s done.1
    → Grows s (closed e done).1
Grows-closed s none done g = g
Grows-closed s (some e) (how, s') g = g

Grows-handle :
    (mac : Mac) (new_client : NewClient) (server : GrpcServerConfig) (client : GrpcClientConfig)
    (now : ℕ) (errors : StreamErrors) (schedule : List (ℕ × Wake)) (s : InMemoryStore)
    → Grows s (handle_webhook_event_stream mac new_client server client now errors schedule s).1
unfolding handle_webhook_event_stream
Grows-handle mac new_client server client now errors schedule s =
    elim (Option-cases
      (new_client (server.host <> ":" <> server.port) (create_grpc_options server))) [
        | inr (e, refused) ↦ rw refused (Grows-refl s)
        | inl connected ↦ rw connected (elim (Option-cases errors.fetch_error) [
          | inr (e, failed) ↦ rw failed (Grows-refl s)
          | inl fetched ↦ rw fetched (
              Grows-closed s errors.close_error _ (
                Grows-stream_loop mac client (stream_finish now client) errors.context_error
                  schedule s))
        ])
      ]

module _ (mac : Mac) (new_client : NewClient) (server : GrpcServerConfig)
    (client : GrpcClientConfig) where
  Grows-client_loop :
      (turns : List Turn) (s : InMemoryStore)
      → Grows s (client_loop mac new_client server client turns s).1
  unfolding client_loop
  Grows-client_loop [] s = Grows-refl s
  Grows-client_loop (turn ∷ turns) s =
      let done =
        handle_webhook_event_stream mac new_client server client turn.started turn.errors
          turn.schedule s in
      further done.0 done.1 turn.is_interrupted
        (Grows-handle mac new_client server client turn.started turn.errors turn.schedule s)
        (Grows-client_loop turns)
    where
      further :
          (how : Ended) (s' : InMemoryStore) (stop : Bool)
          → Grows s s'
          → ((t : InMemoryStore) → Grows t (client_loop mac new_client server client turns t).1)
          → let next : Finish × InMemoryStore = elim how [
            | panicked ↦ (crashed, s')
            | exited message ↦ (fatal message, s')
            | returned e ↦ elim e [
              | some message ↦ (fatal message, s')
              | none ↦ elim stop [
                | true ↦ (closing, s')
                | false ↦ client_loop mac new_client server client turns s'
              ]
            ]
          ] in
            Grows s next.1
      further panicked s' stop g more = g
      further (exited message) s' stop g more = g
      further (returned (some message)) s' stop g more = g
      further (returned none) s' true g more = g
      further (returned none) s' false g more = Grows-trans g (more s')

  -- Over all its streams, whatever they bring and however they end, also with the process, a client
  -- with a well-formed cache keeps it well formed, and no event that it has cached is lost.
  pub client_loop-keeps :
      (turns : List Turn) (s : InMemoryStore) (r x : String)
      → IsWellFormed s
      → member x (event_ids (view s r)) ≡ true
      → IsWellFormed (client_loop mac new_client server client turns s).1
        × (member x (event_ids (view (client_loop mac new_client server client turns s).1 r))
            ≡ true)
  client_loop-keeps turns s r x v m =
      let grown = Grows-client_loop turns s in (grown.well_formed v, (grown.kept v r).stored x m)
