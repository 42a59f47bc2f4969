-- ===== src/Telemetry/Spans.antt =====
-- internal/otel_util/otel_util.go, the functions that start spans and note what happens in them, with
-- `PeerFromCtx` of otel.go.
use gitstafette.Common.{
  ◌≡◌, refl, arith, String, Bool, true, Option, none, some, List, [], ◌∷◌, ◌++◌,
}
use gitstafette.Telemetry.Method.{KeyValue, Net, telemetry_attributes}

-- `trace.SpanKind`, as far as the source uses it.
pub data SpanKind : Type 0 where
  server_kind client_kind : SpanKind

-- google.golang.org/grpc/metadata and go.opentelemetry.io: the metadata of a call, the ids of a span,
-- the propagator that `otelgrpc` uses, and the ids of a span that a tracer starts below a parent.
pub record Tracing : Type 1 where
  pub Metadata : Type 0
  pub SpanContext : Type 0
  pub empty : Metadata
  pub is_valid : SpanContext → Bool
  -- Where the metadata has no ids, those of the context's span are given.
  pub extract : SpanContext → Metadata → SpanContext
  pub inject : SpanContext → Metadata → Metadata
  pub start : SpanContext → String → SpanKind → List KeyValue → SpanContext
  -- What becomes of the metadata of a call on its way.
  pub transmit : Metadata → Metadata

-- The ids of a valid span are read back from the metadata that they were written to, at the other
-- end of a call too.
pub record IsPropagator (t : Tracing) : Type 0 where
  pub extract_lem :
      (around c : t.SpanContext) (m : t.Metadata)
      → t.is_valid c ≡ true
      → t.extract around (t.transmit (t.inject c m)) ≡ c

abbrev pub value_or : {A : Type 0} → Option A → A → A
value_or none a = a
value_or (some b) a = b

module _ (t : Tracing) (net : Net) where
  -- A context has the metadata of the call that came in and of the one that goes out, the address of
  -- the peer, and the ids of the span that it is in.
  pub record Context : Type 0 where
    pub incoming : Option t.Metadata
    pub outgoing : Option t.Metadata
    pub peer : Option String
    pub span_context : t.SpanContext

  pub record Span : Type 0 where
    pub span_context : t.SpanContext
    pub parent : t.SpanContext
    pub name : String
    pub kind : SpanKind
    pub attributes : List KeyValue
    pub events : List (String × List KeyValue)
    pub status : Option (String × String)

  abbrev pub peer_from_ctx : Context → String
  peer_from_ctx ctx = value_or ctx.peer ""

  abbrev pub start_span : t.SpanContext → SpanKind → String × List KeyValue × List KeyValue → Span
  start_span parent kind (name, attributes, metric_attributes) = record {
    span_context = t.start parent name kind attributes;
    parent = parent;
    name = name;
    kind = kind;
    attributes = attributes;
    events = [];
    status = none;
  }

  -- The parent is the span of the caller.
  unfoldable pub start_server_span_from_client_context :
      Context → String → SpanKind → t.SpanContext × Context × Span
  unfolding telemetry_attributes
  start_server_span_from_client_context ctx service_names kind =
      let trace_context = t.extract ctx.span_context (value_or ctx.incoming t.empty) in
      let span =
        start_span trace_context kind
          (telemetry_attributes net service_names (peer_from_ctx ctx)) in
      (trace_context, record ctx { span_context = span.span_context }, span)

  -- The ids of the new span go out with the call.
  unfoldable pub start_client_span : Context → String → String → Context × Span
  unfolding telemetry_attributes
  start_client_span ctx service_name connection_target =
      let span =
        start_span ctx.span_context client_kind
          (telemetry_attributes net service_name connection_target) in
      (
        record ctx {
          span_context = span.span_context;
          outgoing = some (t.inject span.span_context (value_or ctx.outgoing t.empty));
        },
        span,
      )

  -- A span that was not started is nil, and then nothing is noted.
  unfoldable pub add_span_event_with_option : Option Span → String → List KeyValue → Option Span
  add_span_event_with_option none event options = none
  add_span_event_with_option (some span) event options =
      some (record span { events = span.events ++ (event, options) ∷ [] })

  unfoldable pub add_span_event : Option Span → String → Option Span
  unfolding add_span_event_with_option
  add_span_event span event = add_span_event_with_option span event []

  unfoldable pub set_span_status : Option Span → String → String → Option Span
  set_span_status none code message = none
  set_span_status (some span) code message = some (record span { status = some (code, message) })

  -- The span that a server starts for a call below a span that the client has started for it has
  -- that span as its parent, and the client's span has as its parent the span that the client was in.
  pub spans_linked :
      (p : IsPropagator t) (client_ctx server_ctx : Context)
      (service_name target service_names : String) (kind : SpanKind) (md : t.Metadata)
      → t.is_valid (start_client_span client_ctx service_name target).1.span_context ≡ true
      → (start_client_span client_ctx service_name target).0.outgoing ≡ some md
      → server_ctx.incoming ≡ some (t.transmit md)
      → ((start_server_span_from_client_context server_ctx service_names kind).2.parent
          ≡ (start_client_span client_ctx service_name target).1.span_context)
        × ((start_client_span client_ctx service_name target).1.parent ≡ client_ctx.span_context)
  unfolding start_client_span start_server_span_from_client_context
  spans_linked p client_ctx server_ctx service_name target service_names kind md valid out in_ = (
    ground (
      arith,
      in_,
      out,
      p.extract_lem server_ctx.span_context
          (start_client_span client_ctx service_name target).1.span_context
          (value_or client_ctx.outgoing t.empty) valid,
    ),
    refl,
  )
