-- ===== src/Examples/Spans.antt =====
-- Tests of the spans of a call.
use gitstafette.Common.{ℕ, ◌+◌, ◌≡◌, refl, true, not, Option, none, some, eqb}
use gitstafette.Telemetry.Method.{Net}
use gitstafette.Telemetry.Spans.{
  server_kind, Tracing, IsPropagator, Context, Span, value_or, start_client_span,
  start_server_span_from_client_context, spans_linked,
}

-- Spans are numbered, and 0 is no span.
abbrev numbered : Tracing
numbered = record {
  Metadata = Option ℕ;
  SpanContext = ℕ;
  empty = none;
  is_valid = λ c. not (eqb c 0);
  extract = λ around m. value_or m around;
  inject = λ c m. some c;
  start = λ parent name kind attributes. parent + 1;
  transmit = λ m. m;
}

propagates : IsPropagator numbered
propagates = record { extract_lem = λ around c m valid. refl }

abbrev no_peers : Net
no_peers = record { split_host_port = λ addr. none; atoi = λ text. none; is_ip = λ host. true }

abbrev in_client : Context numbered no_peers
in_client = record { incoming = none; outgoing = none; peer = none; span_context = 4 }

abbrev in_server : Context numbered no_peers
in_server = record { incoming = some (some 5); outgoing = none; peer = none; span_context = 0 }

abbrev asked : Context numbered no_peers × Span numbered no_peers
asked = start_client_span numbered no_peers in_client "handleWebhookEventStream" "localhost:50051"

spans_linked_example :
    ((start_server_span_from_client_context numbered no_peers in_server "FetchWebhookEvents"
        server_kind).2.parent
      ≡ asked.1.span_context)
    × (asked.1.parent ≡ in_client.span_context)
unfolding start_client_span
spans_linked_example =
    spans_linked numbered no_peers propagates in_client in_server "handleWebhookEventStream"
      "localhost:50051" "FetchWebhookEvents" server_kind (some 5) refl refl refl
