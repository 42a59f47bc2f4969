-- ===== src/Examples.antt =====
-- Data for the tests, which stand in the modules below: two events, a store that holds the first of
-- them, a request of GitHub, and configurations.
mod Cache
mod Redis
mod Server
mod Webhook
mod Relay
mod Outside
mod Client
mod Serve
mod Start
mod Spans
mod Network
mod Contents
mod System
use gitstafette.Common.{ℕ, ◌≡◌, refl, ◌&&◌, String, true, false, not, List, [], ◌∷◌}
use gitstafette.Event.{Bytes, WebhookEvent, WebhookEventInternal}
use gitstafette.Cache.Heap.{Heap}
use gitstafette.Cache.Create.{Setting}
use gitstafette.Common.{Option, none}
use gitstafette.Cache.InMemory.{InMemoryStore, new_in_memory_store}
use gitstafette.Cache.InMemory.Invariant.{IsWellFormed, new_in_memory_store-IsWellFormed}
use gitstafette.Cache.Ingest.{insert}
use gitstafette.Cache.Ingest.Invariant.{insert-IsWellFormed}
use gitstafette.Cache.Watcher.{RepositoryWatcher}
use gitstafette.Webhook.Signature.{Mac}
use gitstafette.Webhook.{GitstafetteContext, target_id_header, target_type_header}
use gitstafette.Relay.Config.{RelayConfig}
use gitstafette.Relay.{is_grpc}

abbrev pub event_named : String → WebhookEventInternal
event_named id = record {
  id = id;
  is_relayed = false;
  time_relayed = 0;
  time_received = 7;
  headers = record { key = "X-Github-Delivery"; first_value = id } ∷ [];
  event_body = 123 ∷ 125 ∷ [];
}

abbrev pub repo : String
repo = "537845873"

abbrev pub empty_heap : Heap
empty_heap = record { next = 0; cell = λ p. event_named "" }

abbrev pub empty_store : InMemoryStore
empty_store = new_in_memory_store empty_heap true true

-- The telemetry is disabled.
abbrev pub untraced : Setting
untraced = record {
  sdk = record {
    new_resource = none;
    new_client = none;
    new_trace_exporter = none;
    new_metric_exporter = none;
    shutdown = λ p. none;
  };
  otel_enabled = false;
  meter_ok = true;
  heap = empty_heap;
}

-- The telemetry is enabled, and each part of it can be made.
abbrev pub traced : Setting
traced = record untraced { otel_enabled = true }

pub empty_store-IsWellFormed : IsWellFormed empty_store
empty_store-IsWellFormed = new_in_memory_store-IsWellFormed empty_heap true true

abbrev pub one_event : InMemoryStore
one_event = (insert empty_store repo (event_named "a")).0

pub one_event-IsWellFormed : IsWellFormed one_event
one_event-IsWellFormed =
    insert-IsWellFormed empty_store repo (event_named "a") empty_store-IsWellFormed

abbrev pub watcher : RepositoryWatcher
watcher = record { repositories = "12345" ∷ repo ∷ [] }

-- Not a real digest: the bytes of the message themselves.
abbrev pub toy_mac : Mac
toy_mac token message = message

abbrev pub ping : GitstafetteContext
ping = record {
  headers =
      (target_id_header, repo ∷ [])
      ∷ (target_type_header, "repository" ∷ [])
      ∷ ("X-Github-Delivery", "b" ∷ [])
      ∷ ("X-Hub-Signature-256", "sha256=7b7d" ∷ [])
      ∷ [];
  message_payload = 123 ∷ 125 ∷ [];
  webhook_hmac = "secret";
}

abbrev pub http_target : RelayConfig
http_target = record {
  enabled = true;
  host = "localhost";
  path = "/";
  port = "8080";
  protocol = "http";
  endpoint = "http://localhost:8080/";
  health_endpoint = "http://localhost:8080/health";
  insecure = false;
}

pub http_target_up : (p : ℕ) → (is_grpc http_target && not false) ≡ false
http_target_up p = refl
