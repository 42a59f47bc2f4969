-- ===== src/Cache/Create.antt =====
-- internal/cache/inmemory.go, `NewInMemoryStore` with the telemetry that it sets up.
use gitstafette.Common.{
  ◌≡◌, refl, subst, arith, String, [], Option, none, some, not, ◌&&◌, ◌||◌, Bool, true, false,
  if◌then◌else◌,
}
use gitstafette.Cache.Heap.{Heap}
use gitstafette.Cache.InMemory.{InMemoryStore, new_in_memory_store, retrieve_events_for_repository}
use gitstafette.Cache.InMemory.Invariant.{IsWellFormed, new_in_memory_store-IsWellFormed}
use gitstafette.Cache.Spec.{view}
use gitstafette.Telemetry.Setup.{
  Sdk, new_trace_provider, new_meter_provider, Outcome, returns, process_exits, exits, provider,
  nil_provider, setup_otel_sdk,
}

abbrev pub is_nil_error : Option String → Bool
is_nil_error none = true
is_nil_error (some e) = false

-- The telemetry around the cache. `meter_ok` is whether a histogram can be made, and `heap` has no
-- objects that matter.
pub record Setting : Type 0 where
  pub sdk : Sdk
  pub otel_enabled : Bool
  pub meter_ok : Bool
  pub heap : Heap

-- Something is made, the process exits, or it asks a nil provider for a meter.
pub data Creation (A : Type 0) : Type 0 where
  creates : A → Creation A
  ends : Creation A
  meets_nil_provider : Creation A

abbrev pub with_creation : {A B : Type 0} → Creation A → (A → B) → Creation B
with_creation (creates a) f = creates (f a)
with_creation ends f = ends
with_creation meets_nil_provider f = meets_nil_provider

-- The error of the set-up is only logged; the meter is asked of whatever provider it returned.
abbrev pub with_meter_of : Heap → Bool → Outcome → Creation InMemoryStore
with_meter_of heap meter_ok process_exits = ends
with_meter_of heap meter_ok (returns st exits) = ends
with_meter_of heap meter_ok (returns st nil_provider) = meets_nil_provider
with_meter_of heap meter_ok (returns st provider) = creates (new_in_memory_store heap true meter_ok)

unfoldable pub create_in_memory_store : Setting → Creation InMemoryStore
create_in_memory_store setting =
    if setting.otel_enabled
    then with_meter_of setting.heap setting.meter_ok (setup_otel_sdk setting.sdk true)
    else creates (new_in_memory_store setting.heap false setting.meter_ok)

-- Whether the telemetry is disabled, or each part of it can be made.
abbrev pub sets_up : Setting → Bool
sets_up setting =
    not setting.otel_enabled
    || (is_nil_error setting.sdk.new_resource
        && is_nil_error setting.sdk.new_client
        && is_nil_error setting.sdk.new_trace_exporter
        && is_nil_error setting.sdk.new_metric_exporter)

new_in_memory_store-empty :
    (heap : Heap) (otel_enabled meter_ok : Bool) (r : String)
    → view (new_in_memory_store heap otel_enabled meter_ok) r ≡ []
unfolding new_in_memory_store view retrieve_events_for_repository
new_in_memory_store-empty heap otel_enabled meter_ok r = refl

pub made :
    (setting : Setting)
    → sets_up setting ≡ true
    → create_in_memory_store setting
      ≡ creates (new_in_memory_store setting.heap setting.otel_enabled setting.meter_ok)
unfolding create_in_memory_store setup_otel_sdk new_trace_provider new_meter_provider
made setting h = ground (arith, h)

pub made_only :
    (setting : Setting) (s : InMemoryStore)
    → create_in_memory_store setting ≡ creates s
    → sets_up setting ≡ true
unfolding create_in_memory_store setup_otel_sdk new_trace_provider new_meter_provider
made_only setting s h = ground (arith, h)

created :
    (setting : Setting) (s : InMemoryStore)
    → create_in_memory_store setting ≡ creates s
    → new_in_memory_store setting.heap setting.otel_enabled setting.meter_ok ≡ s
unfolding create_in_memory_store
created setting s h = ground (arith, h)

-- A store that is made is well formed, and no repository has an event in it.
pub create_in_memory_store_lem :
    (setting : Setting) (s : InMemoryStore)
    → create_in_memory_store setting ≡ creates s
    → IsWellFormed s × ((r : String) → view s r ≡ [])
create_in_memory_store_lem setting s h =
    let same = created setting s h in
    (
      subst IsWellFormed same
          (new_in_memory_store-IsWellFormed setting.heap setting.otel_enabled setting.meter_ok),
      λ r.
          subst (λ x. view x r ≡ []) same
            (new_in_memory_store-empty setting.heap setting.otel_enabled setting.meter_ok r),
    )
