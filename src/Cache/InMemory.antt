-- ===== src/Cache/InMemory.antt =====
-- internal/cache/inmemory.go. `repositoryId` is a text, `event` the address of the event.
-- The lock makes `Store` and `Remove` atomic, so each is one function of the state.
pub mod Slices
pub mod Invariant
use gitstafette.Common.{
  ℕ, ◌+◌, String, Bool, true, false, not, Option, none, some, List, [], ◌∷◌, ◌++◌, ◌==◌, ltb,
  slice_at, put, length, if◌then◌else◌,
}
use gitstafette.Event.{WebhookEventInternal}
use gitstafette.Cache.Heap.{Heap, write}

-- `events` is the Go map. The histogram is what it recorded so far, and nil if OTel was disabled
-- when the store was made.
pub record InMemoryStore : Type 0 where
  pub heap : Heap
  pub events : List (String × List ℕ)
  pub histogram : Option (List ℕ)
  pub otel_enabled : Bool

-- `NewInMemoryStore` where the meter provider is not nil; Cache/Create has the other cases.
-- `otel_enabled` is what the environment says, and `meter_ok` whether the histogram could be made.
unfoldable pub new_in_memory_store : Heap → Bool → Bool → InMemoryStore
new_in_memory_store heap otel_enabled meter_ok = record {
  heap = heap;
  events = [];
  histogram = if otel_enabled then (if meter_ok then some [] else none) else none;
  otel_enabled = otel_enabled;
}

unfoldable pub has_id : Heap → String → List ℕ → Bool
has_id h id [] = false
has_id h id (p ∷ ps) = if (h.cell p).id == id then true else has_id h id ps

unfoldable pub total_events : List (String × List ℕ) → ℕ
total_events [] = 0
total_events ((repo, events) ∷ m) = length events + total_events m

unfoldable pub record_total : Bool → ℕ → Option (List ℕ) → Option (List ℕ)
record_total enabled total none = none
record_total enabled total (some seen) = some (if enabled then seen ++ total ∷ [] else seen)

unfoldable pub set_not_relayed : Heap → ℕ → Heap
unfolding write
set_not_relayed h p = write h p (record (h.cell p) { is_relayed = false })

unfoldable pub store : InMemoryStore → String → ℕ → InMemoryStore × Bool
unfolding has_id record_total set_not_relayed
store s repository_id event =
    let events = slice_at repository_id s.events in
    if has_id s.heap (s.heap.cell event).id events then (s, false) else (
      record s {
        heap = set_not_relayed s.heap event;
        events = put repository_id (events ++ event ∷ []) s.events;
        histogram = record_total s.otel_enabled (total_events s.events) s.histogram;
      },
      true,
    )

unfoldable pub count_events_for_repository : InMemoryStore → String → ℕ
count_events_for_repository s repository_id = length (slice_at repository_id s.events)

unfoldable pub retrieve_events_for_repository : InMemoryStore → String → List ℕ
unfolding count_events_for_repository
retrieve_events_for_repository s repository_id =
    if ltb 0 (count_events_for_repository s repository_id)
    then slice_at repository_id s.events
    else []

-- The loop of `Remove`.
unfoldable pub without_id : Heap → String → List ℕ → List ℕ
without_id h id [] = []
without_id h id (p ∷ ps) =
    if not ((h.cell p).id == id) then p ∷ without_id h id ps else without_id h id ps

abbrev pub is_nil : List ℕ → Bool
is_nil [] = true
is_nil (p ∷ ps) = false

-- A slice is nil exactly if it is empty: `Store` appends to what it makes, and what `Remove` keeps
-- starts as nil.
unfoldable pub remove : InMemoryStore → String → ℕ → InMemoryStore × Bool
unfolding without_id record_total
remove s repository_id event =
    let events = slice_at repository_id s.events in
    if is_nil events
    then (s, false)
    else let updated =
        put repository_id (without_id s.heap (s.heap.cell event).id events) s.events in
      (
        record s {
          events = updated;
          histogram = record_total s.otel_enabled (total_events updated) s.histogram;
        },
        true,
      )
