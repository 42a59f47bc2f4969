-- ===== src/Contents.antt =====
-- What the in-memory store holds, whatever its representation: the calls that the program makes of
-- the store (internal/cache/inmemory.go), in any order, each for one repository.
pub mod Specification
pub mod Run
pub mod Forgotten
use gitstafette.Common.{ℕ, String, Bool, List, [], ◌∷◌, map}
use gitstafette.Event.{WebhookEvent, WebhookEventInternal}
use gitstafette.Cache.Heap.{alloc}
use gitstafette.Cache.InMemory.{
  InMemoryStore, count_events_for_repository, retrieve_events_for_repository, remove,
}
use gitstafette.Cache.Ingest.{insert}
use gitstafette.Server.{update_relay_status}
use gitstafette.Relay.Cleanup.{cleanup_events}

-- An event that is stored or removed is an object that the caller has just made.
pub data Call : Type 0 where
  inserts : String → WebhookEventInternal → Call
  removes : String → WebhookEventInternal → Call
  retrieves : String → Call
  counts : String → Call
  marks : ℕ → String → List WebhookEvent → Call
  cleans : ℕ → String → Call

pub data Answer : Type 0 where
  says : Bool → Answer
  gives : List WebhookEventInternal → Answer
  tells : ℕ → Answer
  silent : Answer

unfoldable pub perform : Call → InMemoryStore → InMemoryStore × Answer
perform (inserts r e) s = let (t, stored) = insert s r e in (t, says stored)
perform (removes r e) s =
    let (t, removed) = remove (record s { heap = alloc s.heap e }) r s.heap.next in
    (t, says removed)
perform (retrieves r) s = (s, gives (map s.heap.cell (retrieve_events_for_repository s r)))
perform (counts r) s = (s, tells (count_events_for_repository s r))
perform (marks now r es) s = (update_relay_status now es r s, silent)
perform (cleans now r) s = (cleanup_events now r (retrieve_events_for_repository s r) s, silent)

-- The answers to the calls, one after the other, and the store that they leave.
unfoldable pub run : List Call → InMemoryStore → InMemoryStore × List Answer
unfolding perform
run [] s = (s, [])
run (c ∷ cs) s =
    let (t, answer) = perform c s in let (u, answers) = run cs t in (u, answer ∷ answers)
