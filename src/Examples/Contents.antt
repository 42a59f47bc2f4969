-- ===== src/Examples/Contents.antt =====
-- Tests of the calls that the program makes of a store.
use gitstafette.Common.{◌≡◌, ◌≢◌, List, [], ◌∷◌}
use gitstafette.Event.{internal_to_external_event}
use gitstafette.Cache.Spec.{view}
use gitstafette.Contents.{Call, inserts, removes, retrieves, counts, marks, cleans, run}
use gitstafette.Contents.Specification.{spec_run}
use gitstafette.Contents.Run.{run-spec_run}
use gitstafette.Contents.Forgotten.{Contents, contents_of, after, answer_in, after_comm}
use gitstafette.Examples.{event_named, repo, one_event, one_event-IsWellFormed}

-- A new event and a known one, marks, a clean-up that comes too early, a removal, and two questions.
abbrev calls : List Call
calls =
    inserts repo (event_named "b")
    ∷ inserts repo (event_named "a")
    ∷ marks 9 repo (internal_to_external_event (event_named "a") ∷ [])
    ∷ cleans 10 repo
    ∷ removes repo (event_named "b")
    ∷ retrieves repo
    ∷ counts "12345"
    ∷ []

run-spec_run_example :
    (view (run calls one_event).0 ≡ (spec_run calls (view one_event)).0)
    × ((run calls one_event).1 ≡ (spec_run calls (view one_event)).1)
run-spec_run_example = run-spec_run calls one_event one_event-IsWellFormed

abbrev contents : Contents
contents = contents_of (one_event, one_event-IsWellFormed)

other_repository : repo ≢ "12345"
other_repository e = cc

after_comm_example :
    (after (inserts "12345" (event_named "b")) (after (removes repo (event_named "a")) contents)
      ≡ after (removes repo (event_named "a")) (after (inserts "12345" (event_named "b")) contents))
    × (answer_in
          (inserts "12345" (event_named "b"))
          (after (removes repo (event_named "a")) contents)
        ≡ answer_in (inserts "12345" (event_named "b")) contents)
    × (answer_in
          (removes repo (event_named "a"))
          (after (inserts "12345" (event_named "b")) contents)
        ≡ answer_in (removes repo (event_named "a")) contents)
after_comm_example =
    after_comm (removes repo (event_named "a")) (inserts "12345" (event_named "b")) contents
      other_repository
