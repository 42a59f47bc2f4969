-- ===== src/Contents/Specification.antt =====
-- The same calls on lists of events, with no store: each changes the list of its repository only.
use gitstafette.Common.{
  String, false, not, List, [], ◌∷◌, ◌++◌, ◌==◌, ltb, length, member, keep, if◌then◌else◌,
}
use gitstafette.Event.{WebhookEventInternal}
use gitstafette.Cache.Spec.{Events, event_ids}
use gitstafette.Relay.Cleanup.{not_due}
use gitstafette.Server.Marking.{sent_ids}
use gitstafette.Server.Pending.{mark_ids}
use gitstafette.Contents.{
  Call, inserts, removes, retrieves, counts, marks, cleans, Answer, says, gives, tells, silent,
}

abbrev pub repository_of : Call → String
repository_of (inserts r e) = r
repository_of (removes r e) = r
repository_of (retrieves r) = r
repository_of (counts r) = r
repository_of (marks now r es) = r
repository_of (cleans now r) = r

-- What is then in the list of the repository.
abbrev pub changed : Call → List WebhookEventInternal → List WebhookEventInternal
changed (inserts r e) es =
    if member e.id (event_ids es) then es else es ++ record e { is_relayed = false } ∷ []
changed (removes r e) es = keep (λ x. not (x.id == e.id)) es
changed (retrieves r) es = es
changed (counts r) es = es
changed (marks now r sent) es = mark_ids now (sent_ids sent) es
changed (cleans now r) es = not_due now es

abbrev pub answered : Call → List WebhookEventInternal → Answer
answered (inserts r e) es = says (not (member e.id (event_ids es)))
answered (removes r e) es = says (ltb 0 (length es))
answered (retrieves r) es = gives es
answered (counts r) es = tells (length es)
answered (marks now r sent) es = silent
answered (cleans now r) es = silent

abbrev pub spec_perform : Call → Events → Events
spec_perform c v q = if repository_of c == q then changed c (v q) else v q

abbrev pub spec_run : List Call → Events → Events × List Answer
spec_run [] v = (v, [])
spec_run (c ∷ cs) v =
    let (u, answers) = spec_run cs (spec_perform c v) in
    (u, answered c (v (repository_of c)) ∷ answers)
