-- ===== src/Contents/Forgotten.antt =====
-- Stores up to what they hold: addresses, the order of the Go map and the histogram are forgotten.
use mathlib.Core.Quot
use mathlib.Core.Quot.{Quot, Quot-set}
use text.Mathlib.TextEquality.{IsScalar-prop}
use gitstafette.Common.{◌≡◌, ◌≢◌, ◌∙◌, sym, ap, fun_ext, eq_iff, arith}
use gitstafette.Cache.InMemory.{InMemoryStore}
use gitstafette.Cache.InMemory.Invariant.{IsWellFormed}
use gitstafette.Cache.Spec.{Events, view}
use gitstafette.Contents.{Call, Answer, perform}
use gitstafette.Contents.Specification.{repository_of, answered, spec_perform}
use gitstafette.Contents.Run.{perform-IsWellFormed, view-perform, answer-perform}

abbrev pub WellFormedStore : Type 0
WellFormedStore = (s : InMemoryStore) × IsWellFormed s

abbrev pub SameContents : WellFormedStore → WellFormedStore → Type 0
SameContents a b = view a.0 ≡ view b.0

abbrev pub Contents : Type 0
Contents = Quot SameContents

abbrev pub contents_of : WellFormedStore → Contents
contents_of = Quot.mk

pub Events-set : IsSet Events
Events-set = hlevel IsScalar-prop

pub Answer-set : IsSet Answer
Answer-set = hlevel IsScalar-prop

-- What each repository has.
unfoldable pub events_in : Contents → Events
events_in = Quot.lift Events-set (λ a. view a.0) (λ a b h. h)

abbrev pub left_by : Call → WellFormedStore → WellFormedStore
left_by c a = ((perform c a.0).0, perform-IsWellFormed a.0 a.1 c)

pub left_by-SameContents :
    (c : Call) (a b : WellFormedStore) → SameContents a b → SameContents (left_by c a) (left_by c b)
left_by-SameContents c a b h =
    view-perform a.0 a.1 c ∙ ap (spec_perform c) h ∙ sym (view-perform b.0 b.1 c)

-- A call, which leaves the same contents whatever the store that has them.
unfoldable pub after : Call → Contents → Contents
after c =
    Quot.lift Quot-set (λ a. contents_of (left_by c a))
      (λ a b h. Quot.sound (left_by-SameContents c a b h))

pub answer-SameContents :
    (c : Call) (a b : WellFormedStore) → SameContents a b → (perform c a.0).1 ≡ (perform c b.0).1
answer-SameContents c a b h =
    answer-perform a.0 a.1 c
    ∙ ap (λ v. answered c (v (repository_of c))) h
    ∙ sym (answer-perform b.0 b.1 c)

-- The answer, which tells nothing but the contents.
unfoldable pub answer_in : Call → Contents → Answer
answer_in c = Quot.lift Answer-set (λ a. (perform c a.0).1) (answer-SameContents c)

-- Contents are equal exactly if each repository has the same events.
pub ext : (k l : Contents) → events_in k ≡ events_in l → k ≡ l
unfolding events_in
ext = Quot.ind (λ k. hlevel Quot-set) (λ a. Quot.ind (λ l. hlevel Quot-set) (λ b h. Quot.sound h))

pub events_in-after :
    (c : Call) (k : Contents) → events_in (after c k) ≡ spec_perform c (events_in k)
unfolding events_in after
events_in-after c = Quot.ind (λ k. Events-set _ _) (λ a. view-perform a.0 a.1 c)

pub answer_in-eq-answered :
    (c : Call) (k : Contents) → answer_in c k ≡ answered c (events_in k (repository_of c))
unfolding events_in answer_in
answer_in-eq-answered c = Quot.ind (λ k. Answer-set _ _) (λ a. answer-perform a.0 a.1 c)

spec_perform_comm :
    (c d : Call) (v : Events)
    → repository_of c ≢ repository_of d
    → spec_perform d (spec_perform c v) ≡ spec_perform c (spec_perform d v)
spec_perform_comm c d v apart =
    fun_ext (λ q. ground (arith, apart, eq_iff (repository_of c) q, eq_iff (repository_of d) q))

spec_perform_apart :
    (c d : Call) (v : Events)
    → repository_of c ≢ repository_of d
    → spec_perform c v (repository_of d) ≡ v (repository_of d)
spec_perform_apart c d v apart = ground (arith, apart, eq_iff (repository_of c) (repository_of d))

answer_in-after :
    (c d : Call) (k : Contents)
    → repository_of c ≢ repository_of d
    → answer_in d (after c k) ≡ answer_in d k
answer_in-after c d k apart =
    answer_in-eq-answered d (after c k)
    ∙ ap (answered d) (
        ap (λ v. v (repository_of d)) (events_in-after c k)
        ∙ spec_perform_apart c d (events_in k) apart)
    ∙ sym (answer_in-eq-answered d k)

-- Calls for two repositories can change places: whatever a store held, either order leaves the same
-- contents, and each call has the answer that it has alone.
pub after_comm :
    (c d : Call) (k : Contents)
    → repository_of c ≢ repository_of d
    → (after d (after c k) ≡ after c (after d k))
      × (answer_in d (after c k) ≡ answer_in d k)
      × (answer_in c (after d k) ≡ answer_in c k)
after_comm c d k apart = (
  ext _ _ (simp events_in-after (spec_perform_comm c d (events_in k) apart)),
  answer_in-after c d k apart,
  answer_in-after d c k (λ e. apart (sym e)),
)
