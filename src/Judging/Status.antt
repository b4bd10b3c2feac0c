-- ===== src/Judging/Status.antt =====
-- The status that a report gives a submission.
use sim_project.Common.{
  ap, ◌≡◌, ◌≢◌, refl, true, false, Bool-cases, inl, inr, ◌⊎◌, ◌++◌, List, [], ◌∷◌, Option, none,
  some, In, All, arith, ◌∙◌, sym, if◌then◌else◌,
}
use sim_project.Schema.Submissions
use sim_project.Judging.{
  TestStatus, Test, Group, JudgeReport, is_checker_error, any_checker_error, any_group_error,
  failure, first_failure, first_group_failure, calculate_submission_status, or_else, or_ok,
}

-- All tests of a report, in the order of the groups.
abbrev pub tests_of : List Group → List Test
tests_of [] = []
tests_of (g ∷ gs) = g.tests ++ tests_of gs

-- How a test that failed counts.
pub data Fails : TestStatus → Submissions.Status → Type 0 where
  wa : Fails TestStatus.wa Submissions.Status.wa
  tle : Fails TestStatus.tle Submissions.Status.tle
  mle : Fails TestStatus.mle Submissions.Status.mle
  ole : Fails TestStatus.ole Submissions.Status.ole
  rte : Fails TestStatus.rte Submissions.Status.rte

pub data Passes : TestStatus → Type 0 where
  ok : Passes TestStatus.ok
  skipped : Passes TestStatus.skipped

-- The status that a list of tests deserves: a judge error if the checker failed on one of them;
-- else that of the first test which failed; else OK.
pub data Deserves (ts : List Test) : Submissions.Status → Type 0 where
  judge_error :
      (t : Test)
      → In t ts
      → t.status ≡ TestStatus.checker_error
      → Deserves ts Submissions.Status.judge_error
  failed :
      (before after : List Test) (t : Test) (s : Submissions.Status)
      → ts ≡ before ++ t ∷ after
      → All (λ u. Passes u.status) before
      → Fails t.status s
      → All (λ u. u.status ≢ TestStatus.checker_error) ts
      → Deserves ts s
  passed : All (λ t. Passes t.status) ts → Deserves ts Submissions.Status.ok

any_checker_error-append :
    (xs ys : List Test)
    → any_checker_error (xs ++ ys) ≡ (if any_checker_error xs then true else any_checker_error ys)
unfolding any_checker_error
any_checker_error-append [] ys = refl
any_checker_error-append (x ∷ xs) ys = ground (arith, any_checker_error-append xs ys)

any_group_error-tests_of : (gs : List Group) → any_group_error gs ≡ any_checker_error (tests_of gs)
unfolding any_group_error
any_group_error-tests_of [] = refl
any_group_error-tests_of (g ∷ gs) =
    rw (any_checker_error-append g.tests (tests_of gs), any_group_error-tests_of gs) refl

first_failure-append :
    (xs ys : List Test) → first_failure (xs ++ ys) ≡ or_else (first_failure xs) (first_failure ys)
unfolding first_failure
first_failure-append [] ys = refl
first_failure-append (x ∷ xs) ys = ground (arith, first_failure-append xs ys)

first_group_failure-tests_of :
    (gs : List Group) → first_group_failure gs ≡ first_failure (tests_of gs)
unfolding first_group_failure
first_group_failure-tests_of [] = refl
first_group_failure-tests_of (g ∷ gs) =
    rw (first_failure-append g.tests (tests_of gs), first_group_failure-tests_of gs) refl

error_In :
    (ts : List Test)
    → any_checker_error ts ≡ true
    → (t : Test) × In t ts × (t.status ≡ TestStatus.checker_error)
unfolding any_checker_error
error_In [] h = cc
error_In (t ∷ ts) h = elim (Bool-cases (is_checker_error t.status)) [
  | inl e ↦ (t, inl refl, ground arith)
  | inr e ↦ let (u, i, f) = error_In ts (ground arith) in (u, inr i, f)
]

no_error :
    (ts : List Test)
    → any_checker_error ts ≡ false
    → All (λ u. u.status ≢ TestStatus.checker_error) ts
unfolding any_checker_error
no_error [] h = tt
no_error (t ∷ ts) h = (λ e. ground arith, no_error ts (ground arith))

-- What one test comes to, where it is no checker error.
failure_cases :
    (t : Test)
    → t.status ≢ TestStatus.checker_error
    → ((failure t.status ≡ none) × Passes t.status)
      ⊎ ((s : Submissions.Status) × (failure t.status ≡ some s) × Fails t.status s)
unfolding failure
failure_cases t n = go t.status n
  where
    go :
        (st : TestStatus)
        → st ≢ TestStatus.checker_error
        → ((failure st ≡ none) × Passes st)
          ⊎ ((s : Submissions.Status) × (failure st ≡ some s) × Fails st s)
    go TestStatus.ok n = inl (refl, Passes.ok)
    go TestStatus.wa n = inr (Submissions.Status.wa, refl, Fails.wa)
    go TestStatus.tle n = inr (Submissions.Status.tle, refl, Fails.tle)
    go TestStatus.mle n = inr (Submissions.Status.mle, refl, Fails.mle)
    go TestStatus.ole n = inr (Submissions.Status.ole, refl, Fails.ole)
    go TestStatus.rte n = inr (Submissions.Status.rte, refl, Fails.rte)
    go TestStatus.checker_error n = absurd (n refl)
    go TestStatus.skipped n = inl (refl, Passes.skipped)

-- Where the loop over the tests ends.
Stops : List Test → Option Submissions.Status → Type 0
Stops ts none = All (λ t. Passes t.status) ts
Stops ts (some s) =
    (before : List Test) × (after : List Test) × (t : Test) × (ts ≡ before ++ t ∷ after)
    × All (λ u. Passes u.status) before
    × Fails t.status s

Stops-cons :
    (t : Test) (ts : List Test) (o : Option Submissions.Status)
    → Passes t.status
    → Stops ts o
    → Stops (t ∷ ts) o
unfolding Stops
Stops-cons t ts none p h = (p, h)
Stops-cons t ts (some s) p (before, after, u, e, b, f) =
    (t ∷ before, after, u, ap (◌∷◌ t) e, (p, b), f)

first_failure-Stops :
    (ts : List Test)
    → All (λ u. u.status ≢ TestStatus.checker_error) ts
    → Stops ts (first_failure ts)
unfolding Stops first_failure
first_failure-Stops [] h = tt
first_failure-Stops (t ∷ ts) h = elim (failure_cases t h.0) [
  | inl (e, p) ↦ rw e (Stops-cons t ts (first_failure ts) p (first_failure-Stops ts h.1))
  | inr (s, e, f) ↦ rw e ([], ts, t, refl, tt, f)
]

Deserves-or_ok :
    (ts : List Test) (o : Option Submissions.Status)
    → All (λ u. u.status ≢ TestStatus.checker_error) ts
    → Stops ts o
    → Deserves ts (or_ok o)
unfolding Stops
Deserves-or_ok ts none n h = passed h
Deserves-or_ok ts (some s) n (before, after, t, e, b, f) = failed before after t s e b f n

-- A report gives the status that its tests deserve, in the order of the groups: a judge error if a
-- checker failed on any test, else the failure of the first test that failed, else OK.
pub calculate_submission_status-Deserves :
    (report : JudgeReport) → Deserves (tests_of report.groups) (calculate_submission_status report)
unfolding calculate_submission_status
calculate_submission_status-Deserves report = elim (Bool-cases (any_group_error report.groups)) [
  | inl e ↦
      let (t, i, f) =
        error_In (tests_of report.groups) (sym (any_group_error-tests_of report.groups) ∙ e) in
      rw e (judge_error t i f)
  | inr e ↦
      let n =
        no_error (tests_of report.groups) (sym (any_group_error-tests_of report.groups) ∙ e) in
      rw (e, first_group_failure-tests_of report.groups)
        (Deserves-or_ok (tests_of report.groups) _ n
          (first_failure-Stops (tests_of report.groups) n))
]
