-- ===== src/Judging.antt =====
-- Judging a submission: the lambdas of
-- subprojects/sim/src/job_server/job_handlers/judge_or_rejudge_submission.cc, over the reports of
-- subprojects/simlib/include/simlib/sim/judge_worker.hh. The text that a report is shown as is an
-- argument, and so is what a string holds after `std::move`. `Judging.Update` has the transaction.
pub mod Status
pub mod Retry
pub mod Update
pub mod Stored
use sim_project.Common.{
  ℕ, zero, suc, ◌≤◌, Bool, true, false, ◌&&◌, not, leb, if◌then◌else◌, Option, none, some, List, [],
  ◌∷◌, ℤ, pos, ◌+ℤ◌, Bytes, Result, deadlock, ◌>>=◌,
}
use sim_project.Schema.Submissions

pub data TestStatus : Type 0 where
  ok wa tle mle ole rte checker_error skipped : TestStatus

pub record Test : Type 0 where
  pub name : Bytes
  pub status : TestStatus
  pub runtime : ℕ  -- nanoseconds
  pub time_limit : ℕ
  pub memory_consumed : ℕ  -- bytes
  pub memory_limit : ℕ
  pub comment : Bytes

pub record Group : Type 0 where
  pub tests : List Test
  pub score : ℤ
  pub max_score : ℤ

pub record JudgeReport : Type 0 where
  pub groups : List Group
  pub judge_log : Bytes

-- The first loop: is there a test with a checker error?
unfoldable pub is_checker_error : TestStatus → Bool
is_checker_error TestStatus.ok = false
is_checker_error TestStatus.wa = false
is_checker_error TestStatus.tle = false
is_checker_error TestStatus.mle = false
is_checker_error TestStatus.ole = false
is_checker_error TestStatus.rte = false
is_checker_error TestStatus.checker_error = true
is_checker_error TestStatus.skipped = false

unfoldable pub any_checker_error : List Test → Bool
unfolding is_checker_error
any_checker_error [] = false
any_checker_error (t ∷ ts) = if is_checker_error t.status then true else any_checker_error ts

unfoldable pub any_group_error : List Group → Bool
unfolding any_checker_error
any_group_error [] = false
any_group_error (g ∷ gs) = if any_checker_error g.tests then true else any_group_error gs

-- The second loop: `none` goes on with the next test. A checker error throws there, and is not met.
unfoldable pub failure : TestStatus → Option Submissions.Status
failure TestStatus.ok = none
failure TestStatus.skipped = none
failure TestStatus.wa = some Submissions.Status.wa
failure TestStatus.tle = some Submissions.Status.tle
failure TestStatus.mle = some Submissions.Status.mle
failure TestStatus.ole = some Submissions.Status.ole
failure TestStatus.rte = some Submissions.Status.rte
failure TestStatus.checker_error = some Submissions.Status.judge_error

abbrev pub or_else {ℓ} : {A : Type ℓ} → Option A → Option A → Option A
or_else none b = b
or_else (some a) b = some a

unfoldable pub first_failure : List Test → Option Submissions.Status
unfolding failure
first_failure [] = none
first_failure (t ∷ ts) = or_else (failure t.status) (first_failure ts)

unfoldable pub first_group_failure : List Group → Option Submissions.Status
unfolding first_failure
first_group_failure [] = none
first_group_failure (g ∷ gs) = or_else (first_failure g.tests) (first_group_failure gs)

abbrev pub or_ok : Option Submissions.Status → Submissions.Status
or_ok none = Submissions.Status.ok
or_ok (some status) = status

unfoldable pub calculate_submission_status : JudgeReport → Submissions.Status
unfolding any_group_error first_group_failure
calculate_submission_status report =
    if any_group_error report.groups
    then Submissions.Status.judge_error
    else or_ok (first_group_failure report.groups)

-- The loop that counts the score.
unfoldable pub score_from : ℤ → List Group → ℤ
score_from score [] = score
score_from score (g ∷ gs) = score_from (score +ℤ g.score) gs

-- What `process_judge_report` keeps from call to call.
pub record Captured : Type 0 where
  pub initial_report : Option Bytes
  pub initial_score : ℤ
  pub initial_status : Submissions.Status

unfoldable pub first_captured : Captured
first_captured = record {
  initial_report = none;
  initial_score = pos 0;
  initial_status = Submissions.Status.pending;
}

-- The variables of one call, which its transaction changes too.
pub record Locals : Type 0 where
  pub captured : Captured
  pub report : Bytes
  pub status : Submissions.Status
  pub score : ℤ

-- The arguments of `update_submission`.
pub record Verdict : Type 0 where
  pub initial_status : Submissions.Status
  pub full_status : Submissions.Status
  pub score : Option ℤ
  pub initial_report : Bytes
  pub final_report : Bytes

unfoldable pub is_ok : Submissions.Status → Bool
is_ok Submissions.Status.ok = true
is_ok _ = false

unfoldable pub is_judge_error : Submissions.Status → Bool
is_judge_error Submissions.Status.judge_error = true
is_judge_error _ = false

abbrev value_or : Option Bytes → Bytes → Bytes
value_or none d = d
value_or (some b) d = b

module _ (moved_from : Bytes) where
  -- The lambda given to `repeat_if_deadlocked`, up to its call of `update_submission`, for a report
  -- that is not final. `std::move(report)` leaves `moved_from` behind.
  unfoldable pub attempt_initial : Locals → Locals × Verdict
  unfolding is_ok
  attempt_initial l = (
    record l {
      captured = record {
        initial_report = some l.report;
        initial_score = l.score;
        initial_status = l.status;
      };
      report = moved_from;
    },
    record {
      initial_status = l.status;
      full_status = if is_ok l.status then Submissions.Status.pending else l.status;
      score = none;
      initial_report = l.report;
      final_report = [];
    },
  )

  -- The same for a final report: `score += initial_score`, and the initial status where it counts.
  unfoldable pub attempt_final : Locals → Locals × Verdict
  unfolding is_ok is_judge_error
  attempt_final l =
      let score = l.score +ℤ l.captured.initial_score in
      let status =
        if not (is_ok l.captured.initial_status) && not (is_judge_error l.status)
        then l.captured.initial_status
        else l.status in
      (
        record l { report = moved_from; score = score; status = status },
        record {
          initial_status = l.captured.initial_status;
          full_status = status;
          score = some score;
          initial_report = value_or l.captured.initial_report [];
          final_report = l.report;
        },
      )

  unfoldable pub attempt : Bool → Locals → Locals × Verdict
  unfolding attempt_initial attempt_final
  attempt false = attempt_initial
  attempt true = attempt_final

  -- The attempts that end in a deadlock: the database is rolled back, the variables are not.
  unfoldable pub deadlocked : ℕ → Bool → Locals → Locals
  unfolding attempt
  deadlocked zero final l = l
  deadlocked (suc n) final l = deadlocked n final (attempt final l).0

  -- `repeat_if_deadlocked(limit, ...)` where the first `deadlocks` attempts end in a deadlock.
  unfoldable pub repeat_if_deadlocked : ℕ → ℕ → Bool → Locals → Result (Locals × Verdict)
  unfolding deadlocked
  repeat_if_deadlocked limit deadlocks final l =
      if leb deadlocks limit
      then Result.ok (attempt final (deadlocked deadlocks final l))
      else Result.threw deadlock

  -- `process_judge_report` up to its statements: the variables that it keeps, and the verdict that
  -- `update_submission` is called with. `report_text` shows a report as text.
  unfoldable pub process_judge_report :
      (JudgeReport → Bytes) → Captured → JudgeReport → Bool → ℕ → Result (Captured × Verdict)
  unfolding repeat_if_deadlocked calculate_submission_status score_from
  process_judge_report report_text captured report final deadlocks = do
    (l, verdict) ← repeat_if_deadlocked 128 deadlocks final (record {
      captured = captured;
      report = report_text report;
      status = calculate_submission_status report;
      score = score_from (pos 0) report.groups;
    })
    Result.ok (l.captured, verdict)
