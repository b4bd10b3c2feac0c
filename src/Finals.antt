-- ===== src/Finals.antt =====
-- Which submissions are final: subprojects/sim/src/sim/submissions/update_final.cc.
-- `Finals.Reselect` has the three statements that the three updates share, `Finals.Chosen` and
-- `Finals.Frame` what they do to the table.
pub mod Ids
pub mod Reselect
pub mod Orders
pub mod Chosen
pub mod Keeps
pub mod Lawful
pub mod Right
pub mod Steps
pub mod Update
pub mod Frame
pub mod Outside
pub mod Everywhere
pub mod ToUpdate
pub mod Pending
pub mod Members
use sim_project.Common.{
  ◌>>=◌, ℕ, Result, ok, require, Bool, true, false, ◌&&◌, ◌==◌, is_value, has_value, List, Option,
  none, some, compare, ℤ, if◌then◌else◌,
}
use sim_project.Db.{Db}
use sim_project.Sql.{find_where, Comparator, then_by, descending, compare_nullable}
use sim_project.Schema.Submissions.{Submission, Status, Status_code, SubmissionType}
use sim_project.Schema.Contests.{FinalChoice, ScoreRevealing, ContestProblem}
use Reselect.{Column, reselect}

-- score DESC, full_status, id DESC
abbrev pub by_score_and_full_status : Comparator Submission
by_score_and_full_status r s = then_by (descending (compare_nullable r.score s.score)) (
    then_by (compare (Status_code r.full_status) (Status_code s.full_status))
      (descending (compare r.id s.id)))

-- id DESC
abbrev pub by_latest : Comparator Submission
by_latest r s = descending (compare r.id s.id)

-- initial_status, id DESC
abbrev pub by_initial_status : Comparator Submission
by_initial_status r s =
    then_by (compare (Status_code r.initial_status) (Status_code s.initial_status))
      (descending (compare r.id s.id))

-- score DESC, initial_status, id DESC
abbrev pub by_score_and_initial_status : Comparator Submission
by_score_and_initial_status r s =
    then_by (descending (compare_nullable r.score s.score)) (by_initial_status r s)

-- The columns that say which submission is final.
abbrev pub problem_final : Column
problem_final = record { get = λ r. r.problem_final; put = λ b r. record r { problem_final = b } }

abbrev pub contest_problem_final : Column
contest_problem_final = record {
  get = λ r. r.contest_problem_final;
  put = λ b r. record r { contest_problem_final = b };
}

abbrev pub contest_problem_initial_final : Column
contest_problem_initial_final = record {
  get = λ r. r.contest_problem_initial_final;
  put = λ b r. record r { contest_problem_initial_final = b };
}

-- user_id=? AND problem_id=?
abbrev pub of_problem : ℕ → ℕ → Submission → Bool
of_problem user problem r = is_value r.user_id user && r.problem_id == problem

-- user_id=? AND contest_problem_id=?
abbrev pub of_contest_problem : ℕ → ℕ → Submission → Bool
of_contest_problem user contest_problem r =
    is_value r.user_id user && is_value r.contest_problem_id contest_problem

unfoldable pub update_problem_final : ℕ → ℕ → List Submission → List Submission
update_problem_final user problem =
    reselect problem_final (of_problem user problem) (λ r. r.final_candidate)
      by_score_and_full_status

unfoldable pub final_order : FinalChoice → Comparator Submission
final_order FinalChoice.latest_compiling = by_latest
final_order FinalChoice.highest_score = by_score_and_full_status

unfoldable pub update_contest_problem_final :
    ℕ → ℕ → FinalChoice → List Submission → List Submission
update_contest_problem_final user contest_problem method =
    reselect contest_problem_final (of_contest_problem user contest_problem)
      (λ r. r.final_candidate) (final_order method)

unfoldable pub initial_final_order : FinalChoice → ScoreRevealing → Comparator Submission
initial_final_order FinalChoice.latest_compiling revealing = by_latest
initial_final_order FinalChoice.highest_score ScoreRevealing.none = by_initial_status
initial_final_order FinalChoice.highest_score ScoreRevealing.only_score =
    by_score_and_initial_status
initial_final_order FinalChoice.highest_score ScoreRevealing.score_and_full_status =
    by_score_and_full_status

unfoldable pub update_contest_problem_initial_final :
    ℕ → ℕ → FinalChoice → ScoreRevealing → List Submission → List Submission
update_contest_problem_initial_final user contest_problem method revealing =
    reselect contest_problem_initial_final (of_contest_problem user contest_problem)
      (λ r. r.initial_final_candidate) (initial_final_order method revealing)

unfoldable pub is_ok_for_final_candidate : Status → Bool
is_ok_for_final_candidate Status.ok = true
is_ok_for_final_candidate Status.wa = true
is_ok_for_final_candidate Status.tle = true
is_ok_for_final_candidate Status.mle = true
is_ok_for_final_candidate Status.ole = true
is_ok_for_final_candidate Status.rte = true
is_ok_for_final_candidate Status.pending = false
is_ok_for_final_candidate Status.compilation_error = false
is_ok_for_final_candidate Status.checker_compilation_error = false
is_ok_for_final_candidate Status.judge_error = false

unfoldable pub is_final_candidate : SubmissionType → Status → Option ℤ → Bool
is_final_candidate SubmissionType.ignored full_status score = false
is_final_candidate SubmissionType.problem_solution full_status score = false
is_final_candidate SubmissionType.normal full_status score =
    if has_value score then is_ok_for_final_candidate full_status else false

abbrev revealed_candidate : Status → Status → Option ℤ → Option ScoreRevealing → Bool
revealed_candidate initial full score none = is_ok_for_final_candidate initial
revealed_candidate initial full score (some ScoreRevealing.none) = is_ok_for_final_candidate initial
revealed_candidate initial full score (some ScoreRevealing.only_score) =
    is_ok_for_final_candidate initial && has_value score
revealed_candidate initial full score (some ScoreRevealing.score_and_full_status) =
    is_ok_for_final_candidate full && has_value score

unfoldable pub is_initial_final_candidate :
    SubmissionType → Status → Status → Option ℤ → Option ScoreRevealing → Bool
is_initial_final_candidate SubmissionType.ignored initial full score revealing = false
is_initial_final_candidate SubmissionType.problem_solution initial full score revealing = false
is_initial_final_candidate SubmissionType.normal initial full score revealing =
    revealed_candidate initial full score revealing

unfoldable pub update_contest_finals : ℕ → ℕ → ContestProblem → List Submission → List Submission
update_contest_finals user contest_problem settings rows =
    update_contest_problem_initial_final user contest_problem
      settings.method_of_choosing_final_submission settings.score_revealing
      (update_contest_problem_final user contest_problem
        settings.method_of_choosing_final_submission rows)

unfoldable pub select_contest_problem : ℕ → Db → Result ContestProblem
select_contest_problem contest_problem db =
    require (find_where (λ q. q.id == contest_problem) db.contest_problems)

unfoldable pub update_contest_part : ℕ → Option ℕ → Db → Result Db
unfolding select_contest_problem update_contest_finals
update_contest_part user none db = ok db
update_contest_part user (some contest_problem) db = do
  settings ← select_contest_problem contest_problem db
  ok (record db {
    submissions = update_contest_finals user contest_problem settings db.submissions;
  })

unfoldable pub update_final : Option ℕ → ℕ → Option ℕ → Db → Result Db
unfolding update_contest_part
update_final none problem contest_problem db = ok db
update_final (some user) problem contest_problem db =
    update_contest_part user contest_problem
      (record db { submissions = update_problem_final user problem db.submissions })
