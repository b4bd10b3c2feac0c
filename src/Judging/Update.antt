-- ===== src/Judging/Update.antt =====
-- `update_submission`, the lambda of judge_or_rejudge_submission.cc that stores a verdict.
use sim_project.Common.{ℕ, ◌==◌, Option, none, some, Result, ok}
use sim_project.Sql.{find_where, update_where}
use sim_project.Db.{Db}
use sim_project.Schema.Submissions.{Submission, SubmissionType}
use sim_project.Schema.Contests.{ScoreRevealing}
use sim_project.Finals.{is_final_candidate, is_initial_final_candidate, update_final}
use sim_project.Judging.{Verdict}

-- What the handler selected in its first transaction, as far as `update_submission` uses it.
pub record Judged : Type 0 where
  pub submission_id : ℕ
  pub submission_user_id : Option ℕ
  pub submission_problem_id : ℕ
  pub submission_contest_problem_id : Option ℕ

unfoldable pub select_submission : ℕ → Db → Option Submission
select_submission submission_id db = find_where (λ s. s.id == submission_id) db.submissions

-- cp.score_revealing, by the LEFT JOIN with contest_problems.
unfoldable pub score_revealing_of : Option ℕ → Db → Option ScoreRevealing
score_revealing_of none db = none
score_revealing_of (some contest_problem_id) db =
    elim (find_where (λ q. q.id == contest_problem_id) db.contest_problems) [
      | none ↦ none
      | some q ↦ some q.score_revealing
    ]

-- The SET of the UPDATE.
unfoldable pub set_verdict :
    SubmissionType → Option ScoreRevealing → Verdict → Submission → Submission
set_verdict type revealing v s = record s {
  initial_final_candidate =
      is_initial_final_candidate type v.initial_status v.full_status v.score revealing;
  final_candidate = is_final_candidate type v.full_status v.score;
  initial_status = v.initial_status;
  full_status = v.full_status;
  score = v.score;
  initial_report = v.initial_report;
  final_report = v.final_report;
}

unfoldable pub store_verdict : ℕ → SubmissionType → Option ScoreRevealing → Verdict → Db → Db
unfolding set_verdict
store_verdict submission_id type revealing v db = record db {
  submissions =
      update_where (λ s. s.id == submission_id) (set_verdict type revealing v) db.submissions;
}

unfoldable pub update_selected : Judged → Verdict → Option Submission → Db → Result Db
unfolding store_verdict score_revealing_of
update_selected j v none db = ok db
update_selected j v (some s) db =
    update_final j.submission_user_id j.submission_problem_id j.submission_contest_problem_id
      (store_verdict j.submission_id s.type (score_revealing_of s.contest_problem_id db) v db)

unfoldable pub update_submission : Judged → Verdict → Db → Result Db
unfolding update_selected select_submission
update_submission j v db = update_selected j v (select_submission j.submission_id db) db
