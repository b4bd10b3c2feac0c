-- ===== src/JobHandlers/DeleteContestProblem.antt =====
-- delete_contest_problem.cc, whose log is an argument. The time of the new jobs is `now`; a new row of
-- `jobs` takes the next id.
use sim_project.Common.{
  ℕ, Bool, false, ◌==◌, ◌&&◌, is_value, has_value, keep, if◌then◌else◌, none, some, Bytes,
}
use sim_project.Sql.{find_where}
use sim_project.Db.{Db, delete_contest_problems_row}
use sim_project.JobHandlers.{mark_job_as_done, mark_job_as_cancelled, insert_deletions}

-- The SELECT with its two INNER JOINs gives a row.
unfoldable pub contest_problem_exists : ℕ → Db → Bool
contest_problem_exists contest_problem_id db =
    elim (find_where (λ q. q.id == contest_problem_id) db.contest_problems) [
      | none ↦ false
      | some q ↦
          has_value (find_where (λ r. r.id == q.contest_round_id) db.contest_rounds)
          && has_value (find_where (λ c. c.id == q.contest_id) db.contests)
    ]

unfoldable pub delete_existing : Bytes → Bytes → ℕ → ℕ → Db → Db
unfolding insert_deletions delete_contest_problems_row
delete_existing logs now job_id contest_problem_id db = mark_job_as_done logs job_id (
    delete_contest_problems_row contest_problem_id (
      insert_deletions now
        (keep (λ s. is_value s.contest_problem_id contest_problem_id) db.submissions) db))

unfoldable pub delete_contest_problem : Bytes → Bytes → ℕ → ℕ → Db → Db
unfolding contest_problem_exists delete_existing
delete_contest_problem logs now job_id contest_problem_id db =
    if contest_problem_exists contest_problem_id db
    then delete_existing logs now job_id contest_problem_id db
    else mark_job_as_cancelled logs job_id db
