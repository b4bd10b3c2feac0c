-- ===== src/JobHandlers/Deletions.antt =====
-- delete_problem.cc, delete_contest.cc and delete_contest_round.cc, whose log is an argument. The time of
-- the new jobs is `now`.
use sim_project.Common.{
  ℕ, ◌==◌, is_value, has_value, keep, if◌then◌else◌, map, Bool, false, none, some, Bytes,
}
use sim_project.Sql.{find_where}
use sim_project.Db.{Db, delete_problems_row, delete_contests_row, delete_contest_rounds_row}
use sim_project.Schema.Jobs.{JobType}
use sim_project.JobHandlers.{mark_job_as_done, mark_job_as_cancelled, insert_jobs, insert_deletions}

-- What follows the checks: the files of the problem and of its submissions, and the row.
unfoldable pub delete_existing_problem : Bytes → Bytes → ℕ → ℕ → Db → Db
unfolding delete_problems_row
delete_existing_problem logs now job_id problem_id db =
    let files = map (λ p. p.file_id) (keep (λ p. p.id == problem_id) db.problems) in
    let db' = insert_jobs now JobType.delete_internal_file files db in
    let db'' = insert_deletions now (keep (λ s. s.problem_id == problem_id) db'.submissions) db' in
    mark_job_as_done logs job_id (delete_problems_row problem_id db'')

unfoldable pub delete_problem : Bytes → Bytes → ℕ → ℕ → Db → Db
unfolding delete_existing_problem
delete_problem logs now job_id problem_id db =
    if has_value (find_where (λ c. c.problem_id == problem_id) db.contest_problems)
    then mark_job_as_cancelled logs job_id db
    else if has_value (find_where (λ p. p.id == problem_id) db.problems)
    then delete_existing_problem logs now job_id problem_id db
    else mark_job_as_cancelled logs job_id db

unfoldable pub delete_existing_contest : Bytes → Bytes → ℕ → ℕ → Db → Db
unfolding delete_contests_row
delete_existing_contest logs now job_id contest_id db =
    let db' =
      insert_deletions now (keep (λ s. is_value s.contest_id contest_id) db.submissions) db in
    let files = map (λ f. f.file_id) (keep (λ f. f.contest_id == contest_id) db'.contest_files) in
    let db'' = insert_jobs now JobType.delete_internal_file files db' in
    mark_job_as_done logs job_id (delete_contests_row contest_id db'')

unfoldable pub delete_contest : Bytes → Bytes → ℕ → ℕ → Db → Db
unfolding delete_existing_contest
delete_contest logs now job_id contest_id db =
    if has_value (find_where (λ c. c.id == contest_id) db.contests)
    then delete_existing_contest logs now job_id contest_id db
    else mark_job_as_cancelled logs job_id db

-- The SELECT with its INNER JOIN gives a row.
unfoldable pub contest_round_exists : ℕ → Db → Bool
contest_round_exists contest_round_id db =
    elim (find_where (λ r. r.id == contest_round_id) db.contest_rounds) [
      | none ↦ false
      | some r ↦ has_value (find_where (λ c. c.id == r.contest_id) db.contests)
    ]

unfoldable pub delete_contest_round : Bytes → Bytes → ℕ → ℕ → Db → Db
unfolding contest_round_exists delete_contest_rounds_row
delete_contest_round logs now job_id contest_round_id db =
    if contest_round_exists contest_round_id db
    then mark_job_as_done logs job_id (
        delete_contest_rounds_row contest_round_id (
          insert_deletions now
            (keep (λ s. is_value s.contest_round_id contest_round_id) db.submissions) db))
    else mark_job_as_cancelled logs job_id db
