-- ===== src/JobHandlers/MergeProblems.antt =====
-- merge_problems.cc, whose log is an argument: what is in the donor problem goes to the target problem,
-- and the donor is deleted. (problem_id, is_hidden, name) is the key of the table of problem tags, so
-- that the rows of one UPDATE IGNORE do not come into each other's way.
pub mod Marks
pub mod Sound
pub mod Deleted
pub mod Merged
pub mod Jobs
pub mod Scheduled
use sim_project.Common.{
  ◌>>=◌, ℕ, Bool, true, false, not, ◌==◌, ◌&&◌, has_value, keep, if◌then◌else◌, List, map, Option,
  none, some, Result, ok, require, compare, Bytes, same_bytes,
}
use sim_project.Sql.{Comparator, find_where, update_where, delete_where, distinct_by, order_by}
use sim_project.Db.{Db, delete_problems_row}
use sim_project.Schema.Problems.{Problem, ProblemTag}
use sim_project.Schema.Submissions.{Submission, SubmissionType}
use sim_project.Schema.Jobs.{JobType, MergeProblemsJob}
use sim_project.Finals.ToUpdate.{FinalToUpdate, same_final, update_finals}
use sim_project.JobHandlers.{mark_job_as_done, mark_job_as_failed, insert_jobs, insert_deletions}

unfoldable pub is_problem_solution : SubmissionType → Bool
is_problem_solution SubmissionType.normal = false
is_problem_solution SubmissionType.ignored = false
is_problem_solution SubmissionType.problem_solution = true

-- UPDATE contest_problems
unfoldable pub transfer_contest_problems : ℕ → ℕ → Db → Db
transfer_contest_problems donor_problem_id target_problem_id db = record db {
  contest_problems =
      update_where (λ q. q.problem_id == donor_problem_id)
        (λ q. record q { problem_id = target_problem_id }) db.contest_problems;
}

abbrev pub is_solution_of : ℕ → Submission → Bool
is_solution_of problem_id s = (s.problem_id == problem_id) && is_problem_solution s.type

-- The two INSERTs of jobs that delete files, and the DELETE of the problem solutions.
unfoldable pub delete_solutions : Bytes → ℕ → Db → Db
unfolding insert_deletions is_problem_solution
delete_solutions now donor_problem_id db =
    let db' =
      insert_jobs now JobType.delete_internal_file
        (map (λ p. p.file_id) (keep (λ p. p.id == donor_problem_id) db.problems)) db in
    let db'' = insert_deletions now (keep (is_solution_of donor_problem_id) db'.submissions) db' in
    record db'' { submissions = delete_where (is_solution_of donor_problem_id) db''.submissions }

-- SELECT DISTINCT user_id, contest_problem_id, each with the arguments of its call of `update_final`.
unfoldable pub select_finals_to_update : ℕ → ℕ → Db → List FinalToUpdate
select_finals_to_update donor_problem_id target_problem_id db = distinct_by same_final (
    map
      (λ s. record {
        user_id = s.user_id;
        problem_id = target_problem_id;
        contest_problem_id = s.contest_problem_id;
      })
      (keep (λ s. s.problem_id == donor_problem_id) db.submissions))

-- ORDER BY id
abbrev pub by_id : Comparator Submission
by_id r s = compare r.id s.id

unfoldable pub schedule_rejudges : Bytes → Bool → ℕ → Db → Db
schedule_rejudges now rejudge_transferred_submissions donor_problem_id db =
    if rejudge_transferred_submissions
    then insert_jobs now JobType.rejudge_submission
        (map (λ s. s.id)
          (order_by by_id (keep (λ s. s.problem_id == donor_problem_id) db.submissions)))
        db
    else db

abbrev pub put_in : ℕ → Submission → Submission
put_in target_problem_id s = record s { problem_id = target_problem_id }

unfoldable pub transfer_submissions : ℕ → ℕ → Db → Db
transfer_submissions donor_problem_id target_problem_id db = record db {
  submissions =
      update_where (λ s. s.problem_id == donor_problem_id) (put_in target_problem_id)
        db.submissions;
}

abbrev pub same_flag : Bool → Bool → Bool
same_flag true b = b
same_flag false b = not b

-- The key is taken.
abbrev pub has_tag : ℕ → ProblemTag → List ProblemTag → Bool
has_tag problem_id tag rows = has_value (
    find_where
      (λ t.
        (t.problem_id == problem_id)
        && (same_flag t.is_hidden tag.is_hidden && same_bytes t.name tag.name))
      rows)

-- UPDATE IGNORE problem_tags
unfoldable pub transfer_tags : ℕ → ℕ → Db → Db
transfer_tags donor_problem_id target_problem_id db = record db {
  problem_tags =
      update_where
        (λ t.
          (t.problem_id == donor_problem_id) && not (has_tag target_problem_id t db.problem_tags))
        (λ t. record t { problem_id = target_problem_id }) db.problem_tags;
}

unfoldable pub merge_existing : Bytes → Bytes → ℕ → ℕ → ℕ → Bool → Db → Result Db
unfolding transfer_contest_problems delete_solutions select_finals_to_update schedule_rejudges
    transfer_submissions transfer_tags delete_problems_row
merge_existing logs now job_id donor_problem_id target_problem_id rejudge_transferred_submissions
      db =
    do
      let mid =
          delete_solutions now donor_problem_id
            (transfer_contest_problems donor_problem_id target_problem_id db)
      let finals_to_update = select_finals_to_update donor_problem_id target_problem_id mid
      let mid' = schedule_rejudges now rejudge_transferred_submissions donor_problem_id mid
      db' ←
          update_finals finals_to_update
            (transfer_submissions donor_problem_id target_problem_id mid')
      ok (
          mark_job_as_done logs job_id (
            delete_problems_row donor_problem_id
              (transfer_tags donor_problem_id target_problem_id db')))

unfoldable pub merge_found :
    Bytes → Bytes → ℕ → ℕ → ℕ → Option Problem → Option Problem → Bool → Db → Result Db
unfolding merge_existing
merge_found logs now job_id donor_problem_id target_problem_id none target rejudge db =
    ok (mark_job_as_failed logs job_id db)
merge_found logs now job_id donor_problem_id target_problem_id (some donor) none rejudge db =
    ok (mark_job_as_failed logs job_id db)
merge_found logs now job_id donor_problem_id target_problem_id (some donor) (some target) rejudge
      db =
    merge_existing logs now job_id donor_problem_id target_problem_id rejudge db

unfoldable pub merge_problems : Bytes → Bytes → ℕ → ℕ → ℕ → Db → Result Db
unfolding merge_found
merge_problems logs now job_id donor_problem_id target_problem_id db = do
  job ← require (find_where (λ (m : MergeProblemsJob). m.id == job_id) db.merge_problems_jobs)
  merge_found logs now job_id donor_problem_id target_problem_id
      (find_where (λ p. p.id == donor_problem_id) db.problems)
      (find_where (λ p. p.id == target_problem_id) db.problems) job.rejudge_transferred_submissions
      db
