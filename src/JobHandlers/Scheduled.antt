-- ===== src/JobHandlers/Scheduled.antt =====
-- Deleting a contest problem or a user leaves no file of a submission behind.
use sim_project.Common.{
  ℕ, ◌<◌, ap, not, Bool, Bool-cases, Option-cases, ◌==◌, is_value, keep, In-keep, In, ◌⊎◌, inl, inr,
  arith, Bytes,
}
use sim_project.Sql.{find_where, update_where, delete_where}
use sim_project.Db.{Db, delete_contest_problems_row, delete_users_row}
use sim_project.Schema.Submissions.{Submission}
use sim_project.Schema.Jobs.{Job, JobType}
use sim_project.JobHandlers.Inserted.{
  IsJobFor, insert_deletions-In, insert_deletions-OnlyJobs, update_where-In,
}
use sim_project.JobHandlers.{
  insert_deletions, mark_job_as_done, mark_job_as_cancelled, set_job_status_and_log,
}
use sim_project.JobHandlers.DeleteUser.{delete_user}
use sim_project.JobHandlers.DeleteContestProblem.{
  contest_problem_exists, delete_existing, delete_contest_problem,
}

-- A pending job will delete the file.
abbrev pub IsDeletion : ℕ → Job → Type 0
IsDeletion = IsJobFor JobType.delete_internal_file

abbrev pub IsScheduled : ℕ → Db → Type 0
IsScheduled file_id db = (j : Job) × In j db.jobs × IsDeletion file_id j

-- The statements that the handlers share: jobs for the files of the rows, then the rows go, and the
-- job is done.
module _ (logs now : Bytes) (job_id : ℕ) (gone : Submission → Bool) (db : Db)
    (old : job_id < db.next_job_id) where
  abbrev deleted : Db
  deleted = insert_deletions now (keep gone db.submissions) db

  kept_or_scheduled :
      (change : Job → Job)
      → (s : Submission) → In s db.submissions
      → In s (delete_where gone deleted.submissions)
        ⊎ ((j : Job) × In j (update_where (λ u. u.id == job_id) change deleted.jobs)
            × IsDeletion s.file_id j)
  unfolding delete_where
  kept_or_scheduled change s i = elim (Bool-cases (gone s)) [
    | inr n ↦ inl (
        In-keep (λ r. not (gone r)) s _
          (rw
            (ap (λ (d : Db). d.submissions)
              (insert_deletions-OnlyJobs now (keep gone db.submissions) db))
            i)
          (ap not n))
    | inl t ↦
        let (j, k, d, l) =
          insert_deletions-In now (keep gone db.submissions) db s
            (In-keep gone s db.submissions i t) in
        inr (j, update_where-In (λ u. u.id == job_id) change j deleted.jobs (ground arith) k, d)
  ]

-- Let the id of the job be one that was given already. After the job that deletes a contest problem,
-- each submission that was there is there still, or a pending job will delete its file.
pub delete_contest_problem-IsScheduled :
    (logs now : Bytes) (job_id contest_problem_id : ℕ) (db : Db)
    → job_id < db.next_job_id
    → (s : Submission) → In s db.submissions
    → In s (delete_contest_problem logs now job_id contest_problem_id db).submissions
      ⊎ IsScheduled s.file_id (delete_contest_problem logs now job_id contest_problem_id db)
unfolding delete_contest_problem delete_existing delete_contest_problems_row mark_job_as_done
    mark_job_as_cancelled set_job_status_and_log
delete_contest_problem-IsScheduled logs now job_id contest_problem_id db old s i =
    elim (Bool-cases (contest_problem_exists contest_problem_id db)) [
      | inl t ↦ rw t (
          kept_or_scheduled logs now job_id (λ r. is_value r.contest_problem_id contest_problem_id)
            db old _ s i)
      | inr n ↦ rw n (inl i)
    ]

-- Let the id of the job be one that was given already. After the job that deletes a user, each
-- submission that was there is there still, or a pending job will delete its file.
pub delete_user-IsScheduled :
    (logs now : Bytes) (job_id user_id : ℕ) (db : Db)
    → job_id < db.next_job_id
    → (s : Submission) → In s db.submissions
    → In s (delete_user logs now job_id user_id db).submissions
      ⊎ IsScheduled s.file_id (delete_user logs now job_id user_id db)
unfolding delete_user delete_users_row mark_job_as_done mark_job_as_cancelled set_job_status_and_log
delete_user-IsScheduled logs now job_id user_id db old s i =
    elim (Option-cases (find_where (λ u. u.id == user_id) db.users)) [
      | inr (u, t) ↦
          rw t (kept_or_scheduled logs now job_id (λ r. is_value r.user_id user_id) db old _ s i)
      | inl n ↦ rw n (inl i)
    ]
