-- ===== src/JobHandlers.antt =====
-- The handlers of background jobs: subprojects/sim/src/job_server/job_handlers, common.cc first. A
-- handler is one transaction, a function of the database. The text of the log is an argument.
pub mod Inserted
pub mod Reselect
pub mod Reselected
pub mod DeleteContestProblem
pub mod DeleteUser
pub mod MergeUsers
pub mod MergeProblems
pub mod Scheduled
pub mod Deletions
pub mod Files
use sim_project.Common.{ℕ, suc, ◌==◌, List, [], ◌∷◌, map, none, some, Bytes}
use sim_project.Sql.{update_where}
use sim_project.Db.{Db}
use sim_project.Schema.Jobs.{JobType, JobStatus, default_priority}
use sim_project.Schema.Submissions.{Submission}

unfoldable pub set_job_status_and_log : Bytes → ℕ → JobStatus → Db → Db
set_job_status_and_log logs job_id status db = record db {
  jobs = update_where (λ j. j.id == job_id) (λ j. record j { status = status; log = logs }) db.jobs;
}

unfoldable pub mark_job_as_done : Bytes → ℕ → Db → Db
unfolding set_job_status_and_log
mark_job_as_done logs job_id = set_job_status_and_log logs job_id JobStatus.done

unfoldable pub mark_job_as_cancelled : Bytes → ℕ → Db → Db
unfolding set_job_status_and_log
mark_job_as_cancelled logs job_id = set_job_status_and_log logs job_id JobStatus.cancelled

unfoldable pub mark_job_as_failed : Bytes → ℕ → Db → Db
unfolding set_job_status_and_log
mark_job_as_failed logs job_id = set_job_status_and_log logs job_id JobStatus.failed

unfoldable pub update_job_log : Bytes → ℕ → Db → Db
update_job_log logs job_id db = record db {
  jobs = update_where (λ j. j.id == job_id) (λ j. record j { log = logs }) db.jobs;
}

-- One row of INSERT INTO jobs (creator, type, priority, status, created_at, aux_id) SELECT ...: a pending
-- job of nobody, with the default priority of its type. It takes the next id.
unfoldable pub insert_job : Bytes → JobType → ℕ → Db → Db
insert_job now type aux_id db = record db {
  jobs =
      record {
        id = db.next_job_id;
        created_at = now;
        creator = none;
        type = type;
        priority = default_priority type;
        status = JobStatus.pending;
        aux_id = some aux_id;
        aux_id_2 = none;
        log = [];
      }
      ∷ db.jobs;
  next_job_id = suc db.next_job_id;
}

-- The rows of the SELECT.
unfoldable pub insert_jobs : Bytes → JobType → List ℕ → Db → Db
unfolding insert_job
insert_jobs now type [] db = db
insert_jobs now type (aux_id ∷ aux_ids) db =
    insert_jobs now type aux_ids (insert_job now type aux_id db)

-- Jobs that delete the files of submissions.
unfoldable pub insert_deletions : Bytes → List Submission → Db → Db
unfolding insert_jobs
insert_deletions now rows = insert_jobs now JobType.delete_internal_file (map (λ s. s.file_id) rows)
