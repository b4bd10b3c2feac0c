-- ===== src/Tests/OfJobs.antt =====
-- Examples for `Capabilities.Jobs.Laws`: user 7 looks at the jobs of problems.
use sim_project.Common.{◌≡◌, ◌⊎◌, true, Bool, none, some, refl}
use sim_project.Schema.Users.{UserType}
use sim_project.Schema.Jobs.{JobType}
use sim_project.Capabilities.{Nothing}
use sim_project.Capabilities.Jobs.{
  JobCapabilities, job, branch, of_submission, of_problem, list_jobs, list_problem_jobs,
  list_submission_jobs,
}
use sim_project.Capabilities.Jobs.Laws.{fields, job-needs_view, query_all-view_job}
use sim_project.Tests.{normal_session, session_of}

abbrev foreign : JobCapabilities
foreign = job normal_session JobType.add_problem (some 2) none none none

abbrev seen_by_admin : JobCapabilities
seen_by_admin = job (session_of 2 UserType.admin) JobType.add_problem (some 2) none none none

job-needs_view_example :
    Nothing (fields foreign)
    × (seen_by_admin.download_attached_file ≡ true
        → (JobType.add_problem ≡ JobType.add_problem)
          ⊎ (JobType.add_problem ≡ JobType.reupload_problem)
          ⊎ (JobType.add_problem ≡ JobType.change_problem_statement))
    × ((JobType.add_problem ≡ JobType.add_problem)
          ⊎ (JobType.add_problem ≡ JobType.reupload_problem)
          ⊎ (JobType.add_problem ≡ JobType.change_problem_statement)
        → seen_by_admin.download_attached_file ≡ true)
unfolding job
job-needs_view_example =
    job-needs_view normal_session JobType.add_problem (some 2) none none none
      (session_of 2 UserType.admin) none refl

abbrev own : JobCapabilities
own = job normal_session JobType.edit_problem (some 7) none none none

query_all-view_job_example :
    ((list_jobs normal_session).query_all ≡ true → own.view ≡ true)
    × ((list_problem_jobs normal_session (some 7)).query_all ≡ true
        → (b : Bool) → branch JobType.edit_problem ≡ of_problem b
        → (own.view ≡ true)
          × ((job normal_session JobType.edit_problem none (some 7) none none).view ≡ true))
    × ((list_submission_jobs normal_session none none).query_all ≡ true
        → branch JobType.edit_problem ≡ of_submission
        → own.view ≡ true)
query_all-view_job_example =
    query_all-view_job normal_session JobType.edit_problem (some 7) none none none
