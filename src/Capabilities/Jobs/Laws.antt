-- ===== src/Capabilities/Jobs/Laws.antt =====
-- Who may see and steer a job.
use sim_project.Common.{ℕ, ◌≡◌, Bool, true, false, Option, List, [], ◌∷◌, arith, ◌⊎◌}
use sim_project.Schema.Users.{Session}
use sim_project.Schema.Contests.{Mode}
use sim_project.Schema.Jobs.{JobType}
use sim_project.Capabilities.{Nothing}
use sim_project.Capabilities.Jobs.{
  job, branch, of_submission, of_problem, JobCapabilities, list_problem_jobs, list_submission_jobs,
  list_jobs,
}

-- The fields of the struct but `download_attached_file`.
abbrev pub fields : JobCapabilities → List Bool
fields c = c.view ∷ c.view_log ∷ c.cancel ∷ c.restart ∷ c.change_priority ∷ []

-- Who may not view a job may do nothing with it, but for `download_attached_file`: that one is
-- granted to `anybody`, a session of any user as well as none, whatever the mode in the contest,
-- exactly on the jobs that add a problem, upload it again or change its statement.
pub job-needs_view :
    (session : Option Session) (type : JobType) (owner owner_2 submission_owner : Option ℕ)
    (mode : Option Mode) (anybody : Option Session) (any_mode : Option Mode)
    → (job session type owner owner_2 submission_owner mode).view ≡ false
    → Nothing (fields (job session type owner owner_2 submission_owner mode))
      × ((job anybody type owner owner_2 submission_owner any_mode).download_attached_file ≡ true
          → (type ≡ JobType.add_problem)
            ⊎ (type ≡ JobType.reupload_problem)
            ⊎ (type ≡ JobType.change_problem_statement))
      × (((type ≡ JobType.add_problem)
            ⊎ (type ≡ JobType.reupload_problem)
            ⊎ (type ≡ JobType.change_problem_statement))
          → (job anybody type owner owner_2 submission_owner any_mode).download_attached_file
            ≡ true)
unfolding job
job-needs_view session type owner owner_2 submission_owner mode anybody any_mode h =
    (ground arith, λ d. ground arith, λ t. ground arith)

-- Whoever may query all jobs of a problem may view each job of that problem, as its first or its
-- second problem; whoever may query those of a submission may view its judging jobs; and whoever
-- may query all jobs may view every job.
pub query_all-view_job :
    (session : Option Session) (type : JobType) (owner other_owner submission_owner : Option ℕ)
    (mode : Option Mode)
    → ((list_jobs session).query_all ≡ true
        → (job session type owner other_owner submission_owner mode).view ≡ true)
      × ((list_problem_jobs session owner).query_all ≡ true
          → (b : Bool) → branch type ≡ of_problem b
          → ((job session type owner other_owner submission_owner mode).view ≡ true)
            × ((job session type other_owner owner submission_owner mode).view ≡ true))
      × ((list_submission_jobs session submission_owner mode).query_all ≡ true
          → branch type ≡ of_submission
          → (job session type owner other_owner submission_owner mode).view ≡ true)
unfolding job list_jobs list_problem_jobs list_submission_jobs
query_all-view_job session type owner other_owner submission_owner mode =
    (λ h. ground arith, λ h b e. (ground arith, ground arith), λ h e. ground arith)
