-- ===== src/Capabilities/Jobs.antt =====
-- capabilities/jobs.cc
pub mod Laws
use sim_project.Common.{ℕ, Bool, true, false, ◌||◌, Option}
use sim_project.Schema.Users.{Session}
use sim_project.Schema.Contests.{Mode}
use sim_project.Schema.Jobs.{JobType}
use sim_project.Capabilities.{is_admin, is_self_opt, at_least_moderates_contest}

pub record JobsCapabilities : Type 0 where
  pub web_ui_view : Bool

unfoldable pub jobs : Option Session → JobsCapabilities
unfolding is_admin
jobs session = record { web_ui_view = is_admin session }

pub record JobsListCapabilities : Type 0 where
  pub query_all : Bool
  pub query_with_status_pending : Bool
  pub query_with_status_in_progress : Bool
  pub query_with_status_done : Bool
  pub query_with_status_failed : Bool
  pub query_with_status_cancelled : Bool

unfoldable pub list_jobs : Option Session → JobsListCapabilities
unfolding is_admin
list_jobs session = record {
  query_all = is_admin session;
  query_with_status_pending = is_admin session;
  query_with_status_in_progress = is_admin session;
  query_with_status_done = is_admin session;
  query_with_status_failed = is_admin session;
  query_with_status_cancelled = is_admin session;
}

unfoldable pub list_problem_jobs : Option Session → Option ℕ → JobsListCapabilities
unfolding is_admin is_self_opt
list_problem_jobs session problem_owner_id =
    let owns_problem = is_self_opt session problem_owner_id in
    record {
      query_all = is_admin session || owns_problem;
      query_with_status_pending = is_admin session || owns_problem;
      query_with_status_in_progress = is_admin session || owns_problem;
      query_with_status_done = is_admin session || owns_problem;
      query_with_status_failed = is_admin session || owns_problem;
      query_with_status_cancelled = is_admin session || owns_problem;
    }

unfoldable pub list_submission_jobs : Option Session → Option ℕ → Option Mode → JobsListCapabilities
unfolding is_admin is_self_opt at_least_moderates_contest
list_submission_jobs session owner_id mode =
    let owns_problem = is_self_opt session owner_id in
    let moderates = at_least_moderates_contest mode in
    record {
      query_all = is_admin session || owns_problem || moderates;
      query_with_status_pending = is_admin session || owns_problem || moderates;
      query_with_status_in_progress = is_admin session || owns_problem || moderates;
      query_with_status_done = is_admin session || owns_problem || moderates;
      query_with_status_failed = is_admin session || owns_problem || moderates;
      query_with_status_cancelled = is_admin session || owns_problem || moderates;
    }

pub record JobCapabilities : Type 0 where
  pub view : Bool
  pub view_log : Bool
  pub download_attached_file : Bool
  pub cancel : Bool
  pub restart : Bool
  pub change_priority : Bool

-- The three branches of the switch over the type of a job.
pub data JobBranch : Type 0 where
  of_submission : JobBranch
  of_problem : Bool → JobBranch
  other : JobBranch

-- `of_problem` comes with `is_one_of(job_type, ADD_PROBLEM, REUPLOAD_PROBLEM, ...)`.
unfoldable pub branch : JobType → JobBranch
branch JobType.judge_submission = of_submission
branch JobType.rejudge_submission = of_submission
branch JobType.add_problem = of_problem true
branch JobType.reupload_problem = of_problem true
branch JobType.edit_problem = of_problem false
branch JobType.delete_problem = of_problem false
branch JobType.merge_problems = of_problem false
branch JobType.change_problem_statement = of_problem true
branch JobType.reset_problem_time_limits_using_model_solution = of_problem false
branch JobType.reselect_final_submissions_in_contest_problem = other
branch JobType.delete_user = other
branch JobType.delete_contest = other
branch JobType.delete_contest_round = other
branch JobType.delete_contest_problem = other
branch JobType.delete_internal_file = other
branch JobType.merge_users = other

unfoldable pub branch_capabilities :
    JobBranch → Option Session → Option ℕ → Option ℕ → Option ℕ → Option Mode → JobCapabilities
unfolding is_admin is_self_opt at_least_moderates_contest
branch_capabilities of_submission session owner owner_2 submission_owner mode =
    let owns_problem = is_self_opt session submission_owner in
    record {
      view = is_admin session || owns_problem || at_least_moderates_contest mode;
      view_log = is_admin session || owns_problem;
      download_attached_file = false;
      cancel = is_admin session;
      restart = is_admin session;
      change_priority = is_admin session;
    }
branch_capabilities (of_problem with_file) session owner owner_2 submission_owner mode =
    let owns_problem = is_self_opt session owner || is_self_opt session owner_2 in
    record {
      view = is_admin session || owns_problem;
      view_log = is_admin session || owns_problem;
      download_attached_file = with_file;
      cancel = is_admin session || owns_problem;
      restart = is_admin session || owns_problem;
      change_priority = is_admin session;
    }
branch_capabilities other session owner owner_2 submission_owner mode = record {
  view = is_admin session;
  view_log = is_admin session;
  download_attached_file = false;
  cancel = is_admin session;
  restart = is_admin session;
  change_priority = is_admin session;
}

unfoldable pub job :
    Option Session → JobType → Option ℕ → Option ℕ → Option ℕ → Option Mode → JobCapabilities
unfolding branch branch_capabilities
job session job_type owner owner_2 submission_owner mode =
    branch_capabilities (branch job_type) session owner owner_2 submission_owner mode
