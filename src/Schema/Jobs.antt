-- ===== src/Schema/Jobs.antt =====
-- jobs/job.hh: background jobs and their default priorities.
use sim_project.Common.{ℕ, Bool, Option, Bytes}

pub data JobType : Type 0 where
  judge_submission add_problem reupload_problem edit_problem delete_problem : JobType
  reselect_final_submissions_in_contest_problem delete_user delete_contest : JobType
  delete_contest_round delete_contest_problem : JobType
  reset_problem_time_limits_using_model_solution merge_problems rejudge_submission : JobType
  delete_internal_file change_problem_statement merge_users : JobType

-- The number that the database keeps for a type.
unfoldable pub JobType_code : JobType → ℕ
JobType_code JobType.judge_submission = 1
JobType_code JobType.add_problem = 2
JobType_code JobType.reupload_problem = 3
JobType_code JobType.edit_problem = 6
JobType_code JobType.delete_problem = 7
JobType_code JobType.reselect_final_submissions_in_contest_problem = 8
JobType_code JobType.delete_user = 9
JobType_code JobType.delete_contest = 10
JobType_code JobType.delete_contest_round = 11
JobType_code JobType.delete_contest_problem = 12
JobType_code JobType.reset_problem_time_limits_using_model_solution = 13
JobType_code JobType.merge_problems = 14
JobType_code JobType.rejudge_submission = 15
JobType_code JobType.delete_internal_file = 16
JobType_code JobType.change_problem_statement = 17
JobType_code JobType.merge_users = 18

pub data JobStatus : Type 0 where
  pending in_progress done failed cancelled : JobStatus

pub record Job : Type 0 where
  pub id : ℕ
  pub created_at : Bytes
  pub creator : Option ℕ
  pub type : JobType
  pub priority : ℕ
  pub status : JobStatus
  pub aux_id : Option ℕ
  pub aux_id_2 : Option ℕ
  pub log : Bytes

-- The greater, the more important.
unfoldable pub default_priority : JobType → ℕ
default_priority JobType.delete_internal_file = 40
default_priority JobType.delete_problem = 30
default_priority JobType.reselect_final_submissions_in_contest_problem = 30
default_priority JobType.delete_user = 30
default_priority JobType.delete_contest = 30
default_priority JobType.delete_contest_round = 30
default_priority JobType.delete_contest_problem = 30
default_priority JobType.merge_users = 25
default_priority JobType.merge_problems = 25
default_priority JobType.edit_problem = 25
default_priority JobType.change_problem_statement = 25
default_priority JobType.reset_problem_time_limits_using_model_solution = 20
default_priority JobType.add_problem = 10
default_priority JobType.reupload_problem = 10
default_priority JobType.judge_submission = 5
default_priority JobType.rejudge_submission = 4

-- merge_problems_jobs/merge_problems_job.hh
pub record MergeProblemsJob : Type 0 where
  pub id : ℕ
  pub rejudge_transferred_submissions : Bool
