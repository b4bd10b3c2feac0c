-- ===== src/Schema/Submissions.antt =====
-- submissions/submission.hh: a submission's row.
use sim_project.Common.{ℕ, ℤ, Bool, Option, Bytes}

pub data SubmissionType : Type 0 where
  normal ignored problem_solution : SubmissionType

pub data Language : Type 0 where
  c11 cpp11 pascal cpp14 cpp17 python rust cpp20 cpp23 c23 : Language

pub data Status : Type 0 where
  ok wa tle mle ole rte pending compilation_error checker_compilation_error judge_error : Status

pub Status-discrete : Discrete Status
Status-discrete = hlevel

-- The number that the database keeps for a status, by which rows are sorted.
unfoldable pub Status_code : Status → ℕ
Status_code Status.ok = 1
Status_code Status.wa = 2
Status_code Status.tle = 3
Status_code Status.mle = 4
Status_code Status.ole = 5
Status_code Status.rte = 6
Status_code Status.pending = 8
Status_code Status.compilation_error = 9
Status_code Status.checker_compilation_error = 10
Status_code Status.judge_error = 11

pub record Submission : Type 0 where
  pub id : ℕ
  pub created_at : Bytes
  pub file_id : ℕ
  pub user_id : Option ℕ
  pub problem_id : ℕ
  pub contest_problem_id : Option ℕ
  pub contest_round_id : Option ℕ
  pub contest_id : Option ℕ
  pub type : SubmissionType
  pub language : Language
  pub initial_final_candidate : Bool
  pub final_candidate : Bool
  pub problem_final : Bool
  pub contest_problem_final : Bool
  pub contest_problem_initial_final : Bool
  pub initial_status : Status
  pub full_status : Status
  pub score : Option ℤ
  pub last_judgment_began_at : Option Bytes
  pub initial_report : Bytes
  pub final_report : Bytes
