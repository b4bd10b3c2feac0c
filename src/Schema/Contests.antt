-- ===== src/Schema/Contests.antt =====
-- contest_problems/contest_problem.hh and contest_users/contest_user.hh: problems in a contest and
-- its members.
use sim_project.Common.{ℕ, Bool, Option, Bytes}

pub data FinalChoice : Type 0 where
  latest_compiling highest_score : FinalChoice

pub data ScoreRevealing : Type 0 where
  none only_score score_and_full_status : ScoreRevealing

pub record ContestProblem : Type 0 where
  pub id : ℕ
  pub created_at : Bytes
  pub contest_round_id : ℕ
  pub contest_id : ℕ
  pub problem_id : ℕ
  pub name : Bytes
  pub item : ℕ
  pub method_of_choosing_final_submission : FinalChoice
  pub score_revealing : ScoreRevealing

pub data Mode : Type 0 where
  contestant moderator owner : Mode

-- The number that the database keeps for a mode, by which modes are compared.
unfoldable pub Mode_code : Mode → ℕ
Mode_code Mode.contestant = 0
Mode_code Mode.moderator = 1
Mode_code Mode.owner = 2

pub record ContestUser : Type 0 where
  pub user_id : ℕ
  pub contest_id : ℕ
  pub mode : Mode

-- contests/contest.hh
pub record Contest : Type 0 where
  pub id : ℕ
  pub created_at : Bytes
  pub name : Bytes
  pub is_public : Bool

-- contest_rounds/contest_round.hh
pub record ContestRound : Type 0 where
  pub id : ℕ
  pub created_at : Bytes
  pub contest_id : ℕ
  pub name : Bytes
  pub item : ℕ
  pub begins : Bytes
  pub ends : Bytes
  pub full_results : Bytes
  pub ranking_exposure : Bytes

-- contest_files/contest_file.hh
pub record ContestFile : Type 0 where
  pub id : Bytes
  pub file_id : ℕ
  pub contest_id : ℕ
  pub name : Bytes
  pub description : Bytes
  pub file_size : ℕ
  pub modified : Bytes
  pub creator : Option ℕ
