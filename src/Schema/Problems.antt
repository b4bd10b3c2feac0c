-- ===== src/Schema/Problems.antt =====
-- problems/problem.hh: problems, without the constants of their forms.
use sim_project.Common.{ℕ, Bool, Option, Bytes}

pub data Visibility : Type 0 where
  public private contest_only : Visibility

pub record Problem : Type 0 where
  pub id : ℕ
  pub created_at : Bytes
  pub file_id : ℕ
  pub visibility : Visibility
  pub name : Bytes
  pub label : Bytes
  pub simfile : Bytes
  pub owner_id : Option ℕ
  pub updated_at : Bytes

-- problem_tags/problem_tag.hh
pub record ProblemTag : Type 0 where
  pub problem_id : ℕ
  pub is_hidden : Bool
  pub name : Bytes
