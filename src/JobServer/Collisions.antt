-- ===== src/JobServer/Collisions.antt =====
-- The conditions of the filter say that no lock is shared.
use sim_project.Common.{ℕ, ◌≡◌, refl, Bool, true, false, Option, none, some, ok, arith}
use sim_project.Schema.Jobs.{Job, JobType, JobType_code}
use sim_project.JobServer.Condition.{Condition, evaluate, is_true}
use sim_project.JobServer.Filter.{condition_of}
use sim_project.JobServer.Locks.{locks_of, are_apart}

-- A job of the type has all ids that it works on.
unfoldable pub is_targeted : JobType → Option ℕ → Option ℕ → Bool
is_targeted JobType.add_problem a b = true
is_targeted JobType.merge_problems none b = false
is_targeted JobType.merge_problems (some a) none = false
is_targeted JobType.merge_problems (some a) (some b) = true
is_targeted JobType.merge_users none b = false
is_targeted JobType.merge_users (some a) none = false
is_targeted JobType.merge_users (some a) (some b) = true
is_targeted _ none b = false
is_targeted _ (some a) b = true

-- What a WHERE with the condition, or without one, takes.
abbrev pub allows : Option Condition → Job → Bool
allows none j = true
allows (some c) j = is_true (evaluate c j)

-- The same for the columns that a condition reads.
columns-are_apart :
    (t : JobType) (a b : Option ℕ) (found : Option Condition) (j : Job) (r : JobType)
    → condition_of t a b ≡ ok found
    → j.type ≡ r
    → is_targeted r j.aux_id j.aux_id_2 ≡ true
    → allows found j ≡ are_apart (locks_of r j.aux_id j.aux_id_2) (locks_of t a b)
unfolding condition_of evaluate locks_of JobType_code is_targeted
columns-are_apart _ a b found j r e t h = ground arith

-- Let a job be in progress, and let a row of `jobs` have all ids that a job of its type works on. The
-- condition that the job in progress adds to the filter, if any, lets the row pass exactly if the
-- two jobs have no lock in common.
pub condition_of-are_apart :
    (job_type : JobType) (aux_id aux_id_2 : Option ℕ) (found : Option Condition) (j : Job)
    → condition_of job_type aux_id aux_id_2 ≡ ok found
    → is_targeted j.type j.aux_id j.aux_id_2 ≡ true
    → allows found j
      ≡ are_apart (locks_of j.type j.aux_id j.aux_id_2) (locks_of job_type aux_id aux_id_2)
condition_of-are_apart job_type aux_id aux_id_2 found j e h =
    columns-are_apart job_type aux_id aux_id_2 found j j.type e refl h

-- The condition of a job that has all its ids can be made.
pub is_targeted-condition_of :
    (t : JobType) (a b : Option ℕ)
    → is_targeted t a b ≡ true
    → (found : Option Condition) × (condition_of t a b ≡ ok found)
unfolding condition_of is_targeted
is_targeted-condition_of JobType.add_problem a b h = (none, refl)
is_targeted-condition_of JobType.merge_problems (some a) (some b) h = (_, refl)
is_targeted-condition_of JobType.merge_users (some a) (some b) h = (_, refl)
is_targeted-condition_of JobType.judge_submission (some a) b h = (_, refl)
is_targeted-condition_of JobType.rejudge_submission (some a) b h = (_, refl)
is_targeted-condition_of JobType.reupload_problem (some a) b h = (_, refl)
is_targeted-condition_of JobType.edit_problem (some a) b h = (_, refl)
is_targeted-condition_of JobType.delete_problem (some a) b h = (_, refl)
is_targeted-condition_of JobType.reset_problem_time_limits_using_model_solution (some a) b h =
    (_, refl)
is_targeted-condition_of JobType.change_problem_statement (some a) b h = (_, refl)
is_targeted-condition_of JobType.reselect_final_submissions_in_contest_problem (some a) b h =
    (_, refl)
is_targeted-condition_of JobType.delete_contest_problem (some a) b h = (_, refl)
is_targeted-condition_of JobType.delete_user (some a) b h = (_, refl)
is_targeted-condition_of JobType.delete_contest (some a) b h = (_, refl)
is_targeted-condition_of JobType.delete_contest_round (some a) b h = (_, refl)
is_targeted-condition_of JobType.delete_internal_file (some a) b h = (_, refl)
is_targeted-condition_of JobType.merge_problems (some a) none h = cc
is_targeted-condition_of JobType.merge_users (some a) none h = cc
is_targeted-condition_of _ none b h = cc
