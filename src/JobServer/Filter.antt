-- ===== src/JobServer/Filter.antt =====
-- `NewJobFilterBuilder`: which rows of `jobs` may not start, since a job in progress collides.
-- `column = a` is written as `column IN (a)`. The map from ids of jobs to conditions is a list of
-- entries; the order in which the conditions are joined by AND does not matter.
use sim_project.Common.{
  ℕ, Bool, true, false, not, ◌==◌, if◌then◌else◌, List, [], ◌∷◌, Option, none, some, Result, ok,
  ◌>>=◌, value, keep, map,
}
use sim_project.Schema.Jobs.{JobType, JobType_code}
use sim_project.JobServer.Condition.{
  Condition, always, type_in, aux_id_in, aux_id_2_in, both, either, negated,
}

pub record Entry : Type 0 where
  pub job_id : ℕ
  pub condition : Condition

-- type=a
abbrev pub is_type : JobType → Condition
is_type a = type_in (JobType_code a ∷ [])

-- type IN (a, ...)
abbrev pub is_one_of_types : List JobType → Condition
is_one_of_types types = type_in (map JobType_code types)

-- The jobs that work on one problem, which is their `aux_id`.
abbrev pub problem_jobs : List JobType
problem_jobs =
    JobType.reupload_problem ∷ JobType.edit_problem ∷ JobType.delete_problem
    ∷ JobType.reset_problem_time_limits_using_model_solution ∷ JobType.change_problem_statement ∷ []

-- NOT ((<single> AND aux_id IN ids) OR (type=<merge> AND (aux_id IN ids OR aux_id_2 IN ids)))
abbrev pub no_collision : Condition → JobType → List ℕ → Condition
no_collision single merge ids = negated (
    either (both single (aux_id_in ids))
      (both (is_type merge) (either (aux_id_in ids) (aux_id_2_in ids))))

-- NOT (<types> AND aux_id=a)
abbrev pub no_other : Condition → ℕ → Condition
no_other types a = negated (both types (aux_id_in (a ∷ [])))

-- The condition that the switch of `add_in_progress_job` adds, if any.
unfoldable pub condition_of : JobType → Option ℕ → Option ℕ → Result (Option Condition)
unfolding JobType_code
condition_of JobType.judge_submission aux_id aux_id_2 = do
  a ← value aux_id
  ok (
      some
        (no_other (is_one_of_types (JobType.judge_submission ∷ JobType.rejudge_submission ∷ [])) a))
condition_of JobType.rejudge_submission aux_id aux_id_2 = do
  a ← value aux_id
  ok (
      some
        (no_other (is_one_of_types (JobType.judge_submission ∷ JobType.rejudge_submission ∷ [])) a))
condition_of JobType.add_problem aux_id aux_id_2 = ok none
condition_of JobType.reupload_problem aux_id aux_id_2 = do
  a ← value aux_id
  ok (some (no_collision (is_one_of_types problem_jobs) JobType.merge_problems (a ∷ [])))
condition_of JobType.edit_problem aux_id aux_id_2 = do
  a ← value aux_id
  ok (some (no_collision (is_one_of_types problem_jobs) JobType.merge_problems (a ∷ [])))
condition_of JobType.delete_problem aux_id aux_id_2 = do
  a ← value aux_id
  ok (some (no_collision (is_one_of_types problem_jobs) JobType.merge_problems (a ∷ [])))
condition_of JobType.reset_problem_time_limits_using_model_solution aux_id aux_id_2 = do
  a ← value aux_id
  ok (some (no_collision (is_one_of_types problem_jobs) JobType.merge_problems (a ∷ [])))
condition_of JobType.change_problem_statement aux_id aux_id_2 = do
  a ← value aux_id
  ok (some (no_collision (is_one_of_types problem_jobs) JobType.merge_problems (a ∷ [])))
condition_of JobType.merge_problems aux_id aux_id_2 = do
  a ← value aux_id
  b ← value aux_id_2
  ok (some (no_collision (is_one_of_types problem_jobs) JobType.merge_problems (a ∷ b ∷ [])))
condition_of JobType.reselect_final_submissions_in_contest_problem aux_id aux_id_2 = do
  a ← value aux_id
  ok (
      some (
        no_other
          (is_one_of_types (
            JobType.reselect_final_submissions_in_contest_problem ∷ JobType.delete_contest_problem
            ∷ []))
          a))
condition_of JobType.delete_contest_problem aux_id aux_id_2 = do
  a ← value aux_id
  ok (
      some (
        no_other
          (is_one_of_types (
            JobType.reselect_final_submissions_in_contest_problem ∷ JobType.delete_contest_problem
            ∷ []))
          a))
condition_of JobType.delete_user aux_id aux_id_2 = do
  a ← value aux_id
  ok (some (no_collision (is_type JobType.delete_user) JobType.merge_users (a ∷ [])))
condition_of JobType.merge_users aux_id aux_id_2 = do
  a ← value aux_id
  b ← value aux_id_2
  ok (some (no_collision (is_type JobType.delete_user) JobType.merge_users (a ∷ b ∷ [])))
condition_of JobType.delete_contest aux_id aux_id_2 = do
  a ← value aux_id
  ok (some (no_other (is_type JobType.delete_contest) a))
condition_of JobType.delete_contest_round aux_id aux_id_2 = do
  a ← value aux_id
  ok (some (no_other (is_type JobType.delete_contest_round) a))
condition_of JobType.delete_internal_file aux_id aux_id_2 = do
  a ← value aux_id
  ok (some (no_other (is_type JobType.delete_internal_file) a))

-- `std::map::contains`
unfoldable pub has_entry : ℕ → List Entry → Bool
has_entry job_id [] = false
has_entry job_id (e ∷ entries) = if e.job_id == job_id then true else has_entry job_id entries

-- `std::map::emplace` leaves an entry that is there.
unfoldable pub emplace : ℕ → Option Condition → List Entry → List Entry
unfolding has_entry
emplace job_id none entries = entries
emplace job_id (some c) entries =
    if has_entry job_id entries
    then entries
    else record { job_id = job_id; condition = c } ∷ entries

unfoldable pub add_in_progress_job :
    ℕ → JobType → Option ℕ → Option ℕ → List Entry → Result (List Entry)
unfolding condition_of emplace
add_in_progress_job job_id job_type aux_id aux_id_2 entries = do
  c ← condition_of job_type aux_id aux_id_2
  ok (emplace job_id c entries)

unfoldable pub remove_in_progress_job : ℕ → List Entry → List Entry
remove_in_progress_job job_id = keep (λ e. not (e.job_id == job_id))

unfoldable pub build_condition : List Entry → Condition
build_condition [] = always
build_condition (e ∷ entries) = both e.condition (build_condition entries)
