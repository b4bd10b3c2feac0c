-- ===== src/JobServer/Locks.antt =====
-- What a job works on. Two jobs collide exactly if they work on the same thing; this is what the
-- conditions of `Filter` have to say.
use sim_project.Common.{ℕ, Bool, true, false, ◌==◌, ◌&&◌, not, Option, none, some, List, [], ◌∷◌}
use sim_project.Schema.Jobs.{JobType}

pub data Lock : Type 0 where
  of_submission of_problem of_contest_problem of_user : ℕ → Lock
  of_contest of_contest_round of_internal_file : ℕ → Lock

abbrev pub same_lock : Lock → Lock → Bool
same_lock (Lock.of_submission a) (Lock.of_submission b) = a == b
same_lock (Lock.of_problem a) (Lock.of_problem b) = a == b
same_lock (Lock.of_contest_problem a) (Lock.of_contest_problem b) = a == b
same_lock (Lock.of_user a) (Lock.of_user b) = a == b
same_lock (Lock.of_contest a) (Lock.of_contest b) = a == b
same_lock (Lock.of_contest_round a) (Lock.of_contest_round b) = a == b
same_lock (Lock.of_internal_file a) (Lock.of_internal_file b) = a == b
same_lock _ _ = false

abbrev pub is_free : Lock → List Lock → Bool
is_free l [] = true
is_free l (k ∷ ks) = not (same_lock l k) && is_free l ks

-- No lock of the one list is in the other.
abbrev pub are_apart : List Lock → List Lock → Bool
are_apart [] ks = true
are_apart (l ∷ ls) ks = is_free l ks && are_apart ls ks

abbrev one : (ℕ → Lock) → Option ℕ → List Lock
one lock none = []
one lock (some a) = lock a ∷ []

abbrev two : (ℕ → Lock) → Option ℕ → Option ℕ → List Lock
two lock none b = one lock b
two lock (some a) b = lock a ∷ one lock b

-- The locks that a job takes, by its type, `aux_id` and `aux_id_2`.
unfoldable pub locks_of : JobType → Option ℕ → Option ℕ → List Lock
locks_of JobType.judge_submission a b = one Lock.of_submission a
locks_of JobType.rejudge_submission a b = one Lock.of_submission a
locks_of JobType.add_problem a b = []
locks_of JobType.reupload_problem a b = one Lock.of_problem a
locks_of JobType.edit_problem a b = one Lock.of_problem a
locks_of JobType.delete_problem a b = one Lock.of_problem a
locks_of JobType.reset_problem_time_limits_using_model_solution a b = one Lock.of_problem a
locks_of JobType.change_problem_statement a b = one Lock.of_problem a
locks_of JobType.merge_problems a b = two Lock.of_problem a b
locks_of JobType.reselect_final_submissions_in_contest_problem a b = one Lock.of_contest_problem a
locks_of JobType.delete_contest_problem a b = one Lock.of_contest_problem a
locks_of JobType.delete_user a b = one Lock.of_user a
locks_of JobType.merge_users a b = two Lock.of_user a b
locks_of JobType.delete_contest a b = one Lock.of_contest a
locks_of JobType.delete_contest_round a b = one Lock.of_contest_round a
locks_of JobType.delete_internal_file a b = one Lock.of_internal_file a
