-- ===== src/Tests/OfMergeUsers.antt =====
-- Examples for `JobHandlers.MergeUsers`: user 7, a teacher who is an owner of contest 1, is merged into
-- user 8.
use sim_project.Common.{ℕ, ◌≡◌, refl, some, List, [], ◌∷◌, ok, In, inl, inr, arith, bytes, keep}
use sim_project.Sql.{find_where, update_where}
use sim_project.Db.{Db}
use sim_project.Schema.Users.{User, UserType}
use sim_project.Schema.Contests.{ContestUser, Mode, Mode_code}
use sim_project.Finals.Update.{HasKeys}
use sim_project.Finals.Everywhere.{FinalsAreRight}
use sim_project.JobHandlers.MergeUsers.{merge_users, transfer_contest_users}
use sim_project.JobHandlers.MergeUsers.Modes.{HasContestUserKey, mode_of}
use sim_project.JobHandlers.MergeUsers.Merged.{IsMergeable, merge_users-FinalsAreRight}
use sim_project.JobHandlers.MergeUsers.Kept.{IsTakenOver, merge_users-IsTakenOver}
use sim_project.Tests.OfFinals.{db_after, rows_after}
use sim_project.Tests.OfStored.{db_after-FinalsAreRight, db_after-HasKeys}

abbrev user_row : ℕ → UserType → User
user_row id type = record {
  id = id;
  created_at = bytes "2024-01-01";
  type = type;
  username = bytes "somebody";
  first_name = [];
  last_name = [];
  email = [];
  password_salt = [];
  password_hash = [];
}

abbrev members : List ContestUser
members =
    record { user_id = 7; contest_id = 1; mode = Mode.owner }
    ∷ record { user_id = 8; contest_id = 1; mode = Mode.contestant }
    ∷ record { user_id = 7; contest_id = 2; mode = Mode.moderator }
    ∷ []

abbrev two_users : Db
two_users = record db_after {
  users = user_row 7 UserType.teacher ∷ user_row 8 UserType.normal ∷ [];
  contest_users = members;
}

members-HasContestUserKey : HasContestUserKey members
members-HasContestUserKey r s i j e f = ground arith

pub rows_after-contest : (s : _) → In s rows_after → s.contest_problem_id ≡ some 5
rows_after-contest s (inl e) = rw e refl
rows_after-contest s (inr (inl e)) = rw e refl
rows_after-contest s (inr (inr (inl e))) = rw e refl
rows_after-contest s (inr (inr (inr i))) = elim i [ ]

two_users-IsMergeable : IsMergeable 7 8 two_users
unfolding find_where
two_users-IsMergeable = record {
  two_users = omega arith;
  keys = record {
    submissions = db_after-HasKeys.submissions;
    contest_problems = db_after-HasKeys.contest_problems;
  };
  right = record {
    problem_final = db_after-FinalsAreRight.problem_final;
    contest_final = db_after-FinalsAreRight.contest_final;
    initial_final = db_after-FinalsAreRight.initial_final;
  };
  contest_problems =
      λ s c i e. let same : 5 ≡ c = cc (rows_after-contest s i, e) in rw (← same) (λ n. cc);
}

merge_users-FinalsAreRight_example :
    (db' : Db) × (merge_users [] 1 7 8 two_users ≡ ok db') × FinalsAreRight db' × HasKeys db'
merge_users-FinalsAreRight_example =
    merge_users-FinalsAreRight [] 1 7 8 two_users two_users-IsMergeable

merge_users-IsTakenOver_example :
    (db' : Db) × (merge_users [] 1 7 8 two_users ≡ ok db')
    × IsTakenOver 7 8 (user_row 7 UserType.teacher) (user_row 8 UserType.normal) two_users db'
unfolding find_where
merge_users-IsTakenOver_example =
    merge_users-IsTakenOver [] 1 7 8 (user_row 7 UserType.teacher) (user_row 8 UserType.normal)
      two_users two_users-IsMergeable members-HasContestUserKey refl refl

modes_test : mode_of 8 1 (transfer_contest_users 7 8 members) ≡ some Mode.owner
unfolding transfer_contest_users mode_of find_where keep update_where Mode_code
modes_test = refl
