-- ===== src/Tests/OfScheduled.antt =====
-- Examples for `JobHandlers.Scheduled`: job 1 deletes contest problem 5, or user 7.
use sim_project.Common.{◌⊎◌, [], ◌∷◌, In, inl, arith, some, pos, refl, true, bytes, Bytes}
use sim_project.Db.{Db}
use sim_project.Schema.Submissions
use sim_project.JobHandlers.DeleteContestProblem.{delete_contest_problem}
use sim_project.JobHandlers.DeleteUser.{delete_user}
use sim_project.Schema.Users.{UserType}
use sim_project.JobHandlers.Scheduled.{
  delete_user-IsScheduled, IsScheduled, delete_contest_problem-IsScheduled,
}
use sim_project.Tests.{db, row}

abbrev pub day : Bytes
day = bytes "2024-05-01 00:00:00"

abbrev pub db_with_contest : Db
db_with_contest = record db {
  contests = record { id = 1; created_at = day; name = bytes "finals"; is_public = true } ∷ [];
  contest_rounds =
      record {
        id = 2;
        created_at = day;
        contest_id = 1;
        name = bytes "first";
        item = 0;
        begins = day;
        ends = day;
        full_results = day;
        ranking_exposure = day;
      }
      ∷ [];
  next_job_id = 2;
}

delete_contest_problem-IsScheduled_example :
    In
      (row 1 Submissions.Status.wa (some (pos 40)) true)
      (delete_contest_problem [] day 1 5 db_with_contest).submissions
    ⊎ IsScheduled 100 (delete_contest_problem [] day 1 5 db_with_contest)
delete_contest_problem-IsScheduled_example =
    delete_contest_problem-IsScheduled [] day 1 5 db_with_contest (omega arith)
      (row 1 Submissions.Status.wa (some (pos 40)) true) (inl refl)

abbrev db_with_user : Db
db_with_user = record db {
  users =
      record {
        id = 7;
        created_at = day;
        type = UserType.normal;
        username = bytes "somebody";
        first_name = [];
        last_name = [];
        email = [];
        password_salt = [];
        password_hash = [];
      }
      ∷ [];
  next_job_id = 2;
}

delete_user-IsScheduled_example :
    In
      (row 1 Submissions.Status.wa (some (pos 40)) true)
      (delete_user [] day 1 7 db_with_user).submissions
    ⊎ IsScheduled 100 (delete_user [] day 1 7 db_with_user)
delete_user-IsScheduled_example =
    delete_user-IsScheduled [] day 1 7 db_with_user (omega arith)
      (row 1 Submissions.Status.wa (some (pos 40)) true) (inl refl)
