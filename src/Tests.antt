-- ===== src/Tests.antt =====
-- The data of the tests: some accounts, and a small database with a contest problem and submissions.
pub mod OfFinals
pub mod OfMerging
pub mod OfJudging
pub mod OfStored
pub mod OfReselected
pub mod OfScheduled
pub mod OfFiles
pub mod OfProblems
pub mod OfSubmissions
pub mod OfContests
pub mod OfUsers
pub mod OfJobs
pub mod OfJobServer
pub mod OfText
pub mod OfMergeUsers
pub mod OfMergeProblems
use sim_project.Common.{ℕ, ℤ, pos, Bool, true, false, Option, none, some, List, [], ◌∷◌, bytes}
use sim_project.Schema.Users.{Session, UserType}
use sim_project.Schema.Contests.{ContestProblem, FinalChoice, ScoreRevealing}
use sim_project.Schema.Submissions.{Submission, SubmissionType, Language}
use sim_project.Schema.Submissions
use sim_project.Db.{Db}

abbrev pub account : ℕ → UserType → Session
account user type = record {
  id = bytes "id";
  csrf_token = bytes "token";
  user_id = user;
  user_type = type;
  username = bytes "somebody";
  content = [];
  orig_content = [];
}

abbrev pub session_of : ℕ → UserType → Option Session
session_of user type = some (account user type)

-- A normal user, number 7.
abbrev pub normal_session : Option Session
normal_session = session_of 7 UserType.normal

-- A submission of user 7 in problem 3, in contest problem 5.
abbrev pub row : ℕ → Submissions.Status → Option ℤ → Bool → Submission
row id status score marked = record {
  id = id;
  created_at = bytes "2024-05-01 10:00:00";
  file_id = 100;
  user_id = some 7;
  problem_id = 3;
  contest_problem_id = some 5;
  contest_round_id = some 2;
  contest_id = some 1;
  type = SubmissionType.normal;
  language = Language.cpp17;
  initial_final_candidate = true;
  final_candidate = true;
  problem_final = marked;
  contest_problem_final = marked;
  contest_problem_initial_final = marked;
  initial_status = Submissions.Status.ok;
  full_status = status;
  score = score;
  last_judgment_began_at = none;
  initial_report = [];
  final_report = [];
}

abbrev pub contest_problem : ContestProblem
contest_problem = record {
  id = 5;
  created_at = bytes "2024-05-01 09:00:00";
  contest_round_id = 2;
  contest_id = 1;
  problem_id = 3;
  name = bytes "sum";
  item = 0;
  method_of_choosing_final_submission = FinalChoice.highest_score;
  score_revealing = ScoreRevealing.only_score;
}

abbrev pub rows : List Submission
rows =
    row 1 Submissions.Status.wa (some (pos 40)) true
    ∷ row 2 Submissions.Status.ok (some (pos 100)) false
    ∷ row 3 Submissions.Status.tle (some (pos 70)) false
    ∷ []

-- The marks on the first submission are out of date.
abbrev pub db : Db
db = record {
  users = [];
  sessions = [];
  problems = [];
  problem_tags = [];
  contests = [];
  contest_rounds = [];
  contest_problems = contest_problem ∷ [];
  contest_users = [];
  contest_files = [];
  submissions = rows;
  jobs = [];
  next_job_id = 1;
  merge_problems_jobs = [];
}
