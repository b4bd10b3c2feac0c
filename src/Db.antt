-- ===== src/Db.antt =====
-- The database: its tables as lists of rows, and what deleting a row takes along, as the foreign
-- keys of subprojects/sim/src/sim/db/schema.cc say. A transaction is a function of the database.
use sim_project.Common.{ℕ, ◌==◌, ◌&&◌, ◌||◌, has_value, is_value, Bool, List, Option, none, some}
use sim_project.Sql.{find_where, update_where, delete_where}
use sim_project.Schema.Users.{User, SessionRow}
use sim_project.Schema.Problems.{Problem, ProblemTag}
use sim_project.Schema.Contests.{Contest, ContestRound, ContestProblem, ContestUser, ContestFile}
use sim_project.Schema.Submissions.{Submission}
use sim_project.Schema.Jobs.{Job, MergeProblemsJob}

pub record Db : Type 0 where
  pub users : List User
  pub sessions : List SessionRow
  pub problems : List Problem
  pub problem_tags : List ProblemTag
  pub contests : List Contest
  pub contest_rounds : List ContestRound
  pub contest_problems : List ContestProblem
  pub contest_users : List ContestUser
  pub contest_files : List ContestFile
  pub submissions : List Submission
  pub jobs : List Job
  pub next_job_id : ℕ  -- AUTO_INCREMENT of jobs
  pub merge_problems_jobs : List MergeProblemsJob

-- DELETE FROM users WHERE id=?: sessions, contest users and submissions go too; problems and
-- contest files stay without owner and creator.
unfoldable pub delete_users_row : ℕ → Db → Db
delete_users_row user db = record db {
  users = delete_where (λ u. u.id == user) db.users;
  sessions = delete_where (λ s. s.user_id == user) db.sessions;
  problems =
      update_where (λ p. is_value p.owner_id user) (λ p. record p { owner_id = none }) db.problems;
  contest_users = delete_where (λ c. c.user_id == user) db.contest_users;
  contest_files =
      update_where (λ f. is_value f.creator user) (λ f. record f { creator = none })
        db.contest_files;
  submissions = delete_where (λ s. is_value s.user_id user) db.submissions;
}

-- DELETE FROM contest_problems WHERE id=?: its submissions go too.
unfoldable pub delete_contest_problems_row : ℕ → Db → Db
delete_contest_problems_row contest_problem db = record db {
  contest_problems = delete_where (λ c. c.id == contest_problem) db.contest_problems;
  submissions = delete_where (λ s. is_value s.contest_problem_id contest_problem) db.submissions;
}

-- DELETE FROM problems WHERE id=?: its tags, its contest problems with their submissions, and its
-- submissions go too.
unfoldable pub delete_problems_row : ℕ → Db → Db
delete_problems_row problem db = record db {
  problems = delete_where (λ p. p.id == problem) db.problems;
  problem_tags = delete_where (λ t. t.problem_id == problem) db.problem_tags;
  contest_problems = delete_where (λ c. c.problem_id == problem) db.contest_problems;
  submissions =
      delete_where
        (λ s.
          (s.problem_id == problem)
          || has_value (
              find_where (λ c. (c.problem_id == problem) && is_value s.contest_problem_id c.id)
                db.contest_problems))
        db.submissions;
}

-- The contest problem of a submission passes a test, the contest round of a row does.
abbrev pub in_contest_problem : (ContestProblem → Bool) → Option ℕ → Db → Bool
in_contest_problem test id db =
    has_value (find_where (λ c. test c && is_value id c.id) db.contest_problems)

abbrev pub in_contest_round : (ContestRound → Bool) → Option ℕ → Db → Bool
in_contest_round test id db =
    has_value (find_where (λ r. test r && is_value id r.id) db.contest_rounds)

-- DELETE FROM contest_rounds WHERE id=?: its contest problems, their submissions, and its submissions
-- go too.
unfoldable pub delete_contest_rounds_row : ℕ → Db → Db
delete_contest_rounds_row round db = record db {
  contest_rounds = delete_where (λ r. r.id == round) db.contest_rounds;
  contest_problems = delete_where (λ c. c.contest_round_id == round) db.contest_problems;
  submissions =
      delete_where
        (λ s.
          is_value s.contest_round_id round
          || in_contest_problem (λ c. c.contest_round_id == round) s.contest_problem_id db)
        db.submissions;
}

-- A contest problem goes with a contest, or with a round of it.
abbrev pub goes_with_contest : ℕ → Db → ContestProblem → Bool
goes_with_contest contest db c =
    (c.contest_id == contest)
    || in_contest_round (λ r. r.contest_id == contest) (some c.contest_round_id) db

-- DELETE FROM contests WHERE id=?: its rounds, contest problems, users, files and submissions go too,
-- and what goes with the rounds and the contest problems.
unfoldable pub delete_contests_row : ℕ → Db → Db
delete_contests_row contest db = record db {
  contests = delete_where (λ c. c.id == contest) db.contests;
  contest_rounds = delete_where (λ r. r.contest_id == contest) db.contest_rounds;
  contest_problems = delete_where (goes_with_contest contest db) db.contest_problems;
  contest_users = delete_where (λ u. u.contest_id == contest) db.contest_users;
  contest_files = delete_where (λ f. f.contest_id == contest) db.contest_files;
  submissions =
      delete_where
        (λ s.
          is_value s.contest_id contest
          || (in_contest_round (λ r. r.contest_id == contest) s.contest_round_id db
              || in_contest_problem (goes_with_contest contest db) s.contest_problem_id db))
        db.submissions;
}
