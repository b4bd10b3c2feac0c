-- ===== src/Capabilities/SubmissionLists/Views.antt =====
-- The lists of submissions show what may be viewed: the two halves of capabilities/submissions.cc
-- agree.
use sim_project.Common.{ℕ, ◌≡◌, true, Option, some, arith, Bytes}
use sim_project.Schema.Users.{Session}
use sim_project.Schema.Problems.{Visibility}
use sim_project.Schema.Contests.{Mode, FinalChoice, ScoreRevealing}
use sim_project.Schema.Submissions.{SubmissionType}
use sim_project.Capabilities.SubmissionLists.{
  list_submissions, list_user_submissions, list_problem_submissions,
  list_problem_and_user_submissions, list_contest_submissions, list_contest_and_user_submissions,
  list_contest_round_and_user_submissions,
}
use sim_project.Capabilities.Submissions.{submission, results_are_out}

-- Whoever may query all submissions of a list may view each submission in it: of all, of a user, of
-- a problem, of a user in a problem, of a contest, and of a user in a contest.
pub query_all-view :
    (session : Option Session) (user : ℕ) (user_id : Option ℕ) (type : SubmissionType)
    (visibility : Visibility) (owner_id : Option ℕ) (mode : Option Mode)
    (full_results : Option Bytes) (method : Option FinalChoice) (revealing : Option ScoreRevealing)
    (now : Bytes)
    → let view = λ (u : Option ℕ).
      (submission session u type visibility owner_id mode full_results method revealing now).view in
      ((list_submissions session).query_all ≡ true → view user_id ≡ true)
      × ((list_user_submissions session user).query_all ≡ true → view (some user) ≡ true)
      × ((list_problem_submissions session owner_id).query_all ≡ true → view user_id ≡ true)
      × ((list_problem_and_user_submissions session visibility owner_id user).query_all ≡ true
          → view (some user) ≡ true)
      × ((list_contest_submissions session mode).query_all ≡ true → view user_id ≡ true)
      × ((list_contest_and_user_submissions session mode user).query_all ≡ true
          → view (some user) ≡ true)
unfolding submission list_submissions list_user_submissions list_problem_submissions
    list_problem_and_user_submissions list_contest_submissions list_contest_and_user_submissions
query_all-view session user user_id type visibility owner_id mode full_results method revealing
      now =
    (
      λ h. ground arith,
      λ h. ground arith,
      λ h. ground arith,
      λ h. ground arith,
      λ h. ground arith,
      λ h. ground arith,
    )

-- In the list of a user's submissions in a contest round, whoever may query the contest finals and
-- is shown full instead of initial results may see which submission is final.
pub show_full-view_final :
    (session : Option Session) (user : ℕ) (type : SubmissionType) (visibility : Visibility)
    (owner_id : Option ℕ) (mode : Option Mode) (full_results : Bytes) (method : Option FinalChoice)
    (revealing : Option ScoreRevealing) (now : Bytes)
    → let caps = list_contest_round_and_user_submissions session mode user full_results now in
      caps.query_with_type_contest_problem_final ≡ true
      → caps.query_with_type_contest_problem_final_show_full_instead_of_initial_results ≡ true
      → (submission session
          (some user)
          type
          visibility
          owner_id
          mode
          (some full_results)
          method
          revealing
          now).view_if_contest_problem_final
        ≡ true
unfolding submission results_are_out list_contest_round_and_user_submissions
show_full-view_final session user type visibility owner_id mode full_results method revealing now q
      f =
    ground arith
