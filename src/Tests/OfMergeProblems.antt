-- ===== src/Tests/OfMergeProblems.antt =====
-- Examples for `JobHandlers.MergeProblems`: job 1 merges problem 3 into problem 4 and has the
-- submissions judged again.
use sim_project.Common.{ℕ, ◌≡◌, refl, some, [], ◌∷◌, true, ok, In, inl, inr, arith, bytes}
use sim_project.Sql.{find_where}
use sim_project.Db.{Db}
use sim_project.Schema.Problems.{Problem, Visibility}
use sim_project.Schema.Jobs.{MergeProblemsJob}
use sim_project.Schema.Submissions.{SubmissionType}
use sim_project.Finals.Update.{HasKeys}
use sim_project.Finals.Everywhere.{FinalsAreRight}
use sim_project.JobHandlers.MergeProblems.{merge_problems, is_problem_solution}
use sim_project.JobHandlers.MergeProblems.Sound.{IsMergeable}
use sim_project.JobHandlers.MergeProblems.Merged.{merge_problems-FinalsAreRight}
use sim_project.JobHandlers.MergeProblems.Scheduled.{IsCarriedOut, merge_problems-IsCarriedOut}
use sim_project.Tests.OfFinals.{db_after, rows_after}
use sim_project.Tests.OfStored.{db_after-FinalsAreRight, db_after-HasKeys}
use sim_project.Tests.OfMergeUsers.{rows_after-contest}

abbrev problem_row : ℕ → ℕ → Problem
problem_row id file = record {
  id = id;
  created_at = bytes "2024-01-01";
  file_id = file;
  visibility = Visibility.public;
  name = bytes "sum";
  label = bytes "sum";
  simfile = [];
  owner_id = some 7;
  updated_at = bytes "2024-01-01";
}

abbrev order : MergeProblemsJob
order = record { id = 1; rejudge_transferred_submissions = true }

abbrev two_problems : Db
two_problems = record db_after {
  problems = problem_row 3 30 ∷ problem_row 4 40 ∷ [];
  merge_problems_jobs = order ∷ [];
  next_job_id = 2;
}

rows_after-type : (s : _) → In s rows_after → s.type ≡ SubmissionType.normal
rows_after-type s (inl e) = rw e refl
rows_after-type s (inr (inl e)) = rw e refl
rows_after-type s (inr (inr (inl e))) = rw e refl
rows_after-type s (inr (inr (inr i))) = elim i [ ]

two_problems-IsMergeable : IsMergeable 3 4 two_problems
unfolding find_where is_problem_solution
two_problems-IsMergeable = record {
  two_problems = omega arith;
  keys = record {
    submissions = db_after-HasKeys.submissions;
    contest_problems = db_after-HasKeys.contest_problems;
  };
  right = record {
    problem_final = db_after-FinalsAreRight.problem_final;
    contest_final = db_after-FinalsAreRight.contest_final;
    initial_final = db_after-FinalsAreRight.initial_final;
  };
  contest_problems =
      λ s c i e. let same : 5 ≡ c = cc (rows_after-contest s i, e) in rw (← same) (λ n. cc);
  solutions = λ s i t. absurd (let t' = rw (rows_after-type s i) at t in cc);
}

merge_problems-FinalsAreRight_example :
    (db' : Db) × (merge_problems [] [] 1 3 4 two_problems ≡ ok db')
    × FinalsAreRight db'
    × HasKeys db'
unfolding find_where
merge_problems-FinalsAreRight_example =
    merge_problems-FinalsAreRight [] [] 1 3 4 order two_problems refl two_problems-IsMergeable

merge_problems-IsCarriedOut_example :
    (db' : Db) × (merge_problems [] [] 1 3 4 two_problems ≡ ok db')
    × IsCarriedOut 3 (problem_row 3 30) true two_problems db'
unfolding find_where
merge_problems-IsCarriedOut_example =
    merge_problems-IsCarriedOut [] [] 1 3 4 order (problem_row 3 30) (problem_row 4 40) two_problems
      refl refl refl two_problems-IsMergeable (omega arith)
