-- ===== src/Tests/OfReselected.antt =====
-- An example for `JobHandlers.Reselected`: the contest problem now takes the latest submission.
use sim_project.Common.{◌≡◌, ◌≢◌, ap, [], ◌∷◌, In, inl, inr, none, ok, ◌==◌}
use sim_project.Sql.{find_where}
use sim_project.Db.{Db}
use sim_project.Schema.Contests.{ContestProblem, FinalChoice}
use sim_project.Finals.Update.{HasKeys}
use sim_project.Finals.Everywhere.{FinalsAreRight}
use sim_project.JobHandlers.Reselect.{reselect_final_submissions_in_contest_problem}
use sim_project.JobHandlers.Reselected.{
  RightElsewhere, reselect_final_submissions_in_contest_problem-FinalsAreRight,
}
use sim_project.Tests.{contest_problem}
use sim_project.Tests.OfFinals.{db_after, db-HasKeys}
use sim_project.Tests.OfStored.{db_after-FinalsAreRight}

abbrev edited : ContestProblem
edited = record contest_problem {
  method_of_choosing_final_submission = FinalChoice.latest_compiling;
}

abbrev db_edited : Db
db_edited = record db_after { contest_problems = edited ∷ [] }

edited_only : (q : ContestProblem) → In q db_edited.contest_problems → q.id ≡ 5
edited_only q (inl e) = ap (λ (p : ContestProblem). p.id) e
edited_only q (inr i) = elim i [ ]

db_edited-RightElsewhere : RightElsewhere 5 db_edited
db_edited-RightElsewhere = record {
  problem_final = db_after-FinalsAreRight.problem_final;
  contest_final = λ user q i n. absurd (n (edited_only q i));
  initial_final = λ user q i n. absurd (n (edited_only q i));
}

db_edited-HasKeys : HasKeys db_edited
db_edited-HasKeys = record {
  submissions = db-HasKeys.submissions;
  contest_problems = db-HasKeys.contest_problems;
}

edited_known : find_where (λ (q : ContestProblem). q.id == 5) db_edited.contest_problems ≢ none
unfolding find_where
edited_known e = cc

reselect_final_submissions_in_contest_problem-FinalsAreRight_example :
    (db' : Db) × (reselect_final_submissions_in_contest_problem [] 1 5 db_edited ≡ ok db')
    × FinalsAreRight db'
    × HasKeys db'
reselect_final_submissions_in_contest_problem-FinalsAreRight_example =
    reselect_final_submissions_in_contest_problem-FinalsAreRight [] 1 5 db_edited db_edited-HasKeys
      edited_known db_edited-RightElsewhere
