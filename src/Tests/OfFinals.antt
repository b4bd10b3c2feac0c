-- ===== src/Tests/OfFinals.antt =====
-- Examples for `Finals`: user 7 has a first submission with marks that are out of date.
use sim_project.Common.{
  keep, refl, true, false, some, List, [], ◌∷◌, pos, arith, threw, assertion_failed,
}
use sim_project.Schema.Submissions.{Submission}
use sim_project.Schema.Submissions
use sim_project.Db.{Db}
use sim_project.Sql.{find_where, first_by, update_where}
use sim_project.Finals.Reselect.{reselect}
use sim_project.Finals.{
  update_final, update_problem_final, update_contest_problem_final,
  update_contest_problem_initial_final, final_order, initial_final_order,
}
use sim_project.Finals.Update.{HasKeys, KeepsRight, update_final-KeepsRight}
use sim_project.Finals.Frame.{Updated, update_final-Updated}
use sim_project.Tests.{db, row}

-- The second submission has the best score.
abbrev pub rows_after : List Submission
rows_after =
    row 1 Submissions.Status.wa (some (pos 40)) false
    ∷ row 2 Submissions.Status.ok (some (pos 100)) true
    ∷ row 3 Submissions.Status.tle (some (pos 70)) false
    ∷ []

abbrev pub db_after : Db
db_after = record db { submissions = rows_after }

pub db-HasKeys : HasKeys db
db-HasKeys = record {
  submissions = ((ground arith, (ground arith, tt)), ((ground arith, tt), (tt, tt)));
  contest_problems = (tt, tt);
}

update_final-KeepsRight_example : KeepsRight 7 3 (some 5) db rows_after
unfolding update_final update_problem_final update_contest_problem_final
    update_contest_problem_initial_final final_order initial_final_order find_where reselect
    first_by keep update_where
update_final-KeepsRight_example = update_final-KeepsRight 7 3 (some 5) db db_after db-HasKeys refl

update_final-Updated_example : Updated (some 7) (some 6) db (threw assertion_failed)
unfolding update_final update_problem_final update_contest_problem_final
    update_contest_problem_initial_final final_order initial_final_order find_where reselect
    first_by keep update_where
update_final-Updated_example = update_final-Updated (some 7) 3 (some 6) db
