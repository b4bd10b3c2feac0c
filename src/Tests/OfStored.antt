-- ===== src/Tests/OfStored.antt =====
-- An example for `Judging.Stored`: user 7's third submission gets a better verdict, in a database in
-- which the marks are right.
use sim_project.Common.{
  ℕ, ◌≡◌, ◌≢◌, refl, ◌==◌, ◌&&◌, Bool-cases, keep, none, some, [], pos, arith, In, inl, inr, ok,
}
use sim_project.Schema.Submissions.{Submission}
use sim_project.Schema.Submissions
use sim_project.Db.{Db}
use sim_project.Sql.{find_where, first_by, update_where}
use sim_project.Finals.Reselect.{reselect}
use sim_project.Finals.{
  update_final, update_problem_final, update_contest_problem_final, of_problem, of_contest_problem,
  update_contest_problem_initial_final, final_order, initial_final_order,
}
use sim_project.Finals.Update.{HasKeys}
use sim_project.Finals.Everywhere.{FinalsAreRight, RightBut, update_final-FinalsAreRight}
use sim_project.Judging.{Verdict}
use sim_project.Judging.Update.{Judged, update_submission}
use sim_project.Judging.Stored.{IsCurrent, update_submission-FinalsAreRight}
use sim_project.Tests.{db, rows}
use sim_project.Tests.OfFinals.{db_after, rows_after, db-HasKeys}

rows-of_problem : (u p : ℕ) (r : Submission) → In r rows → of_problem u p r ≡ ((7 == u) && (3 == p))
rows-of_problem u p r (inl e) = rw e refl
rows-of_problem u p r (inr (inl e)) = rw e refl
rows-of_problem u p r (inr (inr (inl e))) = rw e refl
rows-of_problem u p r (inr (inr (inr i))) = elim i [ ]

rows-of_contest_problem :
    (u c : ℕ) (r : Submission) → In r rows → of_contest_problem u c r ≡ ((7 == u) && (5 == c))
rows-of_contest_problem u c r (inl e) = rw e refl
rows-of_contest_problem u c r (inr (inl e)) = rw e refl
rows-of_contest_problem u c r (inr (inr (inl e))) = rw e refl
rows-of_contest_problem u c r (inr (inr (inr i))) = elim i [ ]

db-RightBut : RightBut 7 3 (some 5) db
db-RightBut = record {
  problem_final = λ u p. elim (Bool-cases ((7 == u) && (3 == p))) [
    | inl t ↦ inr (ground arith, ground arith)
    | inr n ↦ inl (λ r i g. absurd (ground (arith, rows-of_problem u p r i)))
  ];
  contest_final = λ u q i. elim (Bool-cases ((7 == u) && (5 == q.id))) [
    | inl t ↦ inr (ground arith, ground arith)
    | inr n ↦ inl (λ r j g. absurd (ground (arith, rows-of_contest_problem u q.id r j)))
  ];
  initial_final = λ u q i. elim (Bool-cases ((7 == u) && (5 == q.id))) [
    | inl t ↦ inr (ground arith, ground arith)
    | inr n ↦ inl (λ r j g. absurd (ground (arith, rows-of_contest_problem u q.id r j)))
  ];
}

pub db_after-FinalsAreRight : FinalsAreRight db_after
unfolding update_final update_problem_final update_contest_problem_final
    update_contest_problem_initial_final final_order initial_final_order find_where reselect
    first_by keep update_where
db_after-FinalsAreRight =
    update_final-FinalsAreRight 7 3 (some 5) db db_after db-HasKeys db-RightBut refl

pub db_after-HasKeys : HasKeys db_after
db_after-HasKeys = record {
  submissions = db-HasKeys.submissions;
  contest_problems = db-HasKeys.contest_problems;
}

abbrev judged : Judged
judged = record {
  submission_id = 3;
  submission_user_id = some 7;
  submission_problem_id = 3;
  submission_contest_problem_id = some 5;
}

abbrev verdict : Verdict
verdict = record {
  initial_status = Submissions.Status.ok;
  full_status = Submissions.Status.ok;
  score = some (pos 100);
  initial_report = [];
  final_report = [];
}

judged-same :
    (s : Submission)
    → In s rows_after
    → (s.user_id ≡ some 7) × (s.problem_id ≡ 3) × (s.contest_problem_id ≡ some 5)
judged-same s (inl e) = rw e (refl, refl, refl)
judged-same s (inr (inl e)) = rw e (refl, refl, refl)
judged-same s (inr (inr (inl e))) = rw e (refl, refl, refl)
judged-same s (inr (inr (inr i))) = elim i [ ]

found_5 : (c : ℕ) → 5 ≡ c → find_where (λ q. q.id == c) db_after.contest_problems ≢ none
unfolding find_where
found_5 c e = rw (← e) (λ n. cc)

judged-IsCurrent : IsCurrent judged db_after
judged-IsCurrent = record {
  submission = λ s i e. judged-same s i;
  contest_problem = λ c e. found_5 c cc;
}

update_submission-FinalsAreRight_example :
    (db' : Db) × (update_submission judged verdict db_after ≡ ok db')
    × FinalsAreRight db'
    × HasKeys db'
update_submission-FinalsAreRight_example =
    update_submission-FinalsAreRight judged verdict db_after db_after-HasKeys
      db_after-FinalsAreRight judged-IsCurrent
