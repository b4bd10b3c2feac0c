-- ===== src/Finals/Frame.antt =====
-- What `update_final` does not touch, and when it throws.
use sim_project.Common.{
  ℕ, ◌≡◌, refl, ◌∙◌, ◌==◌, ◌&&◌, Bool, true, false, if◌then◌else◌, List, [], ◌∷◌, map, Option, none,
  some, Result, ok, threw, assertion_failed,
}
use sim_project.Sql.{Comparator, find_where, update_where}
use sim_project.Db.{Db}
use sim_project.Schema.Submissions.{Submission}
use sim_project.Schema.Contests.{ContestProblem}
use sim_project.Finals.Reselect.{Column, unset, set_first, reselect}
use sim_project.Finals.{
  problem_final, contest_problem_final, contest_problem_initial_final, update_problem_final,
  update_contest_problem_final, update_contest_problem_initial_final, update_contest_finals,
  select_contest_problem, update_final,
}

-- A submission without its three marks.
abbrev pub unmarked : Submission → Submission
unmarked r = record r {
  problem_final = false;
  contest_problem_final = false;
  contest_problem_initial_final = false;
}

module _ (column : Column)
    (hidden : (b : Bool) (r : Submission) → unmarked (column.put b r) ≡ unmarked r) where
  hidden_if :
      (t b : Bool) (r : Submission) → unmarked (if t then column.put b r else r) ≡ unmarked r
  hidden_if true b r = hidden b r
  hidden_if false b r = refl

  unmarked-update :
      (test : Submission → Bool) (b : Bool) (rows : List Submission)
      → map unmarked (update_where test (column.put b) rows) ≡ map unmarked rows
  unfolding update_where
  unmarked-update test b [] = refl
  unmarked-update test b (r ∷ rows) = cc (hidden_if (test r) b r, unmarked-update test b rows)

  unmarked-set_first :
      (found : Option Submission) (rows : List Submission)
      → map unmarked (set_first column found rows) ≡ map unmarked rows
  unfolding set_first
  unmarked-set_first none rows = refl
  unmarked-set_first (some best) rows = unmarked-update (λ r. r.id == best.id) true rows

  unmarked-reselect :
      (group candidate : Submission → Bool) (order : Comparator Submission) (rows : List Submission)
      → map unmarked (reselect column group candidate order rows) ≡ map unmarked rows
  unfolding reselect unset
  unmarked-reselect group candidate order rows =
      unmarked-set_first _ (unset column group rows)
      ∙ unmarked-update (λ r. group r && column.get r) false rows

unmarked-problem :
    (user problem : ℕ) (rows : List Submission)
    → map unmarked (update_problem_final user problem rows) ≡ map unmarked rows
unfolding update_problem_final
unmarked-problem user problem = unmarked-reselect problem_final (λ b r. refl) _ _ _

unmarked-contest :
    (user contest : ℕ) (q : ContestProblem) (rows : List Submission)
    → map unmarked (update_contest_finals user contest q rows) ≡ map unmarked rows
unfolding update_contest_finals update_contest_problem_final update_contest_problem_initial_final
unmarked-contest user contest q rows =
    unmarked-reselect contest_problem_initial_final (λ b r. refl) _ _ _ _
    ∙ unmarked-reselect contest_problem_final (λ b r. refl) _ _ _ rows

-- The outcome of `update_final`: it throws, or it gives a database with other marks only.
pub data Updated (user contest : Option ℕ) (db : Db) : Result Db → Type 0 where
  done :
      (rows : List Submission)
      → map unmarked rows ≡ map unmarked db.submissions
      → (user ≡ none → rows ≡ db.submissions)
      → Updated user contest db (ok (record db { submissions = rows }))
  missing :
      (c : ℕ)
      → contest ≡ some c
      → find_where (λ q. q.id == c) db.contest_problems ≡ none
      → Updated user contest db (threw assertion_failed)

contest_part-Updated :
    (user problem c : ℕ) (db : Db) (found : Option ContestProblem)
    → find_where (λ q. q.id == c) db.contest_problems ≡ found
    → Updated (some user) (some c) db (update_final (some user) problem (some c) db)
unfolding update_final select_contest_problem
contest_part-Updated user problem c db none e = rw e (missing c refl e)
contest_part-Updated user problem c db (some q) e =
    rw e (
      done _ (unmarked-contest user c q _ ∙ unmarked-problem user problem db.submissions) (λ n. cc))

-- `update_final` changes nothing but the three marks of submissions, and nothing at all where there
-- is no user; it throws only if the contest problem that it is called for is not in its table.
pub update_final-Updated :
    (user : Option ℕ) (problem : ℕ) (contest : Option ℕ) (db : Db)
    → Updated user contest db (update_final user problem contest db)
unfolding update_final
update_final-Updated none problem contest db = done db.submissions refl (λ n. refl)
update_final-Updated (some user) problem none db =
    done _ (unmarked-problem user problem db.submissions) (λ n. cc)
update_final-Updated (some user) problem (some c) db = contest_part-Updated user problem c db _ refl
