-- ===== src/Finals/Everywhere.antt =====
-- All marks of the database, and what `update_final` makes of them.
use sim_project.Common.{
  ◌==◌, ◌≢◌, ℕ, ◌≡◌, refl, sym, ◌∙◌, ap, List, [], ◌∷◌, map, Option, none, some, Result, ok, In,
  ◌⊎◌, subst,
}
use sim_project.Sql.{find_where}
use sim_project.Db.{Db}
use sim_project.Schema.Submissions.{Submission}
use sim_project.Schema.Contests.{ContestProblem}
use sim_project.Finals.Ids.{ids}
use sim_project.Finals.Right.{ProblemFinalIsRight, ContestFinalIsRight, InitialFinalIsRight}
use sim_project.Finals.Update.{HasKeys, update_final-KeepsRight}
use sim_project.Finals.Frame.{Updated, update_final-Updated, unmarked}
use sim_project.Finals.{update_final}

-- All marks are right.
pub record FinalsAreRight (db : Db) : Type 0 where
  pub problem_final : (user problem : ℕ) → ProblemFinalIsRight user problem db.submissions
  pub contest_final :
      (user : ℕ) (q : ContestProblem)
      → In q db.contest_problems
      → ContestFinalIsRight user q db.submissions
  pub initial_final :
      (user : ℕ) (q : ContestProblem)
      → In q db.contest_problems
      → InitialFinalIsRight user q db.submissions

-- All marks are right but, perhaps, those of one user in one problem and one contest problem.
pub record RightBut (user problem : ℕ) (contest : Option ℕ) (db : Db) : Type 0 where
  pub problem_final :
      (user' problem' : ℕ)
      → ProblemFinalIsRight user' problem' db.submissions ⊎ ((user' ≡ user) × (problem' ≡ problem))
  pub contest_final :
      (user' : ℕ) (q : ContestProblem)
      → In q db.contest_problems
      → ContestFinalIsRight user' q db.submissions ⊎ ((user' ≡ user) × (contest ≡ some q.id))
  pub initial_final :
      (user' : ℕ) (q : ContestProblem)
      → In q db.contest_problems
      → InitialFinalIsRight user' q db.submissions ⊎ ((user' ≡ user) × (contest ≡ some q.id))

ids-unmarked : (rows : List Submission) → ids (map unmarked rows) ≡ ids rows
ids-unmarked [] = refl
ids-unmarked (r ∷ rows) = ap (λ (l : List ℕ). r.id ∷ l) (ids-unmarked rows)

-- The tables that `update_final` leaves, and the keys of the one that it changes.
SameKeys : Db → Result Db → Type 0
SameKeys db result =
    (db' : Db)
    → result ≡ ok db'
    → (db'.contest_problems ≡ db.contest_problems) × (ids db'.submissions ≡ ids db.submissions)

pub the_ok : {A : Type 0} {a b : A} → ok a ≡ ok b → a ≡ b
the_ok e = cc

Updated-SameKeys :
    {user contest : Option ℕ} {db : Db} {result : Result Db}
    → Updated user contest db result
    → SameKeys db result
unfolding SameKeys
Updated-SameKeys {db = db} (Updated.done rows e n) db' p =
    subst
      (λ (d : Db).
        (d.contest_problems ≡ db.contest_problems) × (ids d.submissions ≡ ids db.submissions))
      (the_ok p) (refl, sym (ids-unmarked rows) ∙ ap ids e ∙ ids-unmarked db.submissions)
Updated-SameKeys (Updated.missing c e f) db' p = cc

pub update_final-same_keys :
    (user : Option ℕ) (problem : ℕ) (contest : Option ℕ) (db db' : Db)
    → update_final user problem contest db ≡ ok db'
    → (db'.contest_problems ≡ db.contest_problems) × (ids db'.submissions ≡ ids db.submissions)
unfolding SameKeys
update_final-same_keys user problem contest db db' p =
    Updated-SameKeys (update_final-Updated user problem contest db) db' p

pub update_final-HasKeys :
    (user : Option ℕ) (problem : ℕ) (contest : Option ℕ) (db db' : Db)
    → HasKeys db
    → update_final user problem contest db ≡ ok db'
    → HasKeys db'
update_final-HasKeys user problem contest db db' keys p =
    let (c, s) = update_final-same_keys user problem contest db db' p in
    record { submissions = rw s keys.submissions; contest_problems = rw c keys.contest_problems }

-- `update_final` puts right what is not.
pub update_final-FinalsAreRight :
    (user problem : ℕ) (contest : Option ℕ) (db db' : Db)
    → HasKeys db
    → RightBut user problem contest db
    → update_final (some user) problem contest db ≡ ok db'
    → FinalsAreRight db'
update_final-FinalsAreRight user problem contest db db' keys but p =
    let kept = update_final-KeepsRight user problem contest db db' keys p in
    let (c, s) = update_final-same_keys (some user) problem contest db db' p in
    record {
      problem_final = λ u' p'. kept.problem_final u' p' (but.problem_final u' p');
      contest_final = λ u' q i.
          let j : In q db.contest_problems = rw (← c) i in
          kept.contest_final u' q j (but.contest_final u' q j);
      initial_final = λ u' q i.
          let j : In q db.contest_problems = rw (← c) i in
          kept.initial_final u' q j (but.initial_final u' q j);
    }

Updated-ok :
    {user contest : Option ℕ} {db : Db} {result : Result Db}
    → Updated user contest db result
    → ((c : ℕ)
        → contest ≡ some c
        → find_where (λ (q : ContestProblem). q.id == c) db.contest_problems ≢ none)
    → (db' : Db) × (result ≡ ok db')
Updated-ok (Updated.done rows e n) known = (_, refl)
Updated-ok (Updated.missing c e f) known = absurd (known c e f)

-- A call of `update_final` for a contest problem that is in its table ends with a database.
pub update_final-ok :
    (user : Option ℕ) (problem : ℕ) (contest : Option ℕ) (db : Db)
    → ((c : ℕ)
        → contest ≡ some c
        → find_where (λ (q : ContestProblem). q.id == c) db.contest_problems ≢ none)
    → (db' : Db) × (update_final user problem contest db ≡ ok db')
update_final-ok user problem contest db = Updated-ok (update_final-Updated user problem contest db)
