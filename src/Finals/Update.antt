-- ===== src/Finals/Update.antt =====
-- What `update_final` promises, for the marks of every group.
use sim_project.Common.{
  ℕ, >>=-eq-ok, ◌≡◌, sym, ◌∙◌, ◌==◌, ==_iff, List, [], ◌∷◌, map, Option, none, some, ok, ap, arith,
  In, ◌⊎◌, inl, inr, subst, All-at, In-map, ◌≢◌,
}
use sim_project.Sql.Find.{find_where-In}
use sim_project.Db.{Db}
use sim_project.Schema.Submissions.{Submission}
use sim_project.Schema.Contests.{ContestProblem}
use sim_project.Finals.Ids.{ids, Distinct}
use sim_project.Finals.Chosen.{ids-reselect}
use sim_project.Finals.Lawful.{
  problem_final-IsLawful, contest_problem_final-IsLawful, contest_problem_initial_final-IsLawful,
}
use sim_project.Finals.Right.{ProblemFinalIsRight, ContestFinalIsRight, InitialFinalIsRight}
use sim_project.Finals.Steps
use sim_project.Finals.{
  update_problem_final, update_contest_problem_final, update_contest_problem_initial_final,
  update_contest_finals, select_contest_problem, update_final,
}

abbrev pub contest_problem_ids : List ContestProblem → List ℕ
contest_problem_ids = map (λ q. q.id)

-- The primary keys of the two tables that `update_final` reads.
pub record HasKeys (db : Db) : Type 0 where
  pub submissions : Distinct (ids db.submissions)
  pub contest_problems : Distinct (contest_problem_ids db.contest_problems)

-- A mark that is right, or that belongs to what is being updated.
pub record KeepsRight (user : ℕ) (problem : ℕ) (contest : Option ℕ) (db : Db)
    (rows : List Submission) : Type 0 where
  pub problem_final :
      (user' problem' : ℕ)
      → ProblemFinalIsRight user' problem' db.submissions ⊎ ((user' ≡ user) × (problem' ≡ problem))
      → ProblemFinalIsRight user' problem' rows
  pub contest_final :
      (user' : ℕ) (q : ContestProblem)
      → In q db.contest_problems
      → ContestFinalIsRight user' q db.submissions ⊎ ((user' ≡ user) × (contest ≡ some q.id))
      → ContestFinalIsRight user' q rows
  pub initial_final :
      (user' : ℕ) (q : ContestProblem)
      → In q db.contest_problems
      → InitialFinalIsRight user' q db.submissions ⊎ ((user' ≡ user) × (contest ≡ some q.id))
      → InitialFinalIsRight user' q rows

same_contest_problem :
    (table : List ContestProblem) (q s : ContestProblem)
    → Distinct (contest_problem_ids table)
    → In q table
    → In s table
    → q.id ≡ s.id
    → q ≡ s
same_contest_problem [] q s d i j e = elim i [ ]
same_contest_problem (x ∷ table) q s d (inl p) (inl r) e = p ∙ sym r
same_contest_problem (x ∷ table) q s d (inl p) (inr j) e = absurd (
    All-at (λ m. x.id ≢ m) s.id (contest_problem_ids table) d.0 (In-map (λ u. u.id) s table j)
      (sym (ap (λ u. u.id) p) ∙ e))
same_contest_problem (x ∷ table) q s d (inr i) (inl r) e = absurd (
    All-at (λ m. x.id ≢ m) q.id (contest_problem_ids table) d.0 (In-map (λ u. u.id) q table i)
      (sym (ap (λ u. u.id) r) ∙ sym e))
same_contest_problem (x ∷ table) q s d (inr i) (inr j) e = same_contest_problem table q s d.1 i j e

pub ids-update_problem_final :
    (user problem : ℕ) (rows : List Submission)
    → ids (update_problem_final user problem rows) ≡ ids rows
unfolding update_problem_final
ids-update_problem_final user problem = ids-reselect _ _ _ _ (problem_final-IsLawful user problem)

ids-contest :
    (user : ℕ) (q : ContestProblem) (rows : List Submission)
    → ids (update_contest_problem_final user q.id q.method_of_choosing_final_submission rows)
      ≡ ids rows
unfolding update_contest_problem_final
ids-contest user q =
    ids-reselect _ _ _ _
      (contest_problem_final-IsLawful user q.id q.method_of_choosing_final_submission)

ids-initial :
    (user : ℕ) (q : ContestProblem) (rows : List Submission)
    → ids (
        update_contest_problem_initial_final user q.id q.method_of_choosing_final_submission
          q.score_revealing rows)
      ≡ ids rows
unfolding update_contest_problem_initial_final
ids-initial user q = ids-reselect _ _ _ _ (
    contest_problem_initial_final-IsLawful user q.id q.method_of_choosing_final_submission
      q.score_revealing)

the_ok : {A : Type 0} {a b : A} → ok a ≡ ok b → a ≡ b
the_ok e = cc

same_user_of_some :
    {user' user c d : ℕ} → (user' ≡ user) × (some c ≡ some d) → (user' ≡ user) × (d ≡ c)
same_user_of_some (p, e) = (p, cc)

module _ (user problem : ℕ) (db : Db) (keys : HasKeys db) where
  rows' : List Submission
  rows' = update_problem_final user problem db.submissions

  rows'_distinct : Distinct (ids rows')
  unfolding rows'
  rows'_distinct = rw (ids-update_problem_final user problem db.submissions) keys.submissions

  problem_part : KeepsRight user problem none db rows'
  unfolding rows'
  problem_part = record {
    problem_final = Steps.problem_then_problem user problem db.submissions keys.submissions;
    contest_final = λ user' q i h. elim h [
      | inl r ↦ Steps.problem_then_contest user problem db.submissions keys.submissions user' q r
      | inr (p, e) ↦ cc
    ];
    initial_final = λ user' q i h. elim h [
      | inl r ↦ Steps.problem_then_initial user problem db.submissions keys.submissions user' q r
      | inr (p, e) ↦ cc
    ];
  }

  module _ (s : ContestProblem) (known : In s db.contest_problems) where
    rows'' : List Submission
    rows'' = update_contest_problem_final user s.id s.method_of_choosing_final_submission rows'

    rows''_distinct : Distinct (ids rows'')
    unfolding rows''
    rows''_distinct = rw (ids-contest user s rows') rows'_distinct

    one : (q : ContestProblem) → In q db.contest_problems → q.id ≡ s.id → q ≡ s
    one q i = same_contest_problem db.contest_problems q s keys.contest_problems i known

    contest_step :
        (user' : ℕ) (q : ContestProblem)
        → In q db.contest_problems
        → ContestFinalIsRight user' q db.submissions ⊎ ((user' ≡ user) × (some s.id ≡ some q.id))
        → ContestFinalIsRight user' q rows''
    unfolding rows'' rows'
    contest_step user' q i (inl r) =
        Steps.contest_then_contest user s rows' rows'_distinct user' q (one q i)
          (inl (problem_part.contest_final user' q i (inl r)))
    contest_step user' q i (inr h) =
        Steps.contest_then_contest user s rows' rows'_distinct user' q (one q i)
          (inr (same_user_of_some h))

    initial_step :
        (user' : ℕ) (q : ContestProblem)
        → In q db.contest_problems
        → InitialFinalIsRight user' q db.submissions ⊎ ((user' ≡ user) × (some s.id ≡ some q.id))
        → InitialFinalIsRight user' q rows'' ⊎ ((user' ≡ user) × (q.id ≡ s.id))
    unfolding rows''
    initial_step user' q i (inl r) = inl (
        Steps.contest_then_initial user s rows' rows'_distinct user' q
          (problem_part.initial_final user' q i (inl r)))
    initial_step user' q i (inr h) = inr (same_user_of_some h)

    contest_part : KeepsRight user problem (some s.id) db (update_contest_finals user s.id s rows')
    unfolding update_contest_finals rows''
    contest_part = record {
      problem_final = λ user' problem' h.
          Steps.initial_then_problem user s rows'' rows''_distinct user' problem' (
            Steps.contest_then_problem user s rows' rows'_distinct user' problem'
              (problem_part.problem_final user' problem' h));
      contest_final = λ user' q i h.
          Steps.initial_then_contest user s rows'' rows''_distinct user' q
            (contest_step user' q i h);
      initial_final = λ user' q i h.
          Steps.initial_then_initial user s rows'' rows''_distinct user' q (one q i)
            (initial_step user' q i h);
    }

select_contest_problem-ok :
    (contest : ℕ) (db : Db) (s : ContestProblem)
    → select_contest_problem contest db ≡ ok s
    → In s db.contest_problems × (s.id ≡ contest)
unfolding select_contest_problem
select_contest_problem-ok contest db s u =
    let (i, t) = find_where-In (λ q. q.id == contest) db.contest_problems s (ground arith) in
    (i, (==_iff s.id contest).0 t)

-- Let the ids of submissions and of contest problems be distinct. After `update_final` for a user,
-- a problem and perhaps a contest problem, the user's problem final in that problem, and the user's
-- contest final and initial contest final in that contest problem, are exactly the best candidates
-- by the sort keys; and every such mark of another user, problem or contest problem that was right
-- is still right.
pub update_final-KeepsRight :
    (user problem : ℕ) (contest : Option ℕ) (db db' : Db)
    → HasKeys db
    → update_final (some user) problem contest db ≡ ok db'
    → KeepsRight user problem contest db db'.submissions
unfolding update_final rows'
update_final-KeepsRight user problem none db db' keys u =
    subst (λ (d : Db). KeepsRight user problem none db d.submissions) (the_ok u)
      (problem_part user problem db keys)
update_final-KeepsRight user problem (some contest) db db' keys u =
    let mid : Db = record db { submissions = update_problem_final user problem db.submissions } in
    let (s, p, q) = >>=-eq-ok (select_contest_problem contest mid) _ u in
    let (i, e) = select_contest_problem-ok contest mid s p in
    subst (λ (d : Db). KeepsRight user problem (some contest) db d.submissions) (the_ok q)
      (subst
        (λ (c : ℕ).
          KeepsRight user problem (some c) db
            (update_contest_finals user c s (update_problem_final user problem db.submissions)))
        e (contest_part user problem db keys s i))
