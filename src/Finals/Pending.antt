-- ===== src/Finals/Pending.antt =====
-- A loop of `update_final` puts right what it is called for.
use sim_project.Common.{
  ℕ, ◌==◌, ◌≡◌, ◌≢◌, refl, ◌∙◌, ap, List, [], ◌∷◌, map, Option, none, some, Result, ok, In, ◌⊎◌,
  inl, inr, subst,
}
use sim_project.Sql.{find_where}
use sim_project.Db.{Db}
use sim_project.Schema.Submissions.{Submission}
use sim_project.Schema.Contests.{ContestProblem}
use sim_project.Finals.Right.{ProblemFinalIsRight, ContestFinalIsRight, InitialFinalIsRight}
use sim_project.Finals.Update.{HasKeys, update_final-KeepsRight}
use sim_project.Finals.Frame.{Updated, update_final-Updated, unmarked}
use sim_project.Finals.Everywhere.{
  FinalsAreRight, update_final-HasKeys, update_final-same_keys, the_ok, update_final-ok,
}
use sim_project.Finals.ToUpdate.{FinalToUpdate, update_finals}
use sim_project.Finals.{update_final}

abbrev pub final_of : ℕ → ℕ → Option ℕ → FinalToUpdate
final_of user problem contest = record {
  user_id = some user;
  problem_id = problem;
  contest_problem_id = contest;
}

-- The list has a call for a user in a problem, or in a contest problem.
abbrev pub IsListed : ℕ → ℕ → List FinalToUpdate → Type 0
IsListed user problem todo = (contest : Option ℕ) × In (final_of user problem contest) todo

abbrev pub IsListedIn : ℕ → ℕ → List FinalToUpdate → Type 0
IsListedIn user contest todo = (problem : ℕ) × In (final_of user problem (some contest)) todo

-- All marks are right but, perhaps, those that a list is about.
pub record Pending (todo : List FinalToUpdate) (db : Db) : Type 0 where
  pub problem_final :
      (user problem : ℕ)
      → ProblemFinalIsRight user problem db.submissions ⊎ IsListed user problem todo
  pub contest_final :
      (user : ℕ) (q : ContestProblem)
      → In q db.contest_problems
      → ContestFinalIsRight user q db.submissions ⊎ IsListedIn user q.id todo
  pub initial_final :
      (user : ℕ) (q : ContestProblem)
      → In q db.contest_problems
      → InitialFinalIsRight user q db.submissions ⊎ IsListedIn user q.id todo

-- The contest problems of the list are in their table.
abbrev pub IsKnown : List FinalToUpdate → Db → Type 0
IsKnown todo db =
    (f : FinalToUpdate) (c : ℕ)
    → In f todo
    → f.contest_problem_id ≡ some c
    → find_where (λ (q : ContestProblem). q.id == c) db.contest_problems ≢ none

-- The contest problem of a submission is in its table, as a foreign key demands.
abbrev pub HasContestProblems : Db → Type 0
HasContestProblems db =
    (s : Submission) (c : ℕ)
    → In s db.submissions
    → s.contest_problem_id ≡ some c
    → find_where (λ (q : ContestProblem). q.id == c) db.contest_problems ≢ none

-- One round takes the marks that it puts right off the list.
module _ (user problem : ℕ) (contest : Option ℕ) (rest : List FinalToUpdate) where
  todo : List FinalToUpdate
  todo = final_of user problem contest ∷ rest

  problem_case :
      (user' problem' : ℕ) (Before After : Type 0)
      → (Before ⊎ ((user' ≡ user) × (problem' ≡ problem)) → After)
      → Before ⊎ IsListed user' problem' todo
      → After ⊎ IsListed user' problem' rest
  unfolding todo
  problem_case user' problem' Before After keeps (inl r) = inl (keeps (inl r))
  problem_case user' problem' Before After keeps (inr (c, inl m)) = inl (keeps (inr (cc, cc)))
  problem_case user' problem' Before After keeps (inr (c, inr m)) = inr (c, m)

  contest_case :
      (user' : ℕ) (c : ℕ) (Before After : Type 0)
      → (Before ⊎ ((user' ≡ user) × (contest ≡ some c)) → After)
      → Before ⊎ IsListedIn user' c todo
      → After ⊎ IsListedIn user' c rest
  unfolding todo
  contest_case user' c Before After keeps (inl r) = inl (keeps (inl r))
  contest_case user' c Before After keeps (inr (p, inl m)) = inl (keeps (inr (cc, cc)))
  contest_case user' c Before After keeps (inr (p, inr m)) = inr (p, m)

  round-Pending :
      (db db' : Db)
      → HasKeys db
      → Pending todo db
      → update_final (some user) problem contest db ≡ ok db'
      → Pending rest db'
  round-Pending db db' keys pending p =
      let kept = update_final-KeepsRight user problem contest db db' keys p in
      let (s, _) = update_final-same_keys (some user) problem contest db db' p in
      record {
        problem_final = λ user' problem'.
            problem_case user' problem' _ _ (kept.problem_final user' problem')
              (pending.problem_final user' problem');
        contest_final = λ user' q i.
            let j : In q db.contest_problems = rw (← s) i in
            contest_case user' q.id _ _ (kept.contest_final user' q j)
              (pending.contest_final user' q j);
        initial_final = λ user' q i.
            let j : In q db.contest_problems = rw (← s) i in
            contest_case user' q.id _ _ (kept.initial_final user' q j)
              (pending.initial_final user' q j);
      }

nobody-IsListed :
    (user' problem' problem : ℕ) (contest : Option ℕ) (rest : List FinalToUpdate) (Right : Type 0)
    → Right
      ⊎ IsListed user' problem'
          (record { user_id = none; problem_id = problem; contest_problem_id = contest } ∷ rest)
    → Right ⊎ IsListed user' problem' rest
nobody-IsListed user' problem' problem contest rest Right (inl r) = inl r
nobody-IsListed user' problem' problem contest rest Right (inr (c, inl m)) = cc
nobody-IsListed user' problem' problem contest rest Right (inr (c, inr m)) = inr (c, m)

nobody-IsListedIn :
    (user' c problem : ℕ) (contest : Option ℕ) (rest : List FinalToUpdate) (Right : Type 0)
    → Right
      ⊎ IsListedIn user' c
          (record { user_id = none; problem_id = problem; contest_problem_id = contest } ∷ rest)
    → Right ⊎ IsListedIn user' c rest
nobody-IsListedIn user' c problem contest rest Right (inl r) = inl r
nobody-IsListedIn user' c problem contest rest Right (inr (p, inl m)) = cc
nobody-IsListedIn user' c problem contest rest Right (inr (p, inr m)) = inr (p, m)

any-Pending :
    (user : Option ℕ) (problem : ℕ) (contest : Option ℕ) (rest : List FinalToUpdate) (db db' : Db)
    → HasKeys db
    → Pending
        (record { user_id = user; problem_id = problem; contest_problem_id = contest } ∷ rest)
        db
    → update_final user problem contest db ≡ ok db'
    → Pending rest db'
unfolding update_final todo
any-Pending none problem contest rest db db' keys pending p =
    subst (Pending rest) (the_ok p) (record {
      problem_final = λ user' problem'.
          nobody-IsListed user' problem' problem contest rest _
            (pending.problem_final user' problem');
      contest_final = λ user' q i.
          nobody-IsListedIn user' q.id problem contest rest _ (pending.contest_final user' q i);
      initial_final = λ user' q i.
          nobody-IsListedIn user' q.id problem contest rest _ (pending.initial_final user' q i);
    })
any-Pending (some user) problem contest rest db db' keys pending p =
    round-Pending user problem contest rest db db' keys pending p

-- Nothing but marks has changed.
pub record SameButMarks (db db' : Db) : Type 0 where
  pub others : db' ≡ record db { submissions = db'.submissions }
  pub rows : map unmarked db'.submissions ≡ map unmarked db.submissions

Updated-SameButMarks :
    {user contest : Option ℕ} {db : Db} {result : Result Db}
    → Updated user contest db result
    → (db' : Db) → result ≡ ok db'
    → SameButMarks db db'
Updated-SameButMarks {db = db} (Updated.done rows e n) db' p =
    subst (SameButMarks db) (the_ok p) (record { others = refl; rows = e })
Updated-SameButMarks (Updated.missing c e f) db' p = cc

SameButMarks-trans : (a b c : Db) → SameButMarks a b → SameButMarks b c → SameButMarks a c
SameButMarks-trans a b c h k = record {
  others = k.others ∙ ap (λ (d : Db). record d { submissions = c.submissions }) h.others;
  rows = k.rows ∙ h.rows;
}

-- What a loop of updates comes to.
pub record AllUpdated (db db' : Db) : Type 0 where
  pub keys : HasKeys db'
  pub right : FinalsAreRight db'
  pub same : SameButMarks db db'

Pending-none : (db : Db) → Pending [] db → FinalsAreRight db
Pending-none db pending = record {
  problem_final = λ user problem. elim (pending.problem_final user problem) [
    | inl r ↦ r
    | inr (c, m) ↦ elim m [ ]
  ];
  contest_final =
      λ user q i. elim (pending.contest_final user q i) [ inl r ↦ r | inr (p, m) ↦ elim m [ ] ];
  initial_final =
      λ user q i. elim (pending.initial_final user q i) [ inl r ↦ r | inr (p, m) ↦ elim m [ ] ];
}

-- The loop ends well if it knows all contest problems, and then all marks are right.
pub update_finals-AllUpdated :
    (todo : List FinalToUpdate) (db : Db)
    → HasKeys db
    → IsKnown todo db
    → Pending todo db
    → (db' : Db) × (update_finals todo db ≡ ok db') × AllUpdated db db'
unfolding update_finals
update_finals-AllUpdated [] db keys known pending = (
  db,
  refl,
  record {
    keys = keys;
    right = Pending-none db pending;
    same = record { others = refl; rows = refl };
  },
)
update_finals-AllUpdated (f ∷ rest) db keys known pending =
    let (mid, p) =
      update_final-ok f.user_id f.problem_id f.contest_problem_id db
        (λ c e. known f c (inl refl) e) in
    let (s, _) = update_final-same_keys f.user_id f.problem_id f.contest_problem_id db mid p in
    let known' : IsKnown rest mid = λ g c i e. rw s (known g c (inr i) e) in
    let (db', q, a) =
      update_finals-AllUpdated rest mid
        (update_final-HasKeys f.user_id f.problem_id f.contest_problem_id db mid keys p) known'
        (any-Pending f.user_id f.problem_id f.contest_problem_id rest db mid keys pending p) in
    let step =
      Updated-SameButMarks (update_final-Updated f.user_id f.problem_id f.contest_problem_id db) mid
        p in
    (
      db',
      rw p q,
      record { keys = a.keys; right = a.right; same = SameButMarks-trans db mid db' step a.same },
    )
