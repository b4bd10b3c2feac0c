-- ===== src/Judging/Stored.antt =====
-- Storing a verdict keeps all marks of final submissions right.
use sim_project.Common.{
  ℕ, ◌≡◌, ◌≢◌, refl, sym, ◌∙◌, ap, ◌==◌, ==_iff, is_value, true, false, ◌&&◌, Bool-cases,
  Option-cases, List, Option, none, some, ok, In, ◌⊎◌, inl, inr, arith, subst,
}
use sim_project.Sql.{find_where}
use sim_project.Db.{Db}
use sim_project.Schema.Submissions.{Submission, SubmissionType}
use sim_project.Schema.Contests.{ContestProblem, ScoreRevealing}
use sim_project.Finals.Right.{ProblemFinalIsRight, ContestFinalIsRight, InitialFinalIsRight}
use sim_project.Finals.Update.{HasKeys}
use sim_project.Finals.Outside.{update_where-Chosen, ids-update_where}
use sim_project.Finals.Everywhere.{
  FinalsAreRight, RightBut, update_final-FinalsAreRight, update_final-HasKeys, update_final-ok,
  the_ok,
}
use sim_project.Finals.{
  update_final, of_problem, of_contest_problem, problem_final, contest_problem_final,
  contest_problem_initial_final,
}
use sim_project.Judging.{Verdict}
use sim_project.Judging.Update.{
  Judged, set_verdict, store_verdict, update_submission, update_selected, select_submission,
  score_revealing_of,
}

-- The submission is still where it was when the handler selected it, and so is its contest problem.
pub record IsCurrent (j : Judged) (db : Db) : Type 0 where
  pub submission :
      (s : Submission)
      → In s db.submissions
      → s.id ≡ j.submission_id
      → (s.user_id ≡ j.submission_user_id)
        × (s.problem_id ≡ j.submission_problem_id)
        × (s.contest_problem_id ≡ j.submission_contest_problem_id)
  pub contest_problem :
      (c : ℕ)
      → j.submission_contest_problem_id ≡ some c
      → find_where (λ (q : ContestProblem). q.id == c) db.contest_problems ≢ none

module _ (j : Judged) (v : Verdict) (type : SubmissionType) (revealing : Option ScoreRevealing)
    (db : Db) (right : FinalsAreRight db) (current : IsCurrent j db) where
  rows : List Submission
  unfolding store_verdict
  rows = (store_verdict j.submission_id type revealing v db).submissions

  -- The row that is changed is in no group of another user or problem.
  problem-outside :
      (user problem : ℕ)
      → is_value j.submission_user_id user && (j.submission_problem_id == problem) ≡ false
      → (r : Submission) → In r db.submissions
      → (r.id == j.submission_id) ≡ true
      → (of_problem user problem r ≡ false)
        × (of_problem user problem (set_verdict type revealing v r) ≡ false)
  unfolding set_verdict
  problem-outside user problem n r i t =
      let (a, b, c) = current.submission r i ((==_iff r.id j.submission_id).0 t) in
      (rw (a, b) n, rw (a, b) n)

  contest-outside :
      (user contest : ℕ)
      → is_value j.submission_user_id user && is_value j.submission_contest_problem_id contest
        ≡ false
      → (r : Submission) → In r db.submissions
      → (r.id == j.submission_id) ≡ true
      → (of_contest_problem user contest r ≡ false)
        × (of_contest_problem user contest (set_verdict type revealing v r) ≡ false)
  unfolding set_verdict
  contest-outside user contest n r i t =
      let (a, b, c) = current.submission r i ((==_iff r.id j.submission_id).0 t) in
      (rw (a, c) n, rw (a, c) n)

  problem_part :
      (user problem : ℕ)
      → ProblemFinalIsRight user problem rows
        ⊎ (is_value j.submission_user_id user && (j.submission_problem_id == problem) ≡ true)
  unfolding rows store_verdict
  problem_part user problem =
      elim (Bool-cases
        (is_value j.submission_user_id user && (j.submission_problem_id == problem))) [
          | inl t ↦ inr t
          | inr n ↦ inl (
              update_where-Chosen problem_final _ _ _ _ _ db.submissions
                (problem-outside user problem n) (right.problem_final user problem))
        ]

  contest_part :
      (user : ℕ) (q : ContestProblem)
      → In q db.contest_problems
      → (ContestFinalIsRight user q rows × InitialFinalIsRight user q rows)
        ⊎ (is_value j.submission_user_id user && is_value j.submission_contest_problem_id q.id
            ≡ true)
  unfolding rows store_verdict
  contest_part user q i =
      elim (Bool-cases
        (is_value j.submission_user_id user && is_value j.submission_contest_problem_id q.id)) [
          | inl t ↦ inr t
          | inr n ↦ inl (
            update_where-Chosen contest_problem_final _ _ _ _ _ db.submissions
                (contest-outside user q.id n) (right.contest_final user q i),
            update_where-Chosen contest_problem_initial_final _ _ _ _ _ db.submissions
                (contest-outside user q.id n) (right.initial_final user q i),
          )
        ]

  mid : Db
  mid = store_verdict j.submission_id type revealing v db

  -- A submission of a user: the marks of this user may be wrong now.
  stored-RightBut :
      (u : ℕ)
      → j.submission_user_id ≡ some u
      → RightBut u j.submission_problem_id j.submission_contest_problem_id mid
  unfolding mid rows store_verdict
  stored-RightBut u e = record {
    problem_final = λ user problem. elim (problem_part user problem) [
      | inl r ↦ inl r
      | inr t ↦ inr (let t' = rw e at t in (ground arith, ground arith))
    ];
    contest_final = λ user q i. elim (contest_part user q i) [
      | inl r ↦ inl r.0
      | inr t ↦ inr (let t' = rw e at t in (ground arith, ground arith))
    ];
    initial_final = λ user q i. elim (contest_part user q i) [
      | inl r ↦ inl r.1
      | inr t ↦ inr (let t' = rw e at t in (ground arith, ground arith))
    ];
  }

  -- A submission without a user has no final.
  stored-FinalsAreRight : j.submission_user_id ≡ none → FinalsAreRight mid
  unfolding mid rows store_verdict
  stored-FinalsAreRight e = record {
    problem_final = λ user problem. elim (problem_part user problem) [
      | inl r ↦ r
      | inr t ↦ absurd (let t' = rw e at t in ground arith)
    ];
    contest_final = λ user q i. elim (contest_part user q i) [
      | inl r ↦ r.0
      | inr t ↦ absurd (let t' = rw e at t in ground arith)
    ];
    initial_final = λ user q i. elim (contest_part user q i) [
      | inl r ↦ r.1
      | inr t ↦ absurd (let t' = rw e at t in ground arith)
    ];
  }

  stored-HasKeys : HasKeys db → HasKeys mid
  unfolding mid store_verdict set_verdict
  stored-HasKeys keys = record {
    submissions =
        rw
          (ids-update_where (λ s. s.id == j.submission_id) (set_verdict type revealing v)
            (λ r. refl) db.submissions)
          keys.submissions;
    contest_problems = keys.contest_problems;
  }

  after_update :
      HasKeys db
      → (db' : Db)
      → update_final j.submission_user_id j.submission_problem_id j.submission_contest_problem_id
          mid
        ≡ ok db'
      → FinalsAreRight db' × HasKeys db'
  unfolding update_final
  after_update keys db' p = elim (Option-cases j.submission_user_id) [
    | inl e ↦
        let same : mid ≡ db' = the_ok (
          sym (
            ap
              (λ (o : Option ℕ).
                update_final o j.submission_problem_id j.submission_contest_problem_id mid)
              e)
          ∙ p) in
        (
          subst FinalsAreRight same (stored-FinalsAreRight e),
          subst HasKeys same (stored-HasKeys keys),
        )
    | inr (u, e) ↦ (
      update_final-FinalsAreRight u _ _ mid db' (stored-HasKeys keys) (stored-RightBut u e)
          (rw e at p),
      update_final-HasKeys _ _ _ mid db' (stored-HasKeys keys) p,
    )
  ]

  selected :
      HasKeys db
      → (db' : Db) × (update_final j.submission_user_id j.submission_problem_id
            j.submission_contest_problem_id mid
          ≡ ok db')
        × FinalsAreRight db'
        × HasKeys db'
  unfolding mid store_verdict
  selected keys =
      let (db', p) =
        update_final-ok j.submission_user_id j.submission_problem_id j.submission_contest_problem_id
          mid current.contest_problem in
      let (a, b) = after_update keys db' p in (db', p, a, b)

-- Let all marks of final submissions be right, let the ids of submissions and of contest problems be
-- distinct, and let the submission, unless it is gone, still have the user, the problem and the
-- contest problem that the handler selected, and that contest problem be in its table. Then
-- `update_submission` does not throw, and afterwards all marks are right again.
pub update_submission-FinalsAreRight :
    (j : Judged) (v : Verdict) (db : Db)
    → HasKeys db
    → FinalsAreRight db
    → IsCurrent j db
    → (db' : Db) × (update_submission j v db ≡ ok db') × FinalsAreRight db' × HasKeys db'
unfolding update_submission update_selected mid
update_submission-FinalsAreRight j v db keys right current =
    elim (Option-cases (select_submission j.submission_id db)) [
      | inl e ↦ (db, rw e refl, right, keys)
      | inr (s, e) ↦
          let (db', p, a, b) =
            selected j v s.type (score_revealing_of s.contest_problem_id db) db right current
              keys in
          (db', rw e p, a, b)
    ]
