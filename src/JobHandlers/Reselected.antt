-- ===== src/JobHandlers/Reselected.antt =====
-- The job that chooses all final submissions of a contest problem again puts all marks right.
use sim_project.Common.{
  ℕ, ◌≡◌, ◌≢◌, refl, sym, ap, ◌∙◌, true, false, ◌==◌, ==_iff, is_value, Bool-cases, keep, In-keep,
  In-map, map-In, map, Option, none, some, ok, In, ◌⊎◌, inl, inr, arith, is_value-eq, Bytes, subst,
}
use sim_project.Sql.{find_where}
use sim_project.Sql.Find.{exists_or_none}
use sim_project.Sql.Distinct.{In-distinct_by, distinct_by-In}
use sim_project.Db.{Db}
use sim_project.Schema.Submissions.{Submission}
use sim_project.Schema.Contests.{ContestProblem}
use sim_project.Finals.Right.{ProblemFinalIsRight, ContestFinalIsRight, InitialFinalIsRight}
use sim_project.Finals.Update.{HasKeys}
use sim_project.Finals.Everywhere.{FinalsAreRight}
use sim_project.Finals.ToUpdate.{FinalToUpdate, same_final, same_final-eq}
use sim_project.Finals.Pending.{final_of, IsListedIn, Pending, IsKnown, update_finals-AllUpdated}
use sim_project.Finals.{of_contest_problem}
use sim_project.JobHandlers.{mark_job_as_done, set_job_status_and_log}
use sim_project.JobHandlers.Reselect.{
  select_user_and_problem, reselect_final_submissions_in_contest_problem,
}

-- What the job starts from: the marks of one contest problem may be wrong, all others are right.
pub record RightElsewhere (c : ℕ) (db : Db) : Type 0 where
  pub problem_final : (user problem : ℕ) → ProblemFinalIsRight user problem db.submissions
  pub contest_final :
      (user : ℕ) (q : ContestProblem)
      → In q db.contest_problems
      → q.id ≢ c
      → ContestFinalIsRight user q db.submissions
  pub initial_final :
      (user : ℕ) (q : ContestProblem)
      → In q db.contest_problems
      → q.id ≢ c
      → InitialFinalIsRight user q db.submissions

module _ (c : ℕ) where
  abbrev called : Submission → FinalToUpdate
  called s = record { user_id = s.user_id; problem_id = s.problem_id; contest_problem_id = some c }

  selected-In :
      (user : ℕ) (db : Db) (r : Submission)
      → In r db.submissions
      → of_contest_problem user c r ≡ true
      → In (final_of user r.problem_id (some c)) (select_user_and_problem c db)
  unfolding select_user_and_problem
  selected-In user db r i g =
      let u : r.user_id ≡ some user = is_value-eq r.user_id user (ground arith) in
      let k = In-keep (λ s. is_value s.contest_problem_id c) r db.submissions i (ground arith) in
      In-distinct_by same_final same_final-eq _ _ (
        subst
          (λ (o : Option ℕ).
            In {A = FinalToUpdate}
              (record { user_id = o; problem_id = r.problem_id; contest_problem_id = some c })
              (map called (keep (λ s. is_value s.contest_problem_id c) db.submissions)))
          u (In-map called r _ k))

  -- A user without submissions in the contest problem has no marks there.
  start_case :
      (user : ℕ) (q : ContestProblem) (db : Db) (Right : Type 0)
      → (q.id ≢ c → Right)
      → (((r : Submission) → In r db.submissions → of_contest_problem user q.id r ≡ false) → Right)
      → Right ⊎ IsListedIn user q.id (select_user_and_problem c db)
  start_case user q db Right other absent = elim (Bool-cases (q.id == c)) [
    | inr n ↦ inl (other (λ e. ground arith))
    | inl t ↦
        let e : q.id ≡ c = (==_iff q.id c).0 t in
        elim (exists_or_none (of_contest_problem user q.id) db.submissions) [
          | inl (r, i, g) ↦ inr (
            r.problem_id,
            subst
                (λ (n : ℕ). In (final_of user r.problem_id (some n)) (select_user_and_problem c db))
                (sym e)
                (selected-In user db r i
                  (subst (λ (n : ℕ). of_contest_problem user n r ≡ true) e g)),
          )
          | inr n ↦ inl (absent n)
        ]
  ]

  start-Pending : (db : Db) → RightElsewhere c db → Pending (select_user_and_problem c db) db
  start-Pending db right = record {
    problem_final = λ user problem. inl (right.problem_final user problem);
    contest_final = λ user q i.
        start_case user q db _ (right.contest_final user q i)
          (λ n r j g. absurd (ground (arith, n r j)));
    initial_final = λ user q i.
        start_case user q db _ (right.initial_final user q i)
          (λ n r j g. absurd (ground (arith, n r j)));
  }

  selected-IsKnown :
      (db : Db)
      → find_where (λ (q : ContestProblem). q.id == c) db.contest_problems ≢ none
      → IsKnown (select_user_and_problem c db) db
  unfolding select_user_and_problem
  selected-IsKnown db known f d i e =
      let k = distinct_by-In same_final f _ i in
      let (s, j, x) =
        map-In called f (keep (λ s. is_value s.contest_problem_id c) db.submissions) k in
      let same : some c ≡ some d = sym (ap (λ (g : FinalToUpdate). g.contest_problem_id) x) ∙ e in
      let same' : c ≡ d = cc in rw (← same') known

-- Let the ids of submissions and of contest problems be distinct, let the contest problem be in its
-- table, and let all marks of final submissions be right but, perhaps, those of this contest problem,
-- as after a change of its settings. Then the job that reselects its final submissions does not
-- throw, and afterwards all marks are right.
pub reselect_final_submissions_in_contest_problem-FinalsAreRight :
    (logs : Bytes) (job_id contest_problem_id : ℕ) (db : Db)
    → HasKeys db
    → find_where (λ (q : ContestProblem). q.id == contest_problem_id) db.contest_problems ≢ none
    → RightElsewhere contest_problem_id db
    → (db' : Db) × (reselect_final_submissions_in_contest_problem logs job_id contest_problem_id db
        ≡ ok db')
      × FinalsAreRight db'
      × HasKeys db'
unfolding reselect_final_submissions_in_contest_problem mark_job_as_done set_job_status_and_log
reselect_final_submissions_in_contest_problem-FinalsAreRight logs job_id c db keys known right =
    let (mid, p, a) =
      update_finals-AllUpdated (select_user_and_problem c db) db keys (selected-IsKnown c db known)
        (start-Pending c db right) in
    (
      mark_job_as_done logs job_id mid,
      rw p refl,
      record {
        problem_final = a.right.problem_final;
        contest_final = a.right.contest_final;
        initial_final = a.right.initial_final;
      },
      record { submissions = a.keys.submissions; contest_problems = a.keys.contest_problems },
    )
