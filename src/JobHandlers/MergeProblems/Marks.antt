-- ===== src/JobHandlers/MergeProblems/Marks.antt =====
-- The submissions of a problem that go to another problem, and the marks of final submissions.
use sim_project.Common.{
  ℕ, ◌≡◌, ◌≢◌, refl, sym, ap, ◌∙◌, Bool, true, false, ◌==◌, if◌then◌else◌, is_value, is_value-eq,
  Bool-cases, keep, keep-In, In-keep, In-map, map-In, List, Option, In, ◌⊎◌, inl, inr, arith, subst,
}
use sim_project.Sql.{Comparator, update_where}
use sim_project.Sql.Distinct.{In-distinct_by, distinct_by-In}
use sim_project.Db.{Db}
use sim_project.Schema.Submissions.{Submission}
use sim_project.Finals.Reselect.{Column}
use sim_project.Finals.Keeps.{Chosen}
use sim_project.Finals.Right.{ProblemFinalIsRight}
use sim_project.Finals.Update.{HasKeys}
use sim_project.Finals.Members.{Chosen-empty}
use sim_project.Finals.Outside.{update_where-touched, ids-update_where}
use sim_project.Finals.Everywhere.{FinalsAreRight}
use sim_project.Finals.ToUpdate.{FinalToUpdate, same_final, same_final-eq}
use sim_project.Finals.Pending.{
  final_of, IsListed, IsListedIn, Pending, IsKnown, HasContestProblems,
}
use sim_project.Finals.{
  problem_final, contest_problem_final, contest_problem_initial_final, of_contest_problem,
}
use sim_project.JobHandlers.MergeProblems.{put_in, select_finals_to_update, transfer_submissions}

module _ (donor target : ℕ) (db : Db) where
  abbrev called : Submission → FinalToUpdate
  called s = record {
    user_id = s.user_id;
    problem_id = target;
    contest_problem_id = s.contest_problem_id;
  }

  selected-In :
      (r : Submission)
      → In r db.submissions
      → (r.problem_id == donor) ≡ true
      → In (called r) (select_finals_to_update donor target db)
  unfolding select_finals_to_update
  selected-In r i t =
      In-distinct_by same_final same_final-eq (called r) _
        (In-map called r _ (In-keep (λ s. s.problem_id == donor) r db.submissions i t))

  selected-listed :
      (r : Submission) (user : ℕ)
      → In r db.submissions
      → (r.problem_id == donor) ≡ true
      → is_value r.user_id user ≡ true
      → In (final_of user target r.contest_problem_id) (select_finals_to_update donor target db)
  selected-listed r user i t e =
      subst
        (λ (o : Option ℕ).
          In {A = FinalToUpdate}
            (record { user_id = o; problem_id = target; contest_problem_id = r.contest_problem_id })
            (select_finals_to_update donor target db))
        (is_value-eq r.user_id user e) (selected-In r i t)

  pub selected-IsKnown :
      HasContestProblems db → IsKnown (select_finals_to_update donor target db) db
  unfolding select_finals_to_update
  selected-IsKnown known f c i e =
      let k = distinct_by-In same_final f _ i in
      let (s, j, x) = map-In called f (keep (λ s. s.problem_id == donor) db.submissions) k in
      known s c (keep-In (λ r. r.problem_id == donor) s db.submissions j).0
        (sym (ap (λ (g : FinalToUpdate). g.contest_problem_id) x) ∙ e)

  rows' : List Submission
  unfolding transfer_submissions
  rows' = (transfer_submissions donor target db).submissions

  put_away :
      (t : Bool) (r : Submission)
      → (r.problem_id == donor) ≡ t
      → donor ≢ target
      → ((if t then put_in target r else r).problem_id == donor) ≡ false
  put_away true r e n = ground arith
  put_away false r e n = e

  -- Nothing is in the donor problem any more.
  pub nothing_left :
      donor ≢ target
      → (r : Submission) → In r (transfer_submissions donor target db).submissions
      → (r.problem_id == donor) ≡ false
  unfolding transfer_submissions update_where
  nothing_left n r i =
      let (s, j, e) =
        map-In (λ s. if s.problem_id == donor then put_in target s else s) r db.submissions i in
      rw e (put_away (s.problem_id == donor) s refl n)

  problem_case :
      donor ≢ target
      → FinalsAreRight db
      → (user problem : ℕ)
      → ProblemFinalIsRight user problem rows'
        ⊎ IsListed user problem (select_finals_to_update donor target db)
  unfolding rows' transfer_submissions
  problem_case n right user problem = elim (Bool-cases (problem == donor)) [
    | inl t ↦
        inl (Chosen-empty problem_final _ _ _ rows' (λ r i. ground (arith, nothing_left n r i)))
    | inr f ↦
        elim (update_where-touched problem_final _ _ _ (λ s. s.problem_id == donor) (put_in target)
          db.submissions (right.problem_final user problem)) [
            | inl chosen ↦ inl chosen
            | inr (r, i, t, g) ↦
                let p : target ≡ problem = ground arith in
                inr (
                  r.contest_problem_id,
                  subst
                      (λ (m : ℕ).
                        In (final_of user m r.contest_problem_id)
                          (select_finals_to_update donor target db))
                      p (selected-listed r user i t (ground arith)),
                )
          ]
  ]

  contest_case :
      (column : Column) (candidate : Submission → Bool) (order : Comparator Submission) (user c : ℕ)
      → Chosen column (of_contest_problem user c) candidate order db.submissions
      → Chosen column (of_contest_problem user c) candidate order rows'
        ⊎ IsListedIn user c (select_finals_to_update donor target db)
  unfolding rows' transfer_submissions
  contest_case column candidate order user c chosen =
      elim (update_where-touched column (of_contest_problem user c) candidate order
        (λ s. s.problem_id == donor) (put_in target) db.submissions chosen) [
          | inl kept ↦ inl kept
          | inr (r, i, t, g) ↦ inr (
            target,
            subst
                (λ (o : Option ℕ).
                  In (final_of user target o) (select_finals_to_update donor target db))
                (is_value-eq r.contest_problem_id c (ground arith))
                (selected-listed r user i t (ground arith)),
          )
        ]

  pub transferred-Pending :
      donor ≢ target
      → FinalsAreRight db
      → Pending (select_finals_to_update donor target db) (transfer_submissions donor target db)
  unfolding rows' transfer_submissions
  transferred-Pending n right = record {
    problem_final = problem_case n right;
    contest_final =
        λ user q i. contest_case contest_problem_final _ _ user q.id (right.contest_final user q i);
    initial_final = λ user q i.
        contest_case contest_problem_initial_final _ _ user q.id (right.initial_final user q i);
  }

  pub transferred-HasKeys : HasKeys db → HasKeys (transfer_submissions donor target db)
  unfolding transfer_submissions
  transferred-HasKeys keys = record {
    submissions =
        rw
          (ids-update_where (λ s. s.problem_id == donor) (put_in target) (λ r. refl) db.submissions)
          keys.submissions;
    contest_problems = keys.contest_problems;
  }
