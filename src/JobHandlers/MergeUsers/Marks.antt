-- ===== src/JobHandlers/MergeUsers/Marks.antt =====
-- After a merge of two users all marks of final submissions are right.
use sim_project.Common.{
  ℕ, ◌≡◌, ◌≢◌, refl, sym, ap, ◌∙◌, Bool, true, false, not, ◌==◌, ◌&&◌, if◌then◌else◌, is_value,
  is_value-eq, Bool-cases, keep, keep-In, In-keep, In-map, map-In, List, Option, some, In, ◌⊎◌, inl,
  inr, arith, subst,
}
use sim_project.Sql.{update_where}
use sim_project.Sql.Distinct.{In-distinct_by, distinct_by-In}
use sim_project.Db.{Db}
use sim_project.Schema.Submissions.{Submission}
use sim_project.Finals.Right.{ProblemFinalIsRight}
use sim_project.Finals.Update.{HasKeys}
use sim_project.Finals.Members.{Chosen-empty}
use sim_project.Finals.Outside.{update_where-touched, ids-update_where}
use sim_project.Finals.Everywhere.{FinalsAreRight}
use sim_project.Finals.ToUpdate.{FinalToUpdate, same_final, same_final-eq}
use sim_project.Finals.Pending.{
  final_of, IsListed, IsListedIn, Pending, IsKnown, HasContestProblems,
}
use sim_project.Sql.{Comparator, delete_where}
use sim_project.Finals.Reselect.{Column}
use sim_project.Finals.Keeps.{Chosen}
use sim_project.Finals.Members.{Chosen-delete}
use sim_project.Finals.{
  problem_final, contest_problem_final, contest_problem_initial_final, of_contest_problem,
}
use sim_project.JobHandlers.MergeUsers.{give_to, select_finals_to_update, transfer_submissions}

module _ (donor target : ℕ) (db : Db) where
  abbrev called : Submission → FinalToUpdate
  called s = record {
    user_id = some target;
    problem_id = s.problem_id;
    contest_problem_id = s.contest_problem_id;
  }

  -- What a submission of the donor counts for is collected.
  selected-In :
      (r : Submission)
      → In r db.submissions
      → is_value r.user_id donor ≡ true
      → In (called r) (select_finals_to_update donor target db)
  unfolding select_finals_to_update
  selected-In r i t =
      In-distinct_by same_final same_final-eq (called r) _
        (In-map called r _ (In-keep (λ s. is_value s.user_id donor) r db.submissions i t))

  selected-listed :
      (r : Submission) (c : ℕ)
      → In r db.submissions
      → is_value r.user_id donor ≡ true
      → is_value r.contest_problem_id c ≡ true
      → In (final_of target r.problem_id (some c)) (select_finals_to_update donor target db)
  selected-listed r c i t e =
      subst
        (λ (o : Option ℕ).
          In (final_of target r.problem_id o) (select_finals_to_update donor target db))
        (is_value-eq r.contest_problem_id c e) (selected-In r i t)

  pub selected-IsKnown :
      HasContestProblems db → IsKnown (select_finals_to_update donor target db) db
  unfolding select_finals_to_update
  selected-IsKnown known f c i e =
      let k = distinct_by-In same_final f _ i in
      let (s, j, x) = map-In called f (keep (λ s. is_value s.user_id donor) db.submissions) k in
      known s c (keep-In (λ r. is_value r.user_id donor) s db.submissions j).0
        (sym (ap (λ (g : FinalToUpdate). g.contest_problem_id) x) ∙ e)

  rows' : List Submission
  unfolding transfer_submissions
  rows' = (transfer_submissions donor target db).submissions

  given_away :
      (t : Bool) (r : Submission)
      → is_value r.user_id donor ≡ t
      → donor ≢ target
      → is_value (if t then give_to target r else r).user_id donor ≡ false
  given_away true r e n = ground arith
  given_away false r e n = e

  -- The donor has no submissions any more.
  nothing_left : donor ≢ target → (r : Submission) → In r rows' → is_value r.user_id donor ≡ false
  unfolding rows' transfer_submissions update_where
  nothing_left n r i =
      let (s, j, e) =
        map-In (λ s. if is_value s.user_id donor then give_to target s else s) r db.submissions i in
      rw e (given_away (is_value s.user_id donor) s refl n)

  problem_case :
      donor ≢ target
      → FinalsAreRight db
      → (user problem : ℕ)
      → ProblemFinalIsRight user problem rows'
        ⊎ IsListed user problem (select_finals_to_update donor target db)
  unfolding rows' transfer_submissions
  problem_case n right user problem = elim (Bool-cases (user == donor)) [
    | inl t ↦
        inl (Chosen-empty problem_final _ _ _ rows' (λ r i. ground (arith, nothing_left n r i)))
    | inr f ↦
        elim (update_where-touched problem_final _ _ _ (λ s. is_value s.user_id donor)
          (give_to target) db.submissions (right.problem_final user problem)) [
            | inl chosen ↦ inl chosen
            | inr (r, i, t, g) ↦
                let p : r.problem_id ≡ problem = ground arith in
                let u : target ≡ user = ground arith in
                inr (
                  r.contest_problem_id,
                  subst
                      (λ (m : ℕ).
                        In (final_of m problem r.contest_problem_id)
                          (select_finals_to_update donor target db))
                      u
                      (subst
                        (λ (m : ℕ).
                          In (final_of target m r.contest_problem_id)
                            (select_finals_to_update donor target db))
                        p (selected-In r i t)),
                )
          ]
  ]

  contest_case :
      (column : Column) (candidate : Submission → Bool) (order : Comparator Submission)
      → donor ≢ target
      → (user c : ℕ) → Chosen column (of_contest_problem user c) candidate order db.submissions
      → Chosen column (of_contest_problem user c) candidate order rows'
        ⊎ IsListedIn user c (select_finals_to_update donor target db)
  unfolding rows' transfer_submissions
  contest_case column candidate order n user c chosen = elim (Bool-cases (user == donor)) [
    | inl t ↦ inl (
        Chosen-empty column (of_contest_problem user c) candidate order rows'
          (λ r i. ground (arith, nothing_left n r i)))
    | inr f ↦
        elim (update_where-touched column (of_contest_problem user c) candidate order
          (λ s. is_value s.user_id donor) (give_to target) db.submissions chosen) [
            | inl kept ↦ inl kept
            | inr (r, i, t, g) ↦
                let u : target ≡ user = ground arith in
                inr (
                  r.problem_id,
                  subst
                      (λ (m : ℕ).
                        In (final_of m r.problem_id (some c))
                          (select_finals_to_update donor target db))
                      u (selected-listed r c i t (ground arith)),
                )
          ]
  ]

  pub transferred-Pending :
      donor ≢ target
      → FinalsAreRight db
      → Pending (select_finals_to_update donor target db) (transfer_submissions donor target db)
  unfolding rows' transfer_submissions
  transferred-Pending n right = record {
    problem_final = problem_case n right;
    contest_final = λ user q i.
        contest_case contest_problem_final _ _ n user q.id (right.contest_final user q i);
    initial_final = λ user q i.
        contest_case contest_problem_initial_final _ _ n user q.id (right.initial_final user q i);
  }

  pub transferred-HasKeys : HasKeys db → HasKeys (transfer_submissions donor target db)
  unfolding transfer_submissions
  transferred-HasKeys keys = record {
    submissions =
        rw
          (ids-update_where (λ s. is_value s.user_id donor) (give_to target) (λ r. refl)
            db.submissions)
          keys.submissions;
    contest_problems = keys.contest_problems;
  }

-- The donor's rows go with the donor, and others have no part in other users' marks.
module _ (donor : ℕ) (rows : List Submission) where
  abbrev left : List Submission
  left = delete_where (λ s. is_value s.user_id donor) rows

  deleted_case :
      (column : Column) (candidate : Submission → Bool) (order : Comparator Submission)
      (match : Submission → Bool) (user : ℕ)
      → Chosen column (λ r. is_value r.user_id user && match r) candidate order rows
      → Chosen column (λ r. is_value r.user_id user && match r) candidate order left
  unfolding delete_where
  deleted_case column candidate order match user chosen = elim (Bool-cases (user == donor)) [
    | inl t ↦
        Chosen-empty column _ candidate order left (λ r i.
          let (j, k) = keep-In (λ s. not (is_value s.user_id donor)) r rows i in ground arith)
    | inr f ↦
        Chosen-delete column _ candidate order (λ s. is_value s.user_id donor) rows
          (λ r i t g. absurd (ground arith)) chosen
  ]

  pub deleted-FinalsAreRight :
      (db : Db)
      → db.submissions ≡ rows
      → FinalsAreRight db
      → FinalsAreRight (record db { submissions = left })
  deleted-FinalsAreRight db e right = record {
    problem_final = λ user problem.
        deleted_case problem_final _ _ (λ r. r.problem_id == problem) user
          (rw (← e) (right.problem_final user problem));
    contest_final = λ user q i.
        deleted_case contest_problem_final _ _ (λ r. is_value r.contest_problem_id q.id) user
          (rw (← e) (right.contest_final user q i));
    initial_final = λ user q i.
        deleted_case contest_problem_initial_final _ _ (λ r. is_value r.contest_problem_id q.id)
          user (rw (← e) (right.initial_final user q i));
  }
