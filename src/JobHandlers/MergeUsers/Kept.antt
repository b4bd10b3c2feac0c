-- ===== src/JobHandlers/MergeUsers/Kept.antt =====
-- A merge of two users loses nothing that the donor had.
use sim_project.Common.{
  ℕ, ◌≡◌, ◌≢◌, refl, sym, ap, ◌∙◌, ◌==◌, is_value, ltb, if◌then◌else◌, Bool-cases, inl, inr, keep,
  List, [], ◌∷◌, map, none, some, ok, Bytes, subst, arith,
}
use sim_project.Sql.{find_where, update_where, delete_where}
use sim_project.Sql.Find.{find_where-update, find_where-delete, find_where-In}
use sim_project.Sql.Moved.{update_where-moved, delete_where-moved, map-delete_where}
use sim_project.Db.{Db, delete_users_row}
use sim_project.Schema.Users.{User, UserType, UserType_code}
use sim_project.Schema.Submissions.{Submission}
use sim_project.Finals.Frame.{unmarked}
use sim_project.JobHandlers.{mark_job_as_done, set_job_status_and_log}
use sim_project.JobHandlers.MergeUsers.{
  give_to, transfer_type, transfer_account, transfer_submissions, transfer_jobs, merge_found,
  merge_users,
}
use sim_project.JobHandlers.MergeUsers.Modes.{
  HasContestUserKey, mode_of, higher, transferred-mode_of, deleted-mode_of,
}
use sim_project.JobHandlers.MergeUsers.Merged.{IsMergeable, mid, updated, finished, merged}

-- The type that gives more permissions.
abbrev pub stronger : UserType → UserType → UserType
stronger a b = if ltb (UserType_code a) (UserType_code b) then a else b

-- The target user has what the two had; no row was deleted but the donor's account.
pub record IsTakenOver (donor target : ℕ) (d t : User) (db db' : Db) : Type 0 where
  pub no_donor : find_where (λ (u : User). u.id == donor) db'.users ≡ none
  pub type :
      find_where (λ (u : User). u.id == target) db'.users
      ≡ some (record t { type = stronger d.type t.type })
  pub modes :
      (contest : ℕ)
      → mode_of target contest db'.contest_users
        ≡ higher (mode_of donor contest db.contest_users) (mode_of target contest db.contest_users)
  pub sessions :
      db'.sessions
      ≡ update_where (λ s. s.user_id == donor) (λ s. record s { user_id = target }) db.sessions
  pub problems :
      db'.problems
      ≡ update_where
          (λ p. is_value p.owner_id donor)
          (λ p. record p { owner_id = some target })
          db.problems
  pub contest_files :
      db'.contest_files
      ≡ update_where
          (λ f. is_value f.creator donor)
          (λ f. record f { creator = some target })
          db.contest_files
  pub submissions :
      map unmarked db'.submissions
      ≡ map unmarked (update_where (λ s. is_value s.user_id donor) (give_to target) db.submissions)

module _ (donor target : ℕ) (d t : User) (db : Db) (two : donor ≢ target)
    (key : HasContestUserKey db.contest_users)
    (found : find_where (λ (u : User). u.id == target) db.users ≡ some t) where
  typed :
      find_where (λ (u : User). u.id == target) (transfer_type d.type t.type target db.users)
      ≡ some (record t { type = stronger d.type t.type })
  unfolding transfer_type
  typed = elim (Bool-cases (ltb (UserType_code d.type) (UserType_code t.type))) [
    | inl s ↦
        let (i, own) = find_where-In (λ (u : User). u.id == target) db.users t found in
        rw s (
          find_where-update (λ (u : User). u.id == target) (λ u. record u { type = d.type })
            (λ u. u.id == target) (λ u. refl) db.users
          ∙ rw (found, own) refl)
    | inr n ↦ rw n found
  ]

  deleted_account :
      (users : List User)
      → find_where (λ (u : User). u.id == donor) (delete_where (λ u. u.id == donor) users) ≡ none
  unfolding find_where delete_where keep
  deleted_account [] = refl
  deleted_account (u ∷ users) = elim (Bool-cases (u.id == donor)) [
    | inl e ↦ rw e (deleted_account users)
    | inr n ↦ rw n (rw n (deleted_account users))
  ]

  -- After the loop of updates only marks of submissions differ.
  finished-IsTakenOver :
      (h : IsMergeable donor target db) (logs : Bytes) (job_id : ℕ) (rows : List Submission)
      → map unmarked rows
        ≡ map unmarked
            (update_where (λ s. is_value s.user_id donor) (give_to target) db.submissions)
      → IsTakenOver donor target d t db (
          finished donor target db d.type t.type h logs job_id
            (record (transfer_submissions donor target (mid donor target db d.type t.type h)) {
              submissions = rows;
            }))
  unfolding mid transfer_account transfer_submissions transfer_jobs delete_users_row
      mark_job_as_done set_job_status_and_log
  finished-IsTakenOver h logs job_id rows same = record {
    no_donor = deleted_account (transfer_type d.type t.type target db.users);
    type =
        find_where-delete (λ u. u.id == donor) (λ u. u) (λ u. u.id == target) (λ u e. ground arith)
          (transfer_type d.type t.type target db.users)
        ∙ typed;
    modes = λ contest.
        deleted-mode_of donor target contest two _
        ∙ transferred-mode_of donor target contest two db.contest_users key;
    sessions =
        delete_where-moved (λ s. s.user_id == donor) (λ s. record s { user_id = target })
          (λ s. ground arith) db.sessions;
    problems =
        update_where-moved (λ p. is_value p.owner_id donor)
          (λ p. record p { owner_id = some target }) (λ p. ground arith) _ db.problems;
    contest_files =
        update_where-moved (λ f. is_value f.creator donor) (λ f. record f { creator = some target })
          (λ f. ground arith) _ db.contest_files;
    submissions =
        map-delete_where (λ s. is_value s.user_id donor) unmarked (λ s. refl) rows
        ∙ ap (delete_where (λ s. is_value s.user_id donor)) same
        ∙ sym (map-delete_where (λ s. is_value s.user_id donor) unmarked (λ s. refl) _)
        ∙ ap (map unmarked) (
            delete_where-moved (λ s. is_value s.user_id donor) (give_to target) (λ s. ground arith)
              db.submissions);
  }

marked_rows :
    (donor target : ℕ) (db : Db) (d t : UserType) (h : IsMergeable donor target db)
    (rows : List Submission)
    → map unmarked rows
      ≡ map unmarked (transfer_submissions donor target (mid donor target db d t h)).submissions
    → map unmarked rows
      ≡ map unmarked (update_where (λ s. is_value s.user_id donor) (give_to target) db.submissions)
unfolding mid transfer_account transfer_submissions
marked_rows donor target db d t h rows e = e

-- Let two different users be merged, both in their table, and let what `merge_users-FinalsAreRight`
-- asks for hold; let no user be twice in one contest. Then `merge_users` does not throw. The donor's
-- account is gone; the target has the type and, in each contest, the mode that gives more of the two;
-- all sessions, problems, contest files and submissions of the donor are the target's, and none of
-- these is deleted.
pub merge_users-IsTakenOver :
    (logs : Bytes) (job_id donor_user_id target_user_id : ℕ) (d t : User) (db : Db)
    → IsMergeable donor_user_id target_user_id db
    → HasContestUserKey db.contest_users
    → find_where (λ (u : User). u.id == donor_user_id) db.users ≡ some d
    → find_where (λ (u : User). u.id == target_user_id) db.users ≡ some t
    → (db' : Db) × (merge_users logs job_id donor_user_id target_user_id db ≡ ok db')
      × IsTakenOver donor_user_id target_user_id d t db db'
unfolding merge_users merge_found
merge_users-IsTakenOver logs job_id donor target d t db h key e f =
    let (db2, p, a) = updated donor target db d.type t.type h in
    (
      _,
      rw (e, f) (merged donor target db d.type t.type h logs job_id),
      subst
          (λ (x : Db).
            IsTakenOver donor target d t db
              (finished donor target db d.type t.type h logs job_id x))
          (sym a.same.others)
          (finished-IsTakenOver donor target d t db h.two_users key f h logs job_id db2.submissions
            (marked_rows donor target db d.type t.type h db2.submissions a.same.rows)),
    )
