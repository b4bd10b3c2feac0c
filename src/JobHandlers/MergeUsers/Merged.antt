-- ===== src/JobHandlers/MergeUsers/Merged.antt =====
-- What a merge of two users comes to.
use sim_project.Common.{ℕ, ◌≡◌, ◌≢◌, refl, is_value, Option, none, some, ok, Bytes}
use sim_project.Db.{Db, delete_users_row}
use sim_project.Schema.Users.{User, UserType}
use sim_project.Finals.Update.{HasKeys}
use sim_project.Finals.Members.{Distinct-delete}
use sim_project.Finals.Everywhere.{FinalsAreRight}
use sim_project.Finals.ToUpdate.{update_finals}
use sim_project.Finals.Pending.{HasContestProblems, AllUpdated, update_finals-AllUpdated}
use sim_project.JobHandlers.{mark_job_as_done, mark_job_as_cancelled, set_job_status_and_log}
use sim_project.JobHandlers.MergeUsers.{
  transfer_account, select_finals_to_update, transfer_submissions, transfer_jobs, merge_existing,
  merge_found, merge_users,
}
use sim_project.JobHandlers.MergeUsers.Marks.{
  selected-IsKnown, transferred-Pending, transferred-HasKeys, deleted-FinalsAreRight,
}

-- What the handler relies on.
pub record IsMergeable (donor target : ℕ) (db : Db) : Type 0 where
  pub two_users : donor ≢ target
  pub keys : HasKeys db
  pub right : FinalsAreRight db
  pub contest_problems : HasContestProblems db

module _ (donor target : ℕ) (db : Db) (donor_type target_type : UserType)
    (h : IsMergeable donor target db) where
  unfoldable pub mid : Db
  unfolding transfer_account
  mid = transfer_account donor target donor_type target_type db

  -- The loop of updates ends well.
  pub updated :
      (db' : Db) × (update_finals
          (select_finals_to_update donor target mid)
          (transfer_submissions donor target mid)
        ≡ ok db')
      × AllUpdated (transfer_submissions donor target mid) db'
  unfolding mid transfer_submissions
  updated =
      update_finals-AllUpdated (select_finals_to_update donor target mid)
        (transfer_submissions donor target mid)
        (transferred-HasKeys donor target mid
          (record { submissions = h.keys.submissions; contest_problems = h.keys.contest_problems }))
        (selected-IsKnown donor target mid h.contest_problems)
        (transferred-Pending donor target mid h.two_users (record {
          problem_final = h.right.problem_final;
          contest_final = h.right.contest_final;
          initial_final = h.right.initial_final;
        }))

  abbrev pub finished : Bytes → ℕ → Db → Db
  finished logs job_id d =
      mark_job_as_done logs job_id (delete_users_row donor (transfer_jobs donor target d))

  pub merged :
      (logs : Bytes) (job_id : ℕ)
      → merge_existing logs job_id donor target donor_type target_type db
        ≡ ok (finished logs job_id updated.0)
  unfolding merge_existing mid
  merged logs job_id = rw updated.1 refl

  finished-FinalsAreRight :
      (logs : Bytes) (job_id : ℕ) (d : Db)
      → FinalsAreRight d
      → FinalsAreRight (finished logs job_id d)
  unfolding transfer_jobs delete_users_row mark_job_as_done set_job_status_and_log
  finished-FinalsAreRight logs job_id d right =
      let left = deleted-FinalsAreRight donor d.submissions d refl right in
      record {
        problem_final = left.problem_final;
        contest_final = left.contest_final;
        initial_final = left.initial_final;
      }

  finished-HasKeys :
      (logs : Bytes) (job_id : ℕ) (d : Db) → HasKeys d → HasKeys (finished logs job_id d)
  unfolding transfer_jobs delete_users_row mark_job_as_done set_job_status_and_log
  finished-HasKeys logs job_id d keys = record {
    submissions = Distinct-delete (λ s. is_value s.user_id donor) d.submissions keys.submissions;
    contest_problems = keys.contest_problems;
  }

cancelled-FinalsAreRight :
    (logs : Bytes) (job_id : ℕ) (db : Db)
    → FinalsAreRight db
    → FinalsAreRight (mark_job_as_cancelled logs job_id db)
unfolding mark_job_as_cancelled set_job_status_and_log
cancelled-FinalsAreRight logs job_id db right = record {
  problem_final = right.problem_final;
  contest_final = right.contest_final;
  initial_final = right.initial_final;
}

cancelled-HasKeys :
    (logs : Bytes) (job_id : ℕ) (db : Db)
    → HasKeys db
    → HasKeys (mark_job_as_cancelled logs job_id db)
unfolding mark_job_as_cancelled set_job_status_and_log
cancelled-HasKeys logs job_id db keys = record {
  submissions = keys.submissions;
  contest_problems = keys.contest_problems;
}

found-FinalsAreRight :
    (logs : Bytes) (job_id donor target : ℕ) (d t : Option User) (db : Db)
    → IsMergeable donor target db
    → (db' : Db) × (merge_found logs job_id donor target d t db ≡ ok db')
      × FinalsAreRight db'
      × HasKeys db'
unfolding merge_found
found-FinalsAreRight logs job_id donor target none t db h = (
  _,
  refl,
  cancelled-FinalsAreRight logs job_id db h.right,
  cancelled-HasKeys logs job_id db h.keys,
)
found-FinalsAreRight logs job_id donor target (some d) none db h = (
  _,
  refl,
  cancelled-FinalsAreRight logs job_id db h.right,
  cancelled-HasKeys logs job_id db h.keys,
)
found-FinalsAreRight logs job_id donor target (some d) (some t) db h =
    let (mid', p, a) = updated donor target db d.type t.type h in
    (
      _,
      merged donor target db d.type t.type h logs job_id,
      finished-FinalsAreRight donor target db d.type t.type h logs job_id mid' a.right,
      finished-HasKeys donor target db d.type t.type h logs job_id mid' a.keys,
    )

-- Let two different users be merged, let the ids of submissions and of contest problems be distinct,
-- let the contest problems of the submissions be in their table, and let all marks of final
-- submissions be right. Then `merge_users` does not throw, and all marks are right afterwards, those
-- of the user who got the submissions too.
pub merge_users-FinalsAreRight :
    (logs : Bytes) (job_id donor_user_id target_user_id : ℕ) (db : Db)
    → IsMergeable donor_user_id target_user_id db
    → (db' : Db) × (merge_users logs job_id donor_user_id target_user_id db ≡ ok db')
      × FinalsAreRight db'
      × HasKeys db'
unfolding merge_users
merge_users-FinalsAreRight logs job_id donor target db h =
    found-FinalsAreRight logs job_id donor target _ _ db h
