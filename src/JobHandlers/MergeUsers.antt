-- ===== src/JobHandlers/MergeUsers.antt =====
-- merge_users.cc, whose log is an argument: the target user takes over what the donor has, and the
-- donor is deleted. (user_id, contest_id) is the key of the table of contest users.
pub mod Marks
pub mod Modes
pub mod Merged
pub mod Kept
use sim_project.Common.{
  ◌>>=◌, ℕ, Bool, ◌==◌, ◌&&◌, ltb, is_value, has_value, keep, if◌then◌else◌, List, [], ◌∷◌, map,
  Option, none, some, Result, ok, Bytes,
}
use sim_project.Sql.{find_where, update_where, distinct_by}
use sim_project.Db.{Db, delete_users_row}
use sim_project.Schema.Users.{User, UserType, UserType_code}
use sim_project.Schema.Contests.{ContestUser, Mode_code}
use sim_project.Schema.Submissions.{Submission}
use sim_project.Finals.ToUpdate.{FinalToUpdate, same_final, update_finals}
use sim_project.JobHandlers.{mark_job_as_done, mark_job_as_cancelled}

-- if (donor_user_type < target_user_type)
unfoldable pub transfer_type : UserType → UserType → ℕ → List User → List User
unfolding UserType_code
transfer_type donor_user_type target_user_type target_user_id users =
    if ltb (UserType_code donor_user_type) (UserType_code target_user_type)
    then update_where (λ u. u.id == target_user_id) (λ u. record u { type = donor_user_type }) users
    else users

-- The row that the INNER JOIN gives for a row of the target user.
unfoldable pub higher_mode : ℕ → List ContestUser → ContestUser → Option ContestUser
higher_mode donor_user_id rows tcu =
    find_where
      (λ dcu.
        (dcu.contest_id == tcu.contest_id)
        && ((dcu.user_id == donor_user_id) && ltb (Mode_code tcu.mode) (Mode_code dcu.mode)))
      rows

abbrev pub set_mode : Option ContestUser → ContestUser → ContestUser
set_mode none tcu = tcu
set_mode (some dcu) tcu = record tcu { mode = dcu.mode }

-- UPDATE contest_users tcu INNER JOIN contest_users dcu ... SET tcu.mode=dcu.mode
unfoldable pub raise_modes : ℕ → ℕ → List ContestUser → List ContestUser
unfolding higher_mode
raise_modes donor_user_id target_user_id rows =
    update_where (λ tcu. tcu.user_id == target_user_id)
      (λ tcu. set_mode (higher_mode donor_user_id rows tcu) tcu) rows

abbrev pub has_contest_user : ℕ → ℕ → ContestUser → Bool
has_contest_user user contest r = (r.user_id == user) && (r.contest_id == contest)

-- INSERT IGNORE leaves a row that is there.
unfoldable pub insert_ignore : ContestUser → List ContestUser → List ContestUser
insert_ignore row rows =
    if has_value (find_where (has_contest_user row.user_id row.contest_id) rows)
    then rows
    else row ∷ rows

unfoldable pub insert_all : ℕ → List ContestUser → List ContestUser → List ContestUser
unfolding insert_ignore
insert_all target_user_id [] rows = rows
insert_all target_user_id (d ∷ ds) rows =
    insert_all target_user_id ds (insert_ignore (record d { user_id = target_user_id }) rows)

unfoldable pub transfer_contest_users : ℕ → ℕ → List ContestUser → List ContestUser
unfolding raise_modes insert_all
transfer_contest_users donor_user_id target_user_id rows =
    let rows' = raise_modes donor_user_id target_user_id rows in
    insert_all target_user_id (keep (λ r. r.user_id == donor_user_id) rows') rows'

-- The statements before the submissions.
unfoldable pub transfer_account : ℕ → ℕ → UserType → UserType → Db → Db
unfolding transfer_type transfer_contest_users
transfer_account donor_user_id target_user_id donor_user_type target_user_type db = record db {
  users = transfer_type donor_user_type target_user_type target_user_id db.users;
  sessions =
      update_where (λ s. s.user_id == donor_user_id) (λ s. record s { user_id = target_user_id })
        db.sessions;
  problems =
      update_where (λ p. is_value p.owner_id donor_user_id)
        (λ p. record p { owner_id = some target_user_id }) db.problems;
  contest_users = transfer_contest_users donor_user_id target_user_id db.contest_users;
  contest_files =
      update_where (λ f. is_value f.creator donor_user_id)
        (λ f. record f { creator = some target_user_id }) db.contest_files;
}

-- SELECT DISTINCT problem_id, contest_problem_id, each with the arguments of its call of `update_final`.
unfoldable pub select_finals_to_update : ℕ → ℕ → Db → List FinalToUpdate
select_finals_to_update donor_user_id target_user_id db = distinct_by same_final (
    map
      (λ s. record {
        user_id = some target_user_id;
        problem_id = s.problem_id;
        contest_problem_id = s.contest_problem_id;
      })
      (keep (λ s. is_value s.user_id donor_user_id) db.submissions))

abbrev pub give_to : ℕ → Submission → Submission
give_to target_user_id s = record s { user_id = some target_user_id }

unfoldable pub transfer_submissions : ℕ → ℕ → Db → Db
transfer_submissions donor_user_id target_user_id db = record db {
  submissions =
      update_where (λ s. is_value s.user_id donor_user_id) (give_to target_user_id) db.submissions;
}

unfoldable pub transfer_jobs : ℕ → ℕ → Db → Db
transfer_jobs donor_user_id target_user_id db = record db {
  jobs =
      update_where (λ j. is_value j.creator donor_user_id)
        (λ j. record j { creator = some target_user_id }) db.jobs;
}

unfoldable pub merge_existing : Bytes → ℕ → ℕ → ℕ → UserType → UserType → Db → Result Db
unfolding transfer_account select_finals_to_update transfer_submissions transfer_jobs
merge_existing logs job_id donor_user_id target_user_id donor_user_type target_user_type db = do
  let mid = transfer_account donor_user_id target_user_id donor_user_type target_user_type db
  let finals_to_update = select_finals_to_update donor_user_id target_user_id mid
  db' ← update_finals finals_to_update (transfer_submissions donor_user_id target_user_id mid)
  ok (
      mark_job_as_done logs job_id
        (delete_users_row donor_user_id (transfer_jobs donor_user_id target_user_id db')))

unfoldable pub merge_found : Bytes → ℕ → ℕ → ℕ → Option User → Option User → Db → Result Db
unfolding merge_existing
merge_found logs job_id donor_user_id target_user_id none target db =
    ok (mark_job_as_cancelled logs job_id db)
merge_found logs job_id donor_user_id target_user_id (some donor) none db =
    ok (mark_job_as_cancelled logs job_id db)
merge_found logs job_id donor_user_id target_user_id (some donor) (some target) db =
    merge_existing logs job_id donor_user_id target_user_id donor.type target.type db

unfoldable pub merge_users : Bytes → ℕ → ℕ → ℕ → Db → Result Db
unfolding merge_found
merge_users logs job_id donor_user_id target_user_id db =
    merge_found logs job_id donor_user_id target_user_id
      (find_where (λ u. u.id == donor_user_id) db.users)
      (find_where (λ u. u.id == target_user_id) db.users) db
