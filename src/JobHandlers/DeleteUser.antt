-- ===== src/JobHandlers/DeleteUser.antt =====
-- delete_user.cc
use sim_project.Common.{ℕ, ◌==◌, is_value, has_value, keep, if◌then◌else◌, Bytes}
use sim_project.Sql.{find_where}
use sim_project.Db.{Db, delete_users_row}
use sim_project.JobHandlers.{mark_job_as_done, mark_job_as_cancelled, insert_deletions}

unfoldable pub delete_user : Bytes → Bytes → ℕ → ℕ → Db → Db
unfolding insert_deletions delete_users_row
delete_user logs now job_id user_id db =
    if has_value (find_where (λ u. u.id == user_id) db.users)
    then mark_job_as_done logs job_id (
        delete_users_row user_id
          (insert_deletions now (keep (λ s. is_value s.user_id user_id) db.submissions) db))
    else mark_job_as_cancelled logs job_id db
