-- ===== src/JobHandlers/Reselect.antt =====
-- reselect_final_submissions_in_contest_problem.cc: when the settings of a contest problem change, all
-- its final submissions are chosen again. GROUP BY gives every pair once; the order is that of the
-- first rows here. A pair is kept with the arguments of the call of `update_final` for it.
use sim_project.Common.{ℕ, is_value, keep, List, map, some, Result, ok, ◌>>=◌, Bytes}
use sim_project.Sql.{distinct_by}
use sim_project.Db.{Db}
use sim_project.Finals.ToUpdate.{FinalToUpdate, same_final, update_finals}
use sim_project.JobHandlers.{mark_job_as_done}

-- SELECT user_id, problem_id FROM submissions WHERE contest_problem_id=? GROUP BY user_id, problem_id
unfoldable pub select_user_and_problem : ℕ → Db → List FinalToUpdate
select_user_and_problem contest_problem_id db = distinct_by same_final (
    map
      (λ s. record {
        user_id = s.user_id;
        problem_id = s.problem_id;
        contest_problem_id = some contest_problem_id;
      })
      (keep (λ s. is_value s.contest_problem_id contest_problem_id) db.submissions))

unfoldable pub reselect_final_submissions_in_contest_problem : Bytes → ℕ → ℕ → Db → Result Db
unfolding select_user_and_problem
reselect_final_submissions_in_contest_problem logs job_id contest_problem_id db = do
  db' ← update_finals (select_user_and_problem contest_problem_id db) db
  ok (mark_job_as_done logs job_id db')
