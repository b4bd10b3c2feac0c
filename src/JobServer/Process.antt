-- ===== src/JobServer/Process.antt =====
-- `process_task`: which handler runs for a task, again after a deadlock, and what an exception leads
-- to. The handlers are an argument, `run`: how attempt `n` of a call ends, and the database that it
-- leaves, also if it throws: the transactions that it committed before are not rolled back.
use sim_project.Common.{
  ℕ, zero, suc, ◌≡◌, ◌≢◌, ◌+◌, ◌≤◌, refl, Option, Result, ok, threw, Exception, deadlock,
  bad_optional_access, assertion_failed, not_implemented, sql_error, ◌>>=◌, value, ◌⊎◌, inl, inr,
  arith, Bytes,
}
use sim_project.Db.{Db}
use sim_project.Schema.Jobs.{JobType}
use sim_project.JobHandlers.{mark_job_as_failed}
use sim_project.JobServer.Queue.{Task}

pub data Call : Type 0 where
  judge_or_rejudge_submission reupload_problem : ℕ → Call
  add_problem : Call
  reselect_final_submissions_in_contest_problem delete_user delete_problem delete_contest : ℕ → Call
  delete_contest_round delete_contest_problem reset_problem_time_limits : ℕ → Call
  merge_problems merge_users : ℕ → ℕ → Call
  change_problem_statement delete_internal_file : ℕ → Call

-- The switch over the type of the task.
unfoldable pub dispatch : JobType → Option ℕ → Option ℕ → Result Call
dispatch JobType.add_problem a b = ok Call.add_problem
dispatch JobType.edit_problem a b = threw not_implemented
dispatch JobType.merge_problems a b = do
  donor ← value a
  target ← value b
  ok (Call.merge_problems donor target)
dispatch JobType.merge_users a b = do
  donor ← value a
  target ← value b
  ok (Call.merge_users donor target)
dispatch JobType.judge_submission a b = do
  aux_id ← value a
  ok (Call.judge_or_rejudge_submission aux_id)
dispatch JobType.rejudge_submission a b = do
  aux_id ← value a
  ok (Call.judge_or_rejudge_submission aux_id)
dispatch JobType.reupload_problem a b = do aux_id ← value a; ok (Call.reupload_problem aux_id)
dispatch JobType.reselect_final_submissions_in_contest_problem a b = do
  aux_id ← value a
  ok (Call.reselect_final_submissions_in_contest_problem aux_id)
dispatch JobType.delete_user a b = do aux_id ← value a; ok (Call.delete_user aux_id)
dispatch JobType.delete_problem a b = do aux_id ← value a; ok (Call.delete_problem aux_id)
dispatch JobType.delete_contest a b = do aux_id ← value a; ok (Call.delete_contest aux_id)
dispatch JobType.delete_contest_round a b = do
  aux_id ← value a
  ok (Call.delete_contest_round aux_id)
dispatch JobType.delete_contest_problem a b = do
  aux_id ← value a
  ok (Call.delete_contest_problem aux_id)
dispatch JobType.reset_problem_time_limits_using_model_solution a b = do
  aux_id ← value a
  ok (Call.reset_problem_time_limits aux_id)
dispatch JobType.change_problem_statement a b = do
  aux_id ← value a
  ok (Call.change_problem_statement aux_id)
dispatch JobType.delete_internal_file a b = do
  aux_id ← value a
  ok (Call.delete_internal_file aux_id)

-- How an attempt ends, with the database that it leaves.
pub data Attempt : Type 0 where
  returned : Db → Attempt
  failed : Exception → Db → Attempt

module _ (run : ℕ → Call → Db → Attempt) where
  -- What follows an attempt: another one after a deadlock, as long as the limit allows.
  abbrev after_failure : Exception → Db → (Db → Attempt) → Attempt
  after_failure Exception.deadlock db rest = rest db
  after_failure e db rest = Attempt.failed e db

  abbrev after_attempt : Attempt → (Db → Attempt) → Attempt
  after_attempt (Attempt.returned db) rest = Attempt.returned db
  after_attempt (Attempt.failed e db) rest = after_failure e db rest

  -- `repeat_if_deadlocked(limit, ...)` from attempt `n` on.
  unfoldable pub attempts : ℕ → ℕ → Call → Db → Attempt
  attempts zero n call db = run n call db
  attempts (suc limit) n call db =
      after_attempt (run n call db) (λ d. attempts limit (suc n) call d)

  -- The switch, retried.
  abbrev run_call : Db → Result Call → Attempt
  run_call db (threw e) = Attempt.failed e db
  run_call db (ok call) = attempts 128 0 call db

  unfoldable pub run_task : Task → Db → Attempt
  unfolding dispatch attempts
  run_task t db = run_call db (dispatch t.job_type t.job_aux_id t.job_aux_id_2)

  -- catch (const std::exception& e)
  abbrev or_failed : Bytes → ℕ → Attempt → Db
  or_failed logs job_id (Attempt.returned db) = db
  or_failed logs job_id (Attempt.failed e db) = mark_job_as_failed logs job_id db

  unfoldable pub process_task : Bytes → Task → Db → Db
  unfolding run_task
  process_task logs t db = or_failed logs t.job_id (run_task t db)

  -- Attempts that all end in a deadlock lead from an attempt and a database to later ones.
  pub data Deadlocks (call : Call) : ℕ → Db → ℕ → Db → Type 0 where
    none_yet : {n : ℕ} {db : Db} → Deadlocks call n db n db
    one_more :
        {n m : ℕ} {db mid db' : Db}
        → run n call db ≡ Attempt.failed deadlock mid
        → Deadlocks call (suc n) mid m db'
        → Deadlocks call n db m db'

  -- How a series of attempts ends: by one that ends well, or throws something else, or is the last.
  pub data Ended (first limit : ℕ) (call : Call) (db : Db) : Attempt → Type 0 where
    ended_well :
        (n : ℕ) (mid db' : Db)
        → n ≤ first + limit
        → Deadlocks call first db n mid
        → run n call mid ≡ Attempt.returned db'
        → Ended first limit call db (Attempt.returned db')
    gave_up :
        (n : ℕ) (e : Exception) (mid db' : Db)
        → n ≤ first + limit
        → Deadlocks call first db n mid
        → run n call mid ≡ Attempt.failed e db'
        → (e ≢ deadlock) ⊎ (n ≡ first + limit)
        → Ended first limit call db (Attempt.failed e db')

  retried-Ended :
      (n limit : ℕ) (call : Call) (db mid : Db) (result : Attempt)
      → run n call db ≡ Attempt.failed deadlock mid
      → Ended (suc n) limit call mid result
      → Ended n (suc limit) call db result
  retried-Ended n limit call db mid _ p (ended_well k d db' b h q) =
      ended_well k d db' (omega arith) (one_more p h) q
  retried-Ended n limit call db mid _ p (gave_up k e d db' b h q (inl x)) =
      gave_up k e d db' (omega arith) (one_more p h) q (inl x)
  retried-Ended n limit call db mid _ p (gave_up k e d db' b h q (inr x)) =
      gave_up k e d db' (omega arith) (one_more p h) q (inr (omega arith))

  last-Ended :
      (n : ℕ) (call : Call) (db : Db) (result : Attempt)
      → run n call db ≡ result
      → Ended n 0 call db result
  last-Ended n call db (Attempt.returned db') e = ended_well n db db' (omega arith) none_yet e
  last-Ended n call db (Attempt.failed x db') e =
      gave_up n x db db' (omega arith) none_yet e (inr (omega arith))

  attempt-Ended :
      (n limit : ℕ) (call : Call) (db : Db) (result : Attempt) (rest : Db → Attempt)
      → run n call db ≡ result
      → ((d : Db) → Ended (suc n) limit call d (rest d))
      → Ended n (suc limit) call db (after_attempt result rest)
  attempt-Ended n limit call db (Attempt.returned db') rest e k =
      ended_well n db db' (omega arith) none_yet e
  attempt-Ended n limit call db (Attempt.failed Exception.deadlock db') rest e k =
      retried-Ended n limit call db db' (rest db') e (k db')
  attempt-Ended n limit call db (Attempt.failed Exception.assertion_failed db') rest e k =
      gave_up n assertion_failed db db' (omega arith) none_yet e (inl (λ q. cc))
  attempt-Ended n limit call db (Attempt.failed Exception.bad_optional_access db') rest e k =
      gave_up n bad_optional_access db db' (omega arith) none_yet e (inl (λ q. cc))
  attempt-Ended n limit call db (Attempt.failed Exception.not_implemented db') rest e k =
      gave_up n not_implemented db db' (omega arith) none_yet e (inl (λ q. cc))
  attempt-Ended n limit call db (Attempt.failed Exception.sql_error db') rest e k =
      gave_up n sql_error db db' (omega arith) none_yet e (inl (λ q. cc))

  attempts-Ended :
      (limit n : ℕ) (call : Call) (db : Db) → Ended n limit call db (attempts limit n call db)
  unfolding attempts
  attempts-Ended zero n call db = last-Ended n call db (run n call db) refl
  attempts-Ended (suc limit) n call db =
      attempt-Ended n limit call db (run n call db) _ refl
        (λ d. attempts-Ended limit (suc n) call d)

  -- What a task comes to: the work of its handler, or a job that is marked as failed.
  pub data Processed (logs : Bytes) (t : Task) (db : Db) : Db → Type 0 where
    worked :
        (call : Call) (n : ℕ) (mid db' : Db)
        → dispatch t.job_type t.job_aux_id t.job_aux_id_2 ≡ ok call
        → n ≤ 128
        → Deadlocks call 0 db n mid
        → run n call mid ≡ Attempt.returned db'
        → Processed logs t db db'
    no_handler :
        (e : Exception)
        → dispatch t.job_type t.job_aux_id t.job_aux_id_2 ≡ threw e
        → Processed logs t db (mark_job_as_failed logs t.job_id db)
    not_done :
        (call : Call) (n : ℕ) (e : Exception) (mid db' : Db)
        → dispatch t.job_type t.job_aux_id t.job_aux_id_2 ≡ ok call
        → n ≤ 128
        → Deadlocks call 0 db n mid
        → run n call mid ≡ Attempt.failed e db'
        → (e ≢ deadlock) ⊎ (n ≡ 128)
        → Processed logs t db (mark_job_as_failed logs t.job_id db')

  Ended-Processed :
      (logs : Bytes) (t : Task) (db : Db) (call : Call) (result : Attempt)
      → dispatch t.job_type t.job_aux_id t.job_aux_id_2 ≡ ok call
      → Ended 0 128 call db result
      → Processed logs t db (or_failed logs t.job_id result)
  Ended-Processed logs t db call _ e (ended_well n mid db' b d p) =
      worked call n mid db' e (omega arith) d p
  Ended-Processed logs t db call _ e (gave_up n x mid db' b d p (inl q)) =
      not_done call n x mid db' e (omega arith) d p (inl q)
  Ended-Processed logs t db call _ e (gave_up n x mid db' b d p (inr q)) =
      not_done call n x mid db' e (omega arith) d p (inr (omega arith))

  dispatched :
      (logs : Bytes) (t : Task) (db : Db) (found : Result Call)
      → dispatch t.job_type t.job_aux_id t.job_aux_id_2 ≡ found
      → Processed logs t db (or_failed logs t.job_id (run_call db found))
  dispatched logs t db (threw e) p = no_handler e p
  dispatched logs t db (ok call) p =
      Ended-Processed logs t db call (attempts 128 0 call db) p (attempts-Ended 128 0 call db)

  -- Whatever the handlers do, a task ends after at most 129 attempts. Either its handler ended well
  -- after attempts that all ended in a deadlock, each on the database that the one before it left, and
  -- the database is what the handler made of it; or there is no handler, or the handler threw something
  -- else than a deadlock, or 129 attempts ended in a deadlock, and then the job is marked as failed in
  -- the database that the last attempt left.
  pub process_task-Processed :
      (logs : Bytes) (t : Task) (db : Db) → Processed logs t db (process_task logs t db)
  unfolding process_task run_task
  process_task-Processed logs t db =
      dispatched logs t db (dispatch t.job_type t.job_aux_id t.job_aux_id_2) refl
