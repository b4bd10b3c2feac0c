-- ===== src/JobServer/Queue.antt =====
-- How jobs start and end: `check_for_and_process_a_new_job`, which the main thread calls, and the loop
-- of a worker thread. The main thread picks a job, waits for an idle worker and gives it the task;
-- the worker runs the handler, removes the job from the filter and becomes idle again. Other
-- programs, and the handlers, may change the table of jobs at any time.
use sim_project.Common.{
  ◌⊎◌, ℕ, suc, ◌≡◌, compare, Bool, true, false, ◌&&◌, ◌==◌, keep, List, [], ◌∷◌, Option, none, some,
  Result, ok, ◌>>=◌, In, All,
}
use sim_project.Sql.{Comparator, then_by, descending, first_by, update_where}
use sim_project.Schema.Jobs.{Job, JobType, JobStatus}
use sim_project.JobServer.Condition.{evaluate, is_true}
use sim_project.JobServer.Filter.{
  Entry, add_in_progress_job, remove_in_progress_job, build_condition,
}

pub record Task : Type 0 where
  pub job_id : ℕ
  pub job_type : JobType
  pub job_aux_id : Option ℕ
  pub job_aux_id_2 : Option ℕ

pub record Server : Type 0 where
  pub jobs : List Job
  pub filter : List Entry
  pub waiting : Option Task  -- picked, and no worker has it yet
  pub running : List Task
  pub finishing : ℕ  -- workers that are not yet idle again
  pub idle_workers : ℕ

unfoldable pub is_pending : JobStatus → Bool
is_pending JobStatus.pending = true
is_pending JobStatus.in_progress = false
is_pending JobStatus.done = false
is_pending JobStatus.failed = false
is_pending JobStatus.cancelled = false

unfoldable pub is_in_progress : JobStatus → Bool
is_in_progress JobStatus.pending = false
is_in_progress JobStatus.in_progress = true
is_in_progress JobStatus.done = false
is_in_progress JobStatus.failed = false
is_in_progress JobStatus.cancelled = false

-- priority DESC, id
abbrev pub by_priority_and_id : Comparator Job
by_priority_and_id r s = then_by (descending (compare r.priority s.priority)) (compare r.id s.id)

-- The SELECT of `check_for_and_process_a_new_job`.
unfoldable pub select_new_job : List Entry → List Job → Option Job
unfolding is_pending build_condition
select_new_job filter jobs =
    first_by by_priority_and_id
      (keep (λ j. is_pending j.status && is_true (evaluate (build_condition filter) j)) jobs)

abbrev pub task_of : Job → Task
task_of j = record {
  job_id = j.id;
  job_type = j.type;
  job_aux_id = j.aux_id;
  job_aux_id_2 = j.aux_id_2;
}

unfoldable pub take_selected : Option Job → Server → Result (Option Server)
take_selected none s = ok none
take_selected (some j) s = do
  filter ← add_in_progress_job j.id j.type j.aux_id j.aux_id_2 s.filter
  ok (some (record s { filter = filter; waiting = some (task_of j) }))

-- `check_for_and_process_a_new_job` up to `idle_workers.pop()`. `none` is NO_MORE_JOBS_FOR_NOW.
unfoldable pub check_for_a_new_job : Server → Result (Option Server)
unfolding select_new_job take_selected
check_for_a_new_job s = take_selected (select_new_job s.filter s.jobs) s

-- What follows `idle_workers.pop()`: the status, and the task for the worker.
unfoldable pub start_task : Task → Server → Server
start_task t s = record s {
  jobs =
      update_where (λ j. j.id == t.job_id) (λ j. record j { status = JobStatus.in_progress })
        s.jobs;
  waiting = none;
  running = t ∷ s.running;
}

-- `remove_in_progress_job`, after `process_task`.
unfoldable pub end_task : Task → List Task → Server → Server
end_task t rest s = record s {
  filter = remove_in_progress_job t.job_id s.filter;
  running = rest;
  finishing = suc s.finishing;
}

-- The server when its loop starts: jobs that an earlier run left in progress are pending again.
unfoldable pub launch : ℕ → List Job → Server
unfolding is_in_progress
launch workers_num jobs = record {
  jobs =
      update_where (λ j. is_in_progress j.status) (λ j. record j { status = JobStatus.pending })
        jobs;
  filter = [];
  waiting = none;
  running = [];
  finishing = 0;
  idle_workers = workers_num;
}

-- The picked and the running jobs.
abbrev pub tasks : Option Task → List Task → List Task
tasks none running = running
tasks (some t) running = t ∷ running

-- A task taken out of a list, and the others.
pub data Takes (t : Task) : List Task → List Task → Type 0 where
  here : {ts : List Task} → Takes t (t ∷ ts) ts
  there : {u : Task} {ts us : List Task} → Takes t ts us → Takes t (u ∷ ts) (u ∷ us)

-- No statement changes the type of a job or what it works on, but that the job which adds a problem
-- gets the id of the problem, and no id is given twice.
abbrev pub KeepsTargets : List Job → Task → Type 0
KeepsTargets jobs t =
    (j : Job)
    → In j jobs
    → j.id ≡ t.job_id
    → (j.type ≡ t.job_type)
      × ((t.job_type ≡ JobType.add_problem)
          ⊎ ((j.aux_id ≡ t.job_aux_id) × (j.aux_id_2 ≡ t.job_aux_id_2)))

-- `id` is the primary key of the table of jobs.
abbrev pub HasJobKey : List Job → Type 0
HasJobKey jobs = (j k : Job) → In j jobs → In k jobs → j.id ≡ k.id → j ≡ k

pub data Step : Server → Server → Type 0 where
  pick : {s s' : Server} → s.waiting ≡ none → check_for_a_new_job s ≡ ok (some s') → Step s s'
  start :
      {s : Server} (t : Task) (n : ℕ)
      → s.waiting ≡ some t
      → s.idle_workers ≡ suc n
      → Step s (record (start_task t s) { idle_workers = n })
  finish :
      {s : Server} (t : Task) (rest : List Task)
      → Takes t s.running rest
      → Step s (end_task t rest s)
  return :
      {s : Server} (n : ℕ)
      → s.finishing ≡ suc n
      → Step s (record s { finishing = n; idle_workers = suc s.idle_workers })
  change :
      {s : Server} (jobs : List Job)
      → HasJobKey jobs
      → All (KeepsTargets jobs) (tasks s.waiting s.running)
      → Step s (record s { jobs = jobs })

pub data Reach (workers_num : ℕ) (jobs : List Job) : Server → Type 0 where
  launched : Reach workers_num jobs (launch workers_num jobs)
  next : {s s' : Server} → Reach workers_num jobs s → Step s s' → Reach workers_num jobs s'
