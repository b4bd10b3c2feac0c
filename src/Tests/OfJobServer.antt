-- ===== src/Tests/OfJobServer.antt =====
-- Examples for the job server: a merge of problems, and some jobs on these problems.
use sim_project.Common.{
  ℕ, zero, suc, ◌≡◌, ◌+◌, refl, true, Option, none, some, List, [], ◌∷◌, ok, deadlock, In, inl, inr,
  arith, length, bytes, keep,
}
use sim_project.Db.{Db}
use sim_project.Sql.{first_by, update_where}
use sim_project.Schema.Jobs.{Job, JobType, JobStatus}
use sim_project.JobServer.Condition.{Condition, evaluate}
use sim_project.JobServer.Filter.{
  add_in_progress_job, condition_of, no_collision, is_one_of_types, problem_jobs,
}
use sim_project.JobServer.Locks.{are_apart, locks_of}
use sim_project.JobServer.Collisions.{condition_of-are_apart, allows, is_targeted}
use sim_project.JobServer.Exclusion.{locks, AllPairs}
use sim_project.JobServer.Queue.{
  Server, task_of, HasJobKey, Reach, launched, next, pick, start, launch, check_for_a_new_job,
  start_task, is_pending,
}
use sim_project.JobServer.Promises.{Reach-are_apart, check_for_a_new_job-IsNext, IsNext}
use sim_project.JobServer.Process.{
  Attempt, Call, Processed, process_task, run_task, dispatch, attempts, process_task-Processed,
}
use sim_project.Tests.{db}

abbrev job_row : ℕ → JobType → ℕ → Option ℕ → Option ℕ → Job
job_row id type priority a b = record {
  id = id;
  created_at = bytes "2024-05-01";
  creator = none;
  type = type;
  priority = priority;
  status = JobStatus.pending;
  aux_id = a;
  aux_id_2 = b;
  log = [];
}

abbrev merging : Job
merging = job_row 1 JobType.merge_problems 25 (some 1) (some 2)

-- The problem is the target of the merge.
abbrev reuploading : Job
reuploading = job_row 2 JobType.reupload_problem 10 (some 2) none

abbrev deleting : Job
deleting = job_row 3 JobType.delete_problem 30 (some 4) none

abbrev collision : Condition
collision = no_collision (is_one_of_types problem_jobs) JobType.merge_problems (1 ∷ 2 ∷ [])

condition_of-are_apart_example :
    allows (some collision) reuploading
    ≡ are_apart
        (locks_of JobType.reupload_problem (some 2) none)
        (locks_of JobType.merge_problems (some 1) (some 2))
unfolding condition_of is_targeted
condition_of-are_apart_example =
    condition_of-are_apart JobType.merge_problems (some 1) (some 2) (some collision) reuploading
      refl refl

abbrev queue : List Job
queue = merging ∷ reuploading ∷ deleting ∷ []

queue-HasJobKey : HasJobKey queue
queue-HasJobKey j k a b e = ground arith

-- The first check picks the job with the highest priority, and a worker takes it.
abbrev picked : Server
picked = record (launch 2 queue) {
  filter =
      record {
        job_id = 3;
        condition = no_collision (is_one_of_types problem_jobs) JobType.merge_problems (4 ∷ []);
      }
      ∷ [];
  waiting = some (task_of deleting);
}

abbrev started : Server
started = record (start_task (task_of deleting) picked) { idle_workers = 1 }

first_check : check_for_a_new_job (launch 2 queue) ≡ ok (some picked)
unfolding check_for_a_new_job launch first_by keep update_where evaluate add_in_progress_job
first_check = refl

started-Reach : Reach 2 queue started
unfolding launch
started-Reach = next (next launched (pick refl first_check)) (start (task_of deleting) 1 refl refl)

-- Then the merge is picked; the reupload has to wait.
abbrev merge_picked : Server
merge_picked = record started {
  filter = record { job_id = 1; condition = collision } ∷ started.filter;
  waiting = some (task_of merging);
}

second_check : check_for_a_new_job started ≡ ok (some merge_picked)
unfolding check_for_a_new_job launch start_task first_by keep update_where evaluate
    add_in_progress_job
second_check = refl

third_check : check_for_a_new_job (record merge_picked { waiting = none }) ≡ ok none
unfolding check_for_a_new_job launch start_task first_by keep update_where evaluate
    add_in_progress_job
third_check = refl

merge_picked-Reach : Reach 2 queue merge_picked
unfolding launch start_task
merge_picked-Reach = next started-Reach (pick refl second_check)

Reach-are_apart_example :
    AllPairs (λ t u. are_apart (locks t) (locks u) ≡ true) (task_of merging ∷ task_of deleting ∷ [])
    × (length (task_of deleting ∷ []) + 0 + 1 ≡ 2)
unfolding start_task launch
Reach-are_apart_example = Reach-are_apart 2 queue merge_picked queue-HasJobKey merge_picked-Reach

queue-is_targeted :
    (k : Job)
    → In k queue
    → is_pending k.status ≡ true
    → is_targeted k.type k.aux_id k.aux_id_2 ≡ true
unfolding is_targeted
queue-is_targeted k i p = ground arith

check_for_a_new_job-IsNext_example :
    (b : Job) × (s' : Server) × IsNext (launch 2 queue).jobs b
    × (check_for_a_new_job (launch 2 queue) ≡ ok (some s'))
    × (s'.waiting ≡ some (task_of b))
unfolding launch update_where is_pending
check_for_a_new_job-IsNext_example =
    check_for_a_new_job-IsNext 2 queue (launch 2 queue) deleting queue-HasJobKey launched refl refl
      (inr (inr (inl refl))) refl queue-is_targeted

-- The first two attempts end in a deadlock.
abbrev busy_at_first : ℕ → Call → Db → Attempt
busy_at_first zero call d = Attempt.failed deadlock d
busy_at_first (suc zero) call d = Attempt.failed deadlock d
busy_at_first (suc (suc n)) call d = Attempt.returned (record d { next_job_id = 7 })

process_task-Processed_example :
    Processed busy_at_first []
      (task_of deleting)
      db
      (process_task busy_at_first [] (task_of deleting) db)
process_task-Processed_example = process_task-Processed busy_at_first [] (task_of deleting) db

process_task_test : (process_task busy_at_first [] (task_of deleting) db).next_job_id ≡ 7
unfolding process_task run_task dispatch attempts
process_task_test = refl
