-- ===== src/JobServer/Promises.antt =====
-- The two promises of the job server: jobs that run together are apart, and a job that may start does.
use sim_project.Common.{
  ℕ, suc, ◌≡◌, ◌≢◌, ◌+◌, refl, sym, ap, ◌∙◌, Bool, true, ◌&&◌, keep, keep-In, In-keep, List, [],
  ◌∷◌, Option, none, some, Option-cases, ok, In, All-at, All-mono, inl, inr, arith, subst, length,
}
use sim_project.Sql.First.{first_by-IsFirst, first_by-none}
use sim_project.Sql.Order.{not_after}
use sim_project.Schema.Jobs.{Job}
use sim_project.JobServer.Condition.{evaluate, is_true}
use sim_project.JobServer.Filter.{Entry, emplace, add_in_progress_job, build_condition}
use sim_project.JobServer.Locks.{are_apart}
use sim_project.JobServer.Collisions.{is_targeted, is_targeted-condition_of}
use sim_project.JobServer.Exclusion.{locks, Separate, AllPairs, IsOf, Inv}
use sim_project.JobServer.Steps.{by_priority_and_id-IsOrder}
use sim_project.JobServer.Ends.{Reach-Holds}
use sim_project.JobServer.Queue.{
  Task, Server, Takes, here, there, HasJobKey, Step, pick, start, finish, return, change, Reach,
  launched, next, tasks, task_of, launch, select_new_job, take_selected, check_for_a_new_job,
  by_priority_and_id, is_pending, start_task, end_task,
}

AllPairs-mono :
    (R S : Task → Task → Type 0)
    → ((t u : Task) → R t u → S t u)
    → (ts : List Task) → AllPairs R ts
    → AllPairs S ts
AllPairs-mono R S f [] h = tt
AllPairs-mono R S f (t ∷ ts) (a, p) = (All-mono (R t) (S t) (f t) ts a, AllPairs-mono R S f ts p)

length-Takes : {t : Task} {ts rest : List Task} → Takes t ts rest → length ts ≡ suc (length rest)
length-Takes here = refl
length-Takes (there k) = ap suc (length-Takes k)

-- Each worker runs one job, or is about to be idle, or is idle.
abbrev pub workers : Server → ℕ
workers s = length s.running + s.finishing + s.idle_workers

selected-workers :
    (found : Option Job) (s s' : Server)
    → take_selected found s ≡ ok (some s')
    → workers s' ≡ workers s
unfolding take_selected
selected-workers none s s' e = cc
selected-workers (some j) s s' e = ground arith

Step-workers : {s s' : Server} → Step s s' → workers s' ≡ workers s
unfolding check_for_a_new_job start_task end_task
Step-workers {s} {s'} (pick w e) = selected-workers (select_new_job s.filter s.jobs) s s' e
Step-workers (start t n w e) = omega arith
Step-workers (finish t rest k) = omega (arith, length-Takes k)
Step-workers (return n e) = omega arith
Step-workers (change jobs key targets) = refl

Reach-workers :
    {workers_num : ℕ} {jobs : List Job} {s : Server}
    → Reach workers_num jobs s
    → workers s ≡ workers_num
unfolding launch
Reach-workers launched = omega arith
Reach-workers (next r st) = Step-workers st ∙ Reach-workers r

-- Let `id` be the primary key of the table of jobs. Whatever steps the job server takes, and whatever
-- other programs do to the table as long as they give no id twice and leave the types of jobs, and
-- the ids that the jobs work on but for jobs that add a problem, as they are: no two of the jobs that
-- run or are picked have a lock in common, and the workers that run a job, those about to be idle and
-- the idle ones are as many as there were.
pub Reach-are_apart :
    (workers_num : ℕ) (jobs : List Job) (s : Server)
    → HasJobKey jobs
    → Reach workers_num jobs s
    → AllPairs (λ t u. are_apart (locks t) (locks u) ≡ true) (tasks s.waiting s.running)
      × (length s.running + s.finishing + s.idle_workers ≡ workers_num)
Reach-are_apart workers_num jobs s key r = (
  AllPairs-mono Separate (λ t u. are_apart (locks t) (locks u) ≡ true) (λ t u h. h.0)
      (tasks s.waiting s.running) (Reach-Holds key r).separate,
  Reach-workers r,
)

-- The job that is picked when nothing runs: a pending one, before which no pending one comes.
abbrev pub IsNext : List Job → Job → Type 0
IsNext jobs b =
    In b jobs
    × (is_pending b.status ≡ true)
    × ((k : Job)
        → In k jobs
        → is_pending k.status ≡ true
        → not_after (by_priority_and_id b k) ≡ true)

no_entries :
    (filter : List Entry)
    → ((e : Entry) → In e filter → (t : Task) × In t [] × IsOf e t)
    → filter ≡ []
no_entries [] h = refl
no_entries (e ∷ filter) h = elim (h e (inl refl)).1 [ ]

-- With an empty filter every pending row passes.
module _ (jobs : List Job) where
  test : Job → Bool
  test j = is_pending j.status && is_true (evaluate (build_condition []) j)

  test-is_pending : (j : Job) → test j ≡ is_pending j.status
  unfolding test build_condition evaluate
  test-is_pending j = ground arith

  selected-IsNext : (b : Job) → select_new_job [] jobs ≡ some b → IsNext jobs b
  unfolding select_new_job test
  selected-IsNext b e =
      let (i, first) =
        first_by-IsFirst by_priority_and_id by_priority_and_id-IsOrder (keep test jobs) b e in
      let (k, t) = keep-In test b jobs i in
      (
        k,
        sym (test-is_pending b) ∙ t,
        λ c l p.
            All-at (λ x. not_after (by_priority_and_id b x) ≡ true) c (keep test jobs) first
              (In-keep test c jobs l (test-is_pending c ∙ p)),
      )

  some_selected : (j : Job) → In j jobs → is_pending j.status ≡ true → select_new_job [] jobs ≢ none
  unfolding select_new_job test
  some_selected j i p e =
      let k = In-keep test j jobs i (test-is_pending j ∙ p) in
      let empty = first_by-none by_priority_and_id by_priority_and_id-IsOrder (keep test jobs) e in
      elim (rw empty at k) [ ]

-- A row that has all its ids is taken.
take-some :
    (b : Job) (s : Server)
    → is_targeted b.type b.aux_id b.aux_id_2 ≡ true
    → (s' : Server) × (take_selected (some b) s ≡ ok (some s')) × (s'.waiting ≡ some (task_of b))
unfolding take_selected add_in_progress_job
take-some b s h =
    let (found, e) = is_targeted-condition_of b.type b.aux_id b.aux_id_2 h in
    (record s { filter = emplace b.id found s.filter; waiting = some (task_of b) }, rw e refl, refl)

-- Let the job server have come to a state in which it runs no job and has picked none, and let there
-- be a pending job; let each pending job have all ids that a job of its type works on. Then the next
-- check picks a job: a pending one, such that no pending job has a higher priority, or the same and
-- a lower id.
pub check_for_a_new_job-IsNext :
    (workers_num : ℕ) (jobs : List Job) (s : Server) (j : Job)
    → HasJobKey jobs
    → Reach workers_num jobs s
    → s.waiting ≡ none
    → s.running ≡ []
    → In j s.jobs
    → is_pending j.status ≡ true
    → ((k : Job)
        → In k s.jobs
        → is_pending k.status ≡ true
        → is_targeted k.type k.aux_id k.aux_id_2 ≡ true)
    → (b : Job) × (s' : Server) × IsNext s.jobs b
      × (check_for_a_new_job s ≡ ok (some s'))
      × (s'.waiting ≡ some (task_of b))
unfolding check_for_a_new_job
check_for_a_new_job-IsNext workers_num jobs s j key r w v i p targeted =
    let inv : Inv s.jobs s.filter [] =
      subst (λ (o : Option Task). Inv s.jobs s.filter (tasks o [])) w
        (subst (λ (ts : List Task). Inv s.jobs s.filter (tasks s.waiting ts)) v
          (Reach-Holds key r)) in
    let empty = no_entries s.filter inv.owned in
    elim (Option-cases (select_new_job [] s.jobs)) [
      | inl e ↦ absurd (some_selected s.jobs j i p e)
      | inr (b, e) ↦
          let (k, q, first) = selected-IsNext s.jobs b e in
          let (s', t, x) = take-some b s (targeted b k q) in
          (
            b,
            s',
            (k, q, first),
            subst (λ (o : Option Job). take_selected o s ≡ ok (some s'))
                (sym e ∙ ap (λ (f : List Entry). select_new_job f s.jobs) (sym empty)) t,
            x,
          )
    ]
