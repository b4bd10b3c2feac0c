-- ===== src/JobServer/Ends.antt =====
-- The end of a job, and the two promises of the job server: jobs that run together are apart, and a
-- job that may start does.
use sim_project.Common.{
  ℕ, ◌≡◌, refl, sym, ap, ◌∙◌, true, false, not, ◌==◌, ==_iff, Bool-cases, keep-In, In-keep, List,
  [], ◌∷◌, Option, none, some, ok, In, All-at, ◌⊎◌, inl, inr, arith, subst,
}
use sim_project.Schema.Jobs.{Job, JobStatus}
use sim_project.JobServer.Condition.{Condition}
use sim_project.JobServer.Filter.{Entry, condition_of, remove_in_progress_job}
use sim_project.JobServer.Exclusion.{
  locks, Separate, AllPairs, Held, IsGuarded, IsOf, Inv, All-of, condition_of-some,
}
use sim_project.JobServer.Steps.{Holds, selected-Holds, updated-Inv, updated-HasJobKey}
use sim_project.JobServer.Queue.{
  Task, Server, Takes, here, there, KeepsTargets, HasJobKey, Step, pick, start, finish, return,
  change, Reach, launched, next, tasks, launch, select_new_job, check_for_a_new_job, is_in_progress,
  start_task, end_task,
}

Takes-In : {t : Task} {ts rest : List Task} → Takes t ts rest → In t ts
Takes-In here = inl refl
Takes-In (there k) = inr (Takes-In k)

Takes-rest : {t : Task} {ts rest : List Task} → Takes t ts rest → (u : Task) → In u rest → In u ts
Takes-rest here u i = inr i
Takes-rest (there k) u (inl e) = inl e
Takes-rest (there k) u (inr i) = inr (Takes-rest k u i)

Takes-split :
    {t : Task} {ts rest : List Task} → Takes t ts rest → (u : Task) → In u ts → (u ≡ t) ⊎ In u rest
Takes-split here u (inl e) = inl e
Takes-split here u (inr i) = inr i
Takes-split (there k) u (inl e) = inr (inl e)
Takes-split (there k) u (inr i) = elim (Takes-split k u i) [ inl e ↦ inl e | inr j ↦ inr (inr j) ]

Takes-AllPairs :
    {t : Task} {ts rest : List Task}
    → Takes t ts rest
    → AllPairs Separate ts
    → AllPairs Separate rest
Takes-AllPairs here (a, p) = p
Takes-AllPairs {ts = u ∷ ts} {rest = u' ∷ rest} (there k) (a, p) = (
  All-of (Separate u) rest (λ v i. All-at (Separate u) v ts a (Takes-rest k v i)),
  Takes-AllPairs k p,
)

-- The other tasks of the same job work on nothing that is locked.
Takes-unlocked :
    {t : Task} {ts rest : List Task}
    → Takes t ts rest
    → AllPairs Separate ts
    → (u : Task) → In u rest
    → u.job_id ≡ t.job_id
    → locks u ≡ []
Takes-unlocked {t} {ts = t' ∷ ts} here (a, p) u i e = ((All-at (Separate t) u ts a i).1 (sym e)).1
Takes-unlocked {t} {ts = v ∷ ts} (there k) (a, p) u (inl q) e =
    rw q (((All-at (Separate v) t ts a (Takes-In k)).1 (ap (λ (w : Task). w.job_id) (sym q) ∙ e)).0)
Takes-unlocked (there k) (a, p) u (inr i) e = Takes-unlocked k p u i e

module _ (t : Task) (jobs : List Job) (filter : List Entry) (ts rest : List Task)
    (taken : Takes t ts rest) (inv : Inv jobs filter ts) where
  kept-Held :
      (u : Task)
      → In u rest
      → (found : Option Condition) → condition_of u.job_type u.job_aux_id u.job_aux_id_2 ≡ ok found
      → Held filter u found
      → Held (remove_in_progress_job t.job_id filter) u found
  unfolding remove_in_progress_job
  kept-Held u i none p h = h
  kept-Held u i (some c) p h = elim (Bool-cases (u.job_id == t.job_id)) [
    | inr n ↦ In-keep (λ e. not (e.job_id == t.job_id)) _ filter h (ap not n)
    | inl same ↦
        let free = Takes-unlocked taken inv.separate u i ((==_iff u.job_id t.job_id).0 same) in
        let apart = condition_of-some u.job_type u.job_aux_id u.job_aux_id_2 c p in
        absurd (let wrong : true ≡ false = rw free at apart in cc)
  ]

  still_owned :
      (e : Entry)
      → In e (remove_in_progress_job t.job_id filter)
      → (u : Task) × In u rest × IsOf e u
  unfolding remove_in_progress_job
  still_owned e k =
      let (i, n) = keep-In (λ x. not (x.job_id == t.job_id)) e filter k in
      let (u, l, (m, c)) = inv.owned e i in
      elim (Takes-split taken u l) [
        | inr r ↦ (u, r, (m, c))
        | inl q ↦
            absurd (
              let same : e.job_id ≡ t.job_id = sym m ∙ ap (λ (w : Task). w.job_id) q in
              ground arith)
      ]

  ended-Inv : Inv jobs (remove_in_progress_job t.job_id filter) rest
  ended-Inv = record {
    separate = Takes-AllPairs taken inv.separate;
    guarded = All-of (IsGuarded (remove_in_progress_job t.job_id filter)) rest (λ u i.
        let (found, p, h) = All-at (IsGuarded filter) u ts inv.guarded (Takes-rest taken u i) in
        (found, p, kept-Held u i found p h));
    owned = still_owned;
    targets =
        All-of (KeepsTargets jobs) rest
          (λ u i. All-at (KeepsTargets jobs) u ts inv.targets (Takes-rest taken u i));
    key = inv.key;
  }

Takes-tasks :
    (w : Option Task) {t : Task} {ts rest : List Task}
    → Takes t ts rest
    → Takes t (tasks w ts) (tasks w rest)
Takes-tasks none k = k
Takes-tasks (some u) k = there k

Step-Holds : {s s' : Server} → Step s s' → Holds s → Holds s'
unfolding check_for_a_new_job start_task end_task
Step-Holds {s} {s'} (pick w e) inv =
    selected-Holds s s' (select_new_job s.filter s.jobs) w inv refl e
Step-Holds {s} (start t n w e) inv =
    updated-Inv (λ j. j.id == t.job_id) JobStatus.in_progress s.jobs s.filter (t ∷ s.running)
      (subst (λ (o : Option Task). Inv s.jobs s.filter (tasks o s.running)) w inv)
Step-Holds {s} (finish t rest k) inv =
    ended-Inv t s.jobs s.filter (tasks s.waiting s.running) (tasks s.waiting rest)
      (Takes-tasks s.waiting k) inv
Step-Holds (return n e) inv = record {
  separate = inv.separate;
  guarded = inv.guarded;
  owned = inv.owned;
  targets = inv.targets;
  key = inv.key;
}
Step-Holds (change jobs key targets) inv = record {
  separate = inv.separate;
  guarded = inv.guarded;
  owned = inv.owned;
  targets = targets;
  key = key;
}

launch-Holds :
    (workers_num : ℕ) (jobs : List Job) → HasJobKey jobs → Holds (launch workers_num jobs)
unfolding launch
launch-Holds workers_num jobs key = record {
  separate = tt;
  guarded = tt;
  owned = λ e i. elim i [ ];
  targets = tt;
  key = updated-HasJobKey (λ j. is_in_progress j.status) JobStatus.pending jobs key;
}

pub Reach-Holds :
    {workers_num : ℕ} {jobs : List Job} {s : Server}
    → HasJobKey jobs
    → Reach workers_num jobs s
    → Holds s
Reach-Holds {workers_num} {jobs} key launched = launch-Holds workers_num jobs key
Reach-Holds key (next r st) = Step-Holds st (Reach-Holds key r)
