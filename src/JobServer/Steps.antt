-- ===== src/JobServer/Steps.antt =====
-- Every step of the job server keeps the jobs that run at the same time apart.
use sim_project.Common.{
  inl, inr, ◌≡◌, refl, sym, ap, ◌∙◌, Bool, true, false, ◌&&◌, if◌then◌else◌, keep, keep-In, List,
  map-In, Option, none, some, ok, >>=-eq-ok, In, All-mono, arith, subst,
}
use sim_project.Sql.{update_where}
use sim_project.Sql.First.{first_by-IsFirst}
use sim_project.Sql.Order.{IsOrder, compare_by-IsOrder, descending-IsOrder, then_by-IsOrder}
use sim_project.Schema.Jobs.{Job, JobStatus}
use sim_project.JobServer.Condition.{evaluate, is_true}
use sim_project.JobServer.Filter.{
  Entry, condition_of, emplace, add_in_progress_job, build_condition,
}
use sim_project.JobServer.Exclusion.{Inv, picked-Inv}
use sim_project.JobServer.Queue.{
  Task, Server, KeepsTargets, HasJobKey, tasks, select_new_job, take_selected, by_priority_and_id,
  is_pending,
}

abbrev pub Holds : Server → Type 0
Holds s = Inv s.jobs s.filter (tasks s.waiting s.running)

pub by_priority_and_id-IsOrder : IsOrder by_priority_and_id
by_priority_and_id-IsOrder =
    then_by-IsOrder (λ r s. _) (λ r s. _)
      (descending-IsOrder (λ r s. _) (compare_by-IsOrder (λ (j : Job). j.priority)))
      (compare_by-IsOrder (λ (j : Job). j.id))

-- A selected row is in the table, is pending, and passes the filter.
pub select_new_job-In :
    (filter : List Entry) (jobs : List Job) (j : Job)
    → select_new_job filter jobs ≡ some j
    → In j jobs
      × (is_pending j.status ≡ true)
      × (is_true (evaluate (build_condition filter) j) ≡ true)
unfolding select_new_job
select_new_job-In filter jobs j e =
    let test = λ (k : Job). is_pending k.status && is_true (evaluate (build_condition filter) k) in
    let (i, t) =
      keep-In test j jobs
        (first_by-IsFirst by_priority_and_id by_priority_and_id-IsOrder (keep test jobs) j e).0 in
    (i, ground arith, ground arith)

the_ok_some : {A : Type 0} {a b : A} → ok (some a) ≡ ok (some b) → a ≡ b
the_ok_some e = cc

pub selected-Holds :
    (s s' : Server) (found : Option Job)
    → s.waiting ≡ none
    → Holds s
    → select_new_job s.filter s.jobs ≡ found
    → take_selected found s ≡ ok (some s')
    → Holds s'
unfolding take_selected add_in_progress_job
selected-Holds s s' none w inv q e = cc
selected-Holds s s' (some j) w inv q e =
    let (i, _, pass) = select_new_job-In s.filter s.jobs j q in
    let (filter, p, r) =
      >>=-eq-ok (add_in_progress_job j.id j.type j.aux_id j.aux_id_2 s.filter) _ e in
    let (added, valid, same) = >>=-eq-ok (condition_of j.type j.aux_id j.aux_id_2) _ p in
    let inv' : Inv s.jobs s.filter s.running =
      subst (λ (o : Option Task). Inv s.jobs s.filter (tasks o s.running)) w inv in
    let after = picked-Inv s.jobs s.filter s.running inv' j i pass added valid in
    let same' : emplace j.id added s.filter ≡ filter = cc in
    subst Holds (the_ok_some r) (rw (← same') after)

-- An UPDATE of the status.
module _ (test : Job → Bool) (status : JobStatus) (jobs : List Job) where
  abbrev pub updated : List Job
  updated = update_where test (λ j. record j { status = status }) jobs

  same_columns :
      (t : Bool) (j : Job)
      → let k : Job = if t then record j { status = status } else j in
        (k.id ≡ j.id) × (k.type ≡ j.type) × (k.aux_id ≡ j.aux_id) × (k.aux_id_2 ≡ j.aux_id_2)
  same_columns true j = (refl, refl, refl, refl)
  same_columns false j = (refl, refl, refl, refl)

  updated-KeepsTargets : (t : Task) → KeepsTargets jobs t → KeepsTargets updated t
  unfolding update_where
  updated-KeepsTargets t h k i e =
      let (j, l, p) = map-In _ k jobs i in
      let (a, b, c, d) = same_columns (test j) j in
      let (x, kept) = h j l (sym (ap (λ (n : Job). n.id) p ∙ a) ∙ e) in
      (
        ap (λ (n : Job). n.type) p ∙ b ∙ x,
        elim kept [
          | inl q ↦ inl q
          | inr (y, z) ↦
              inr (ap (λ (n : Job). n.aux_id) p ∙ c ∙ y, ap (λ (n : Job). n.aux_id_2) p ∙ d ∙ z)
        ],
      )

  pub updated-HasJobKey : HasJobKey jobs → HasJobKey updated
  unfolding update_where
  updated-HasJobKey key k k' i i' e =
      let (j, l, p) = map-In _ k jobs i in
      let (j', l', p') = map-In _ k' jobs i' in
      let same = key j j' l l' (
        sym (same_columns (test j) j).0
        ∙ sym (ap (λ (n : Job). n.id) p)
        ∙ e
        ∙ ap (λ (n : Job). n.id) p'
        ∙ (same_columns (test j') j').0) in
      p ∙ ap (λ (n : Job). if test n then record n { status = status } else n) same ∙ sym p'

  pub updated-Inv :
      (filter : List Entry) (ts : List Task) → Inv jobs filter ts → Inv updated filter ts
  updated-Inv filter ts inv = record {
    separate = inv.separate;
    guarded = inv.guarded;
    owned = inv.owned;
    targets =
        All-mono (KeepsTargets jobs) (KeepsTargets updated) updated-KeepsTargets ts inv.targets;
    key = updated-HasJobKey inv.key;
  }
