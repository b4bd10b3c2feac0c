-- ===== src/JobHandlers/MergeProblems/Jobs.antt =====
-- The jobs that a merge of two problems inserts.
use sim_project.Common.{
  ℕ, ◌≡◌, ◌≤◌, refl, sym, ap, ◌∙◌, Bool, true, false, not, ◌==◌, if◌then◌else◌, Bool-cases, keep,
  In-keep, In-map, List, map, some, In, inl, inr, arith, Bytes, subst,
}
use sim_project.Sql.{find_where, delete_where, order_by}
use sim_project.Sql.Find.{find_where-In}
use sim_project.Db.{Db}
use sim_project.Schema.Submissions.{Submission}
use sim_project.Schema.Problems.{Problem}
use sim_project.Schema.Jobs.{JobType}
use sim_project.JobHandlers.{insert_jobs, insert_deletions}
use sim_project.JobHandlers.Inserted.{
  HasNewJob, insert_jobs-In, insert_jobs-keeps, insert_jobs-next, insert_jobs-OnlyJobs,
  insert_deletions-In, insert_deletions-OnlyJobs,
}
use sim_project.JobHandlers.MergeProblems.{
  is_solution_of, is_problem_solution, by_id, transfer_contest_problems, delete_solutions,
  schedule_rejudges,
}
use sim_project.JobHandlers.MergeProblems.Sound.{IsMergeable}
use sim_project.JobHandlers.MergeProblems.Merged.{mid}
use sim_project.Sql.Sorted.{In-order_by}

module _ (now : Bytes) (donor target : ℕ) (rejudge : Bool) (db : Db)
    (h : IsMergeable donor target db) (p : Problem)
    (found : find_where (λ (x : Problem). x.id == donor) db.problems ≡ some p) where
  a : Db
  a = transfer_contest_problems donor target db

  gone : List ℕ
  gone = map (λ x. x.file_id) (keep (λ x. x.id == donor) db.problems)

  db1 : Db
  db1 = insert_jobs now JobType.delete_internal_file gone a

  unfoldable pub mid' : Db
  mid' = schedule_rejudges now rejudge donor (mid now donor target rejudge db h)

  db1-submissions : db1.submissions ≡ db.submissions
  unfolding db1 a transfer_contest_problems
  db1-submissions =
      ap (λ (d : Db). d.submissions) (insert_jobs-OnlyJobs now JobType.delete_internal_file gone a)

  mid-submissions :
      (mid now donor target rejudge db h).submissions
      ≡ delete_where (is_solution_of donor) db.submissions
  unfolding mid delete_solutions db1 a gone transfer_contest_problems
  mid-submissions = ap (delete_where (is_solution_of donor)) (
      ap (λ (d : Db). d.submissions)
        (insert_deletions-OnlyJobs now (keep (is_solution_of donor) db1.submissions) db1)
      ∙ db1-submissions)

  -- The file of the problem.
  pub problem_job :
      HasNewJob db.next_job_id JobType.delete_internal_file p.file_id
        (mid now donor target rejudge db h)
  unfolding mid delete_solutions insert_deletions db1 a gone transfer_contest_problems
  problem_job =
      let (i, t) = find_where-In (λ (x : Problem). x.id == donor) db.problems p found in
      let (j, k, d, l) = insert_jobs-In now JobType.delete_internal_file gone a p.file_id (
        In-map (λ x. x.file_id) p (keep (λ x. x.id == donor) db.problems)
          (In-keep (λ x. x.id == donor) p db.problems i t)) in
      (
        j,
        insert_jobs-keeps now JobType.delete_internal_file
            (map (λ s. s.file_id) (keep (is_solution_of donor) db1.submissions)) db1 j k,
        d,
        l,
      )

  -- The file of a solution.
  pub solution_job :
      (s : Submission)
      → In s db.submissions
      → is_solution_of donor s ≡ true
      → HasNewJob db.next_job_id JobType.delete_internal_file s.file_id
          (mid now donor target rejudge db h)
  unfolding mid delete_solutions db1 a gone transfer_contest_problems
  solution_job s i t =
      let k : In s db1.submissions = rw db1-submissions i in
      let (j, m, d, l) =
        insert_deletions-In now (keep (is_solution_of donor) db1.submissions) db1 s
          (In-keep (is_solution_of donor) s db1.submissions k t) in
      let n = insert_jobs-next now JobType.delete_internal_file gone a in (j, m, d, omega arith)

  mid-next : db.next_job_id ≤ (mid now donor target rejudge db h).next_job_id
  unfolding mid delete_solutions insert_deletions db1 a gone transfer_contest_problems
  mid-next =
      let m = insert_jobs-next now JobType.delete_internal_file gone a in
      let n =
        insert_jobs-next now JobType.delete_internal_file
          (map (λ s. s.file_id) (keep (is_solution_of donor) db1.submissions)) db1 in
      omega arith

  -- The jobs so far stay when the rejudge jobs are added.
  pub still_new :
      (type : JobType) (n : ℕ)
      → HasNewJob db.next_job_id type n (mid now donor target rejudge db h)
      → HasNewJob db.next_job_id type n mid'
  unfolding mid' schedule_rejudges
  still_new type n (j, i, d, l) = elim (Bool-cases rejudge) [
    | inl t ↦ rw t (
      j,
      insert_jobs-keeps now JobType.rejudge_submission _ (mid now donor target true db h) j
          (rw (← t) i),
      d,
      l,
    )
    | inr f ↦ rw f (j, rw (← f) i, d, l)
  ]

  pub kept_solution :
      (r : Submission)
      → In r db.submissions
      → is_solution_of donor r ≡ false
      → In r (mid now donor target rejudge db h).submissions
  unfolding delete_where
  kept_solution r i f =
      rw mid-submissions
        (In-keep (λ x. not (is_solution_of donor x)) r db.submissions i (rw f refl))

  pub rejudge_job :
      rejudge ≡ true
      → (s : Submission) → In s db.submissions
      → s.problem_id ≡ donor
      → is_problem_solution s.type ≡ false
      → HasNewJob db.next_job_id JobType.rejudge_submission s.id mid'
  unfolding mid' schedule_rejudges
  rejudge_job t s i e f =
      let rows = (mid now donor target rejudge db h).submissions in
      let k : In s rows = kept_solution s i (ground arith) in
      let there =
        In-order_by by_id s (keep (λ r. r.problem_id == donor) rows)
          (In-keep (λ r. r.problem_id == donor) s rows k (ground arith)) in
      let (j, m, d, l) =
        insert_jobs-In now JobType.rejudge_submission
          (map (λ r. r.id) (order_by by_id (keep (λ r. r.problem_id == donor) rows)))
          (mid now donor target rejudge db h) s.id (In-map (λ r. r.id) s _ there) in
      let n = mid-next in
      subst
        (λ (b : Bool). HasNewJob db.next_job_id JobType.rejudge_submission s.id (
          if b
          then insert_jobs now JobType.rejudge_submission
              (map (λ r. r.id) (order_by by_id (keep (λ r. r.problem_id == donor) rows)))
              (mid now donor target rejudge db h)
          else mid now donor target rejudge db h))
        (sym t) (j, m, d, omega arith)
