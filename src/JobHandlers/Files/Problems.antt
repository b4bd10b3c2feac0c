-- ===== src/JobHandlers/Files/Problems.antt =====
-- The files of what goes with a problem.
use sim_project.Common.{
  ℕ, ◌≡◌, sym, ap, true, false, ◌==◌, ◌&&◌, ◌||◌, is_value, has_value, Bool-cases, keep, In-keep,
  In-map, List, map, In, ◌⊎◌, inl, inr, arith, Bytes, subst,
}
use sim_project.Sql.{find_where}
use sim_project.Sql.Find.{find_where-cases}
use sim_project.Db.{Db, delete_problems_row}
use sim_project.Schema.Submissions.{Submission}
use sim_project.Schema.Problems.{Problem}
use sim_project.Schema.Contests.{ContestProblem}
use sim_project.Schema.Jobs.{JobType}
use sim_project.JobHandlers.{insert_jobs, insert_deletions}
use sim_project.JobHandlers.Inserted.{
  OnlyJobs, OnlyJobs-trans, HasNewJob, insert_jobs-In, insert_jobs-keeps, insert_jobs-next,
  insert_jobs-OnlyJobs, insert_deletions-In, insert_deletions-OnlyJobs,
}
use sim_project.JobHandlers.Files.{HoldsFile, found_one, kept_or_gone}

-- A problem that no contest problem uses: the rows that go are the problem and its submissions.
module _ (now : Bytes) (db : Db) (problem : ℕ)
    (unused : has_value
        (find_where (λ (c : ContestProblem). c.problem_id == problem) db.contest_problems)
      ≡ false) where
  IsKeptInProblem : ℕ → Db → Type 0
  IsKeptInProblem f d =
      HoldsFile f (delete_problems_row problem d)
      ⊎ ((s : Submission) × In s db.submissions
          × (s.file_id ≡ f)
          × ((s.problem_id == problem) ≡ true))
      ⊎ ((p : Problem) × In p db.problems × (p.file_id ≡ f) × ((p.id == problem) ≡ true))

  no_use : (q : ContestProblem) → In q db.contest_problems → (q.problem_id == problem) ≡ false
  no_use q i =
      elim (find_where-cases (λ (c : ContestProblem). c.problem_id == problem)
        db.contest_problems) [
          | inl (e, absent) ↦ absent q i
          | inr (c, e, j, t) ↦ absurd (let unused' = rw e at unused in cc)
        ]

  of_problem :
      (s : Submission)
      → (s.problem_id == problem)
          || has_value (
              find_where
                (λ c. (c.problem_id == problem) && is_value s.contest_problem_id c.id)
                db.contest_problems)
        ≡ true
      → (s.problem_id == problem) ≡ true
  of_problem s t = elim (Bool-cases (s.problem_id == problem)) [
    | inl e ↦ e
    | inr n ↦ absurd (
        let (q, i, u) =
          found_one
            (λ (c : ContestProblem).
              (c.problem_id == problem) && is_value s.contest_problem_id c.id)
            db.contest_problems (rw n at t) in
        ground (arith, no_use q i))
  ]

  problem_rows : (d : Db) → OnlyJobs db d → (f : ℕ) → HoldsFile f db → IsKeptInProblem f d
  unfolding delete_problems_row IsKeptInProblem
  problem_rows d e f h = subst (IsKeptInProblem f) (sym e) (case h)
    where
      case :
          HoldsFile f db
          → IsKeptInProblem f (record db { jobs = d.jobs; next_job_id = d.next_job_id })
      case (inl (s, i, q)) =
          elim (kept_or_gone
            (λ r.
              (r.problem_id == problem)
              || has_value (
                  find_where (λ c. (c.problem_id == problem) && is_value r.contest_problem_id c.id)
                    db.contest_problems))
            db.submissions s i) [
              | inl k ↦ inl (inl (s, k, q))
              | inr t ↦ inr (inl (s, i, q, of_problem s t))
            ]
      case (inr (inl (p, i, q))) = elim (kept_or_gone (λ x. x.id == problem) db.problems p i) [
        | inl k ↦ inl (inr (inl (p, k, q)))
        | inr t ↦ inr (inr (p, i, q, t))
      ]
      case (inr (inr c)) = inl (inr (inr c))

  unfoldable pub problem_files : List ℕ
  problem_files = map (λ p. p.file_id) (keep (λ p. p.id == problem) db.problems)

  unfoldable pub problem_mid : Db
  problem_mid = insert_jobs now JobType.delete_internal_file problem_files db

  unfoldable pub problem_end : Db
  problem_end =
      insert_deletions now (keep (λ s. s.problem_id == problem) problem_mid.submissions) problem_mid

  pub problem-file :
      (f : ℕ)
      → HoldsFile f db
      → HoldsFile f (delete_problems_row problem problem_end)
        ⊎ HasNewJob db.next_job_id JobType.delete_internal_file f
            (delete_problems_row problem problem_end)
  unfolding delete_problems_row IsKeptInProblem problem_end problem_mid problem_files
      insert_deletions
  problem-file f h =
      let e = insert_jobs-OnlyJobs now JobType.delete_internal_file problem_files db in
      let rows = keep (λ (s : Submission). s.problem_id == problem) problem_mid.submissions in
      elim (problem_rows problem_end
        (OnlyJobs-trans db problem_mid problem_end e
          (insert_deletions-OnlyJobs now rows problem_mid))
        f h) [
          | inl k ↦ inl k
          | inr (inl (s, i, q, t)) ↦
              let same : problem_mid.submissions ≡ db.submissions =
                ap (λ (d : Db). d.submissions) e in
              let there : In s problem_mid.submissions = rw same i in
              let (j, k, x, l) = insert_deletions-In now rows problem_mid s (
                In-keep (λ (r : Submission). r.problem_id == problem) s problem_mid.submissions
                  there t) in
              let n = insert_jobs-next now JobType.delete_internal_file problem_files db in
              inr (rw (← q) (j, k, x, omega arith))
          | inr (inr (p, i, q, t)) ↦
              let (j, k, x, l) =
                insert_jobs-In now JobType.delete_internal_file problem_files db p.file_id (
                  In-map (λ (y : Problem). y.file_id) p _
                    (In-keep (λ (y : Problem). y.id == problem) p db.problems i t)) in
              inr (
                rw (← q) (
                  j,
                  insert_jobs-keeps now JobType.delete_internal_file
                      (map (λ (r : Submission). r.file_id) rows) problem_mid j k,
                  x,
                  l,
                ))
        ]
