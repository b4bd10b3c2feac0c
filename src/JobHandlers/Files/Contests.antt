-- ===== src/JobHandlers/Files/Contests.antt =====
-- The files of what goes with a contest or a contest round.
use sim_project.Common.{
  ℕ, ◌≡◌, sym, ap, Bool, true, ◌==◌, ◌||◌, is_value, keep, In-keep, In-map, map, In, ◌⊎◌, inl, inr,
  arith, Bytes, subst,
}
use sim_project.Db.{
  Db, in_contest_problem, in_contest_round, goes_with_contest, delete_contests_row,
  delete_contest_rounds_row,
}
use sim_project.Schema.Submissions.{Submission}
use sim_project.Schema.Contests.{ContestFile}
use sim_project.Schema.Jobs.{JobType}
use sim_project.JobHandlers.{insert_jobs, insert_deletions}
use sim_project.JobHandlers.Inserted.{
  OnlyJobs, OnlyJobs-trans, HasNewJob, insert_jobs-In, insert_jobs-keeps, insert_jobs-next,
  insert_jobs-OnlyJobs, insert_deletions-In, insert_deletions-OnlyJobs,
}
use sim_project.JobHandlers.Files.{HoldsFile, IsConsistent, kept_or_gone, of_round, of_contest}

-- A contest round: the rows that go are submissions of the round.
module _ (now : Bytes) (db : Db) (round : ℕ) (consistent : IsConsistent db) where
  abbrev pub of_this_round : Submission → Bool
  of_this_round s = is_value s.contest_round_id round

  IsKeptInRound : ℕ → Db → Type 0
  IsKeptInRound f d =
      HoldsFile f (delete_contest_rounds_row round d)
      ⊎ ((s : Submission) × In s db.submissions × (s.file_id ≡ f) × (of_this_round s ≡ true))

  round_rows : (d : Db) → OnlyJobs db d → (f : ℕ) → HoldsFile f db → IsKeptInRound f d
  unfolding delete_contest_rounds_row IsKeptInRound
  round_rows d e f h = subst (IsKeptInRound f) (sym e) (case h)
    where
      case :
          HoldsFile f db
          → IsKeptInRound f (record db { jobs = d.jobs; next_job_id = d.next_job_id })
      case (inl (s, i, q)) =
          elim (kept_or_gone
            (λ r.
              is_value r.contest_round_id round
              || in_contest_problem (λ c. c.contest_round_id == round) r.contest_problem_id db)
            db.submissions s i) [
              | inl k ↦ inl (inl (s, k, q))
              | inr t ↦ inr (s, i, q, of_round db consistent s i round t)
            ]
      case (inr (inl p)) = inl (inr (inl p))
      case (inr (inr c)) = inl (inr (inr c))

  pub round-file :
      (f : ℕ)
      → HoldsFile f db
      → HoldsFile f (
          delete_contest_rounds_row round
            (insert_deletions now (keep of_this_round db.submissions) db))
        ⊎ HasNewJob db.next_job_id JobType.delete_internal_file f (
            delete_contest_rounds_row round
              (insert_deletions now (keep of_this_round db.submissions) db))
  unfolding delete_contest_rounds_row IsKeptInRound
  round-file f h =
      let rows = keep of_this_round db.submissions in
      elim (round_rows (insert_deletions now rows db) (insert_deletions-OnlyJobs now rows db) f h) [
        | inl k ↦ inl k
        | inr (s, i, q, t) ↦ inr (
            subst
              (λ (n : ℕ).
                HasNewJob db.next_job_id JobType.delete_internal_file n
                  (insert_deletions now rows db))
              q (insert_deletions-In now rows db s (In-keep of_this_round s db.submissions i t)))
      ]

-- A contest: the rows that go are submissions and files of the contest.
module _ (now : Bytes) (db : Db) (contest : ℕ) (consistent : IsConsistent db) where
  abbrev pub of_this_contest : Submission → Bool
  of_this_contest s = is_value s.contest_id contest

  IsKeptInContest : ℕ → Db → Type 0
  IsKeptInContest f d =
      HoldsFile f (delete_contests_row contest d)
      ⊎ ((s : Submission) × In s db.submissions × (s.file_id ≡ f) × (of_this_contest s ≡ true))
      ⊎ ((c : ContestFile) × In c db.contest_files
          × (c.file_id ≡ f)
          × ((c.contest_id == contest) ≡ true))

  contest_rows : (d : Db) → OnlyJobs db d → (f : ℕ) → HoldsFile f db → IsKeptInContest f d
  unfolding delete_contests_row IsKeptInContest
  contest_rows d e f h = subst (IsKeptInContest f) (sym e) (case h)
    where
      case :
          HoldsFile f db
          → IsKeptInContest f (record db { jobs = d.jobs; next_job_id = d.next_job_id })
      case (inl (s, i, q)) =
          elim (kept_or_gone
            (λ r.
              is_value r.contest_id contest
              || (in_contest_round (λ x. x.contest_id == contest) r.contest_round_id db
                  || in_contest_problem (goes_with_contest contest db) r.contest_problem_id db))
            db.submissions s i) [
              | inl k ↦ inl (inl (s, k, q))
              | inr t ↦ inr (inl (s, i, q, of_contest db consistent s i contest t))
            ]
      case (inr (inl p)) = inl (inr (inl p))
      case (inr (inr (c, i, q))) =
          elim (kept_or_gone (λ x. x.contest_id == contest) db.contest_files c i) [
            | inl k ↦ inl (inr (inr (c, k, q)))
            | inr t ↦ inr (inr (c, i, q, t))
          ]

  unfoldable pub contest_end : Db
  contest_end =
      let db' = insert_deletions now (keep of_this_contest db.submissions) db in
      insert_jobs now JobType.delete_internal_file
        (map (λ f. f.file_id) (keep (λ f. f.contest_id == contest) db'.contest_files)) db'

  pub contest-file :
      (f : ℕ)
      → HoldsFile f db
      → HoldsFile f (delete_contests_row contest contest_end)
        ⊎ HasNewJob db.next_job_id JobType.delete_internal_file f
            (delete_contests_row contest contest_end)
  unfolding delete_contests_row IsKeptInContest contest_end insert_deletions
  contest-file f h =
      let rows = keep of_this_contest db.submissions in
      let db' = insert_deletions now rows db in
      let e = insert_deletions-OnlyJobs now rows db in
      let files =
        map (λ (x : ContestFile). x.file_id)
          (keep (λ (x : ContestFile). x.contest_id == contest) db'.contest_files) in
      elim (contest_rows contest_end
        (OnlyJobs-trans db db' contest_end e
          (insert_jobs-OnlyJobs now JobType.delete_internal_file files db'))
        f h) [
          | inl k ↦ inl k
          | inr (inl (s, i, q, t)) ↦
              let (j, k, x, l) =
                insert_deletions-In now rows db s (In-keep of_this_contest s db.submissions i t) in
              inr (
                rw (← q)
                  (j, insert_jobs-keeps now JobType.delete_internal_file files db' j k, x, l))
          | inr (inr (c, i, q, t)) ↦
              let same : db'.contest_files ≡ db.contest_files =
                ap (λ (d : Db). d.contest_files) e in
              let there : In c db'.contest_files = rw same i in
              let (j, k, x, l) =
                insert_jobs-In now JobType.delete_internal_file files db' c.file_id (
                  In-map (λ (y : ContestFile). y.file_id) c _
                    (In-keep (λ (y : ContestFile). y.contest_id == contest) c db'.contest_files
                      there t)) in
              let n =
                insert_jobs-next now JobType.delete_internal_file
                  (map (λ (r : Submission). r.file_id) rows) db in
              inr (rw (← q) (j, k, x, omega arith))
        ]
