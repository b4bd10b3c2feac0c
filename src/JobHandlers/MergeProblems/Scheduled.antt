-- ===== src/JobHandlers/MergeProblems/Scheduled.antt =====
-- A merge of two problems leaves no file behind, and rejudges what it is told to.
use sim_project.Common.{
  ℕ, ◌≡◌, ◌<◌, refl, sym, ap, ◌∙◌, Bool, true, false, ◌==◌, if◌then◌else◌, Bool-cases, In-map, some,
  ok, In, ◌⊎◌, inl, inr, arith, Bytes,
}
use sim_project.Sql.{find_where, update_where}
use sim_project.Db.{Db, delete_problems_row}
use sim_project.Schema.Submissions.{Submission}
use sim_project.Schema.Problems.{Problem}
use sim_project.Schema.Jobs.{JobType, MergeProblemsJob}
use sim_project.JobHandlers.{mark_job_as_done, set_job_status_and_log}
use sim_project.JobHandlers.Inserted.{HasNewJob, HasJob, update_where-In}
use sim_project.JobHandlers.MergeProblems.{
  is_solution_of, is_problem_solution, put_in, transfer_submissions, transfer_tags, merge_found,
  merge_problems,
}
use sim_project.JobHandlers.MergeProblems.Sound.{IsMergeable, schedule_rejudges-OnlyJobs}
use sim_project.JobHandlers.MergeProblems.Deleted.{deleted-submissions, unmarked-In}
use sim_project.JobHandlers.MergeProblems.Merged.{
  mid, looped, looped-IsUnused, looped-empty, finished, merged,
}
use sim_project.JobHandlers.MergeProblems.Jobs.{
  mid', problem_job, solution_job, still_new, kept_solution, rejudge_job,
}

-- What a submission comes to: its row is there, or its file is to be deleted.
abbrev pub IsAccountedFor : Submission → Db → Type 0
IsAccountedFor s db =
    ((r : Submission) × In r db.submissions × (r.id ≡ s.id) × (r.file_id ≡ s.file_id))
    ⊎ HasJob JobType.delete_internal_file s.file_id db

pub record IsCarriedOut (donor : ℕ) (p : Problem) (rejudge : Bool) (db db' : Db) : Type 0 where
  pub problem_file : HasJob JobType.delete_internal_file p.file_id db'
  pub submissions : (s : Submission) → In s db.submissions → IsAccountedFor s db'
  pub rejudged :
      rejudge ≡ true
      → (s : Submission) → In s db.submissions
      → s.problem_id ≡ donor
      → is_problem_solution s.type ≡ false
      → HasJob JobType.rejudge_submission s.id db'

module _ (now : Bytes) (donor target : ℕ) (rejudge : Bool) (db : Db)
    (h : IsMergeable donor target db) (p : Problem)
    (found : find_where (λ (x : Problem). x.id == donor) db.problems ≡ some p) where
  looped-same :
      (looped now donor target rejudge db h).0
      ≡ record (transfer_submissions donor target (mid' now donor target rejudge db h p found)) {
        submissions = (looped now donor target rejudge db h).0.submissions;
      }
  unfolding mid'
  looped-same = (looped now donor target rejudge db h).2.same.others

  end : Bytes → ℕ → Db
  end logs job_id =
      finished now donor target rejudge db h logs job_id (looped now donor target rejudge db h).0

  -- The job itself changes, the new ones do not.
  still_there :
      (logs : Bytes) (job_id : ℕ)
      → job_id < db.next_job_id
      → (type : JobType) (n : ℕ)
      → HasNewJob db.next_job_id type n (mid' now donor target rejudge db h p found)
      → HasJob type n (end logs job_id)
  unfolding end transfer_tags transfer_submissions delete_problems_row mark_job_as_done
      set_job_status_and_log
  still_there logs job_id old type n (j, i, d, l) =
      let jobs = ap (λ (x : Db). x.jobs) looped-same in
      (j, update_where-In (λ u. u.id == job_id) _ j _ (ground arith) (rw jobs i), d)

  -- A submission that is no solution.
  moved_there :
      (logs : Bytes) (job_id : ℕ) (s : Submission)
      → In s db.submissions
      → is_solution_of donor s ≡ false
      → (r : Submission) × In r (end logs job_id).submissions
        × (r.id ≡ s.id)
        × (r.file_id ≡ s.file_id)
  unfolding end mid' transfer_tags transfer_submissions update_where mark_job_as_done
      set_job_status_and_log
  moved_there logs job_id s i f =
      let k : In s (mid' now donor target rejudge db h p found).submissions =
        rw
          (ap (λ (d : Db). d.submissions)
            (schedule_rejudges-OnlyJobs now rejudge donor (mid now donor target rejudge db h)))
          (kept_solution now donor target rejudge db h p found s i f) in
      let x = if s.problem_id == donor then put_in target s else s in
      let m =
        In-map (λ r. if r.problem_id == donor then put_in target r else r) s
          (mid' now donor target rejudge db h p found).submissions k in
      let rows = (looped now donor target rejudge db h).2.same.rows in
      let (r, there, e) =
        unmarked-In x _ (looped now donor target rejudge db h).0.submissions (sym rows) m in
      let tagged = transfer_tags donor target (looped now donor target rejudge db h).0 in
      let same =
        deleted-submissions donor tagged (looped-IsUnused now donor target rejudge db h)
          (looped-empty now donor target rejudge db h) in
      (
        r,
        rw same there,
        sym (ap (λ (u : Submission). u.id) e) ∙ (keeps (s.problem_id == donor)).0,
        sym (ap (λ (u : Submission). u.file_id) e) ∙ (keeps (s.problem_id == donor)).1,
      )
    where
      keeps :
          (t : Bool)
          → ((if t then put_in target s else s).id ≡ s.id)
            × ((if t then put_in target s else s).file_id ≡ s.file_id)
      keeps true = (refl, refl)
      keeps false = (refl, refl)

  end-IsCarriedOut :
      (logs : Bytes) (job_id : ℕ)
      → job_id < db.next_job_id
      → IsCarriedOut donor p rejudge db (end logs job_id)
  end-IsCarriedOut logs job_id old = record {
    problem_file = still_there logs job_id old JobType.delete_internal_file p.file_id (
        still_new now donor target rejudge db h p found JobType.delete_internal_file p.file_id
          (problem_job now donor target rejudge db h p found));
    submissions = λ s i. elim (Bool-cases (is_solution_of donor s)) [
      | inl t ↦ inr (
          still_there logs job_id old JobType.delete_internal_file s.file_id (
            still_new now donor target rejudge db h p found JobType.delete_internal_file s.file_id
              (solution_job now donor target rejudge db h p found s i t)))
      | inr f ↦ inl (moved_there logs job_id s i f)
    ];
    rejudged = λ t s i e f.
        still_there logs job_id old JobType.rejudge_submission s.id
          (rejudge_job now donor target rejudge db h p found t s i e f);
  }

-- Let what `merge_problems-FinalsAreRight` asks for hold, let both problems be in their table, and let
-- the id of the job be one that was given already. After `merge_problems` each submission that was
-- there is there with its file, or a pending job will delete its file; the file of the donor problem
-- has a pending job that deletes it; and if the job says so, each submission of the donor problem that
-- is no solution has a pending job that rejudges it.
pub merge_problems-IsCarriedOut :
    (logs now : Bytes) (job_id donor_problem_id target_problem_id : ℕ) (job : MergeProblemsJob)
    (p t : Problem) (db : Db)
    → find_where (λ (m : MergeProblemsJob). m.id == job_id) db.merge_problems_jobs ≡ some job
    → find_where (λ (x : Problem). x.id == donor_problem_id) db.problems ≡ some p
    → find_where (λ (x : Problem). x.id == target_problem_id) db.problems ≡ some t
    → IsMergeable donor_problem_id target_problem_id db
    → job_id < db.next_job_id
    → (db' : Db) × (merge_problems logs now job_id donor_problem_id target_problem_id db ≡ ok db')
      × IsCarriedOut donor_problem_id p job.rejudge_transferred_submissions db db'
unfolding merge_problems merge_found end
merge_problems-IsCarriedOut logs now job_id donor target job p t db e f g h old = (
  _,
  rw (e, f, g) (merged now donor target job.rejudge_transferred_submissions db h logs job_id),
  end-IsCarriedOut now donor target job.rejudge_transferred_submissions db h p f logs job_id old,
)
