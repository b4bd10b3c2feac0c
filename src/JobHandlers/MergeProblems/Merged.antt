-- ===== src/JobHandlers/MergeProblems/Merged.antt =====
-- After a merge of two problems all marks of final submissions are right.
use sim_project.Common.{
  ℕ, ◌≡◌, refl, ap, ◌∙◌, Bool, false, ◌==◌, List, Option, none, some, ok, In, Bytes, subst,
}
use sim_project.Sql.{find_where}
use sim_project.Db.{Db, delete_problems_row}
use sim_project.Schema.Submissions.{Submission}
use sim_project.Schema.Contests.{ContestProblem}
use sim_project.Schema.Problems.{Problem}
use sim_project.Schema.Jobs.{MergeProblemsJob}
use sim_project.Finals.Update.{HasKeys}
use sim_project.Finals.Everywhere.{FinalsAreRight}
use sim_project.Finals.ToUpdate.{update_finals}
use sim_project.Finals.Pending.{AllUpdated}
use sim_project.JobHandlers.{mark_job_as_done, mark_job_as_failed, set_job_status_and_log}
use sim_project.JobHandlers.MergeProblems.{
  transfer_contest_problems, delete_solutions, select_finals_to_update, schedule_rejudges,
  transfer_submissions, transfer_tags, merge_existing, merge_found, merge_problems,
}
use sim_project.JobHandlers.MergeProblems.Marks.{nothing_left}
use sim_project.JobHandlers.MergeProblems.Sound.{
  IsMergeable, IsSound, a, a-IsSound, delete_solutions-IsSound, schedule_rejudges-OnlyJobs, updated,
}
use sim_project.JobHandlers.MergeProblems.Deleted.{
  IsUnused, transfer_contest_problems-IsUnused, delete_solutions-contest_problems, unmarked-In,
  deleted-submissions, deleted-contest_problems, same_tables,
}

module _ (now : Bytes) (donor target : ℕ) (rejudge : Bool) (db : Db)
    (h : IsMergeable donor target db) where
  -- The database before the submissions are transferred.
  unfoldable pub mid : Db
  mid = delete_solutions now donor (transfer_contest_problems donor target db)

  mid-IsSound : IsSound mid
  unfolding mid a
  mid-IsSound =
      delete_solutions-IsSound now donor (transfer_contest_problems donor target db)
        (a-IsSound donor target db h)

  -- The loop of updates ends well.
  pub looped :
      (db' : Db) × (update_finals
          (select_finals_to_update donor target mid)
          (transfer_submissions donor target (schedule_rejudges now rejudge donor mid))
        ≡ ok db')
      × AllUpdated (transfer_submissions donor target (schedule_rejudges now rejudge donor mid)) db'
  looped = updated now donor target rejudge mid h.two_problems mid-IsSound

  transferred : Db
  transferred = transfer_submissions donor target (schedule_rejudges now rejudge donor mid)

  looped-contest_problems :
      (looped.0).contest_problems ≡ (transfer_contest_problems donor target db).contest_problems
  unfolding mid transfer_submissions
  looped-contest_problems =
      ap (λ (d : Db). d.contest_problems) looped.2.same.others
      ∙ ap (λ (d : Db). d.contest_problems) (schedule_rejudges-OnlyJobs now rejudge donor mid)
      ∙ delete_solutions-contest_problems now donor (transfer_contest_problems donor target db)

  pub looped-IsUnused : IsUnused donor looped.0
  looped-IsUnused q i =
      transfer_contest_problems-IsUnused donor target db h.two_problems q
        (subst (λ (l : List ContestProblem). In q l) looped-contest_problems i)

  pub looped-empty :
      (r : Submission) → In r (looped.0).submissions → (r.problem_id == donor) ≡ false
  unfolding transferred transfer_submissions
  looped-empty r i =
      let (r', j, e) =
        unmarked-In r (looped.0).submissions transferred.submissions looped.2.same.rows i in
      let same : r.problem_id ≡ r'.problem_id = ap (λ (s : Submission). s.problem_id) e in
      rw same
        (nothing_left donor target (schedule_rejudges now rejudge donor mid) h.two_problems r' j)

  abbrev pub finished : Bytes → ℕ → Db → Db
  finished logs job_id d =
      mark_job_as_done logs job_id (delete_problems_row donor (transfer_tags donor target d))

  pub merged :
      (logs : Bytes) (job_id : ℕ)
      → merge_existing logs now job_id donor target rejudge db ≡ ok (finished logs job_id looped.0)
  unfolding merge_existing mid
  merged logs job_id = rw looped.1 refl

  finished-right :
      (logs : Bytes) (job_id : ℕ)
      → FinalsAreRight (finished logs job_id looped.0) × HasKeys (finished logs job_id looped.0)
  unfolding transfer_tags mark_job_as_done set_job_status_and_log
  finished-right logs job_id =
      let tagged = transfer_tags donor target looped.0 in
      same_tables looped.0 (finished logs job_id looped.0)
        (deleted-submissions donor tagged looped-IsUnused looped-empty)
        (deleted-contest_problems donor tagged looped-IsUnused looped-empty) looped.2.right
        looped.2.keys

failed-right :
    (logs : Bytes) (job_id : ℕ) (db : Db)
    → FinalsAreRight db
    → HasKeys db
    → FinalsAreRight (mark_job_as_failed logs job_id db)
      × HasKeys (mark_job_as_failed logs job_id db)
unfolding mark_job_as_failed set_job_status_and_log
failed-right logs job_id db = same_tables db _ refl refl

found-right :
    (logs now : Bytes) (job_id donor target : ℕ) (d t : Option Problem) (rejudge : Bool) (db : Db)
    → IsMergeable donor target db
    → (db' : Db) × (merge_found logs now job_id donor target d t rejudge db ≡ ok db')
      × FinalsAreRight db'
      × HasKeys db'
unfolding merge_found
found-right logs now job_id donor target none t rejudge db h =
    let (r, k) = failed-right logs job_id db h.right h.keys in (_, refl, r, k)
found-right logs now job_id donor target (some d) none rejudge db h =
    let (r, k) = failed-right logs job_id db h.right h.keys in (_, refl, r, k)
found-right logs now job_id donor target (some d) (some t) rejudge db h =
    let (r, k) = finished-right now donor target rejudge db h logs job_id in
    (_, merged now donor target rejudge db h logs job_id, r, k)

-- Let two different problems be merged by a job that has its row of `merge_problems_jobs`, let the ids
-- of submissions and of contest problems be distinct, let the contest problems of the submissions be
-- in their table, let no problem solution be a candidate for a final, and let all marks of final
-- submissions be right. Then `merge_problems` does not throw, and all marks are right afterwards, also
-- those in the problem that got the submissions.
pub merge_problems-FinalsAreRight :
    (logs now : Bytes) (job_id donor_problem_id target_problem_id : ℕ) (job : MergeProblemsJob)
    (db : Db)
    → find_where (λ (m : MergeProblemsJob). m.id == job_id) db.merge_problems_jobs ≡ some job
    → IsMergeable donor_problem_id target_problem_id db
    → (db' : Db) × (merge_problems logs now job_id donor_problem_id target_problem_id db ≡ ok db')
      × FinalsAreRight db'
      × HasKeys db'
unfolding merge_problems
merge_problems-FinalsAreRight logs now job_id donor target job db e h =
    let (db', p, r, k) =
      found-right logs now job_id donor target (find_where (λ p. p.id == donor) db.problems)
        (find_where (λ p. p.id == target) db.problems) job.rejudge_transferred_submissions db h in
    (db', rw e p, r, k)
