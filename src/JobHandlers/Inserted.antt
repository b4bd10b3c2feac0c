-- ===== src/JobHandlers/Inserted.antt =====
-- The statements that insert jobs: each row has its job, and nothing else changes.
use sim_project.Common.{
  ◌<◌, ◌==◌, ℕ, suc, ◌≡◌, ◌≤◌, refl, ap, ◌∙◌, Bool, false, if◌then◌else◌, List, [], ◌∷◌, map, some,
  In, In-map, inl, inr, arith, Bytes,
}
use sim_project.Sql.{update_where}
use sim_project.Db.{Db}
use sim_project.Schema.Submissions.{Submission}
use sim_project.Schema.Jobs.{Job, JobType, JobStatus}
use sim_project.JobHandlers.{
  mark_job_as_done, set_job_status_and_log, insert_job, insert_jobs, insert_deletions,
}

-- The second database differs in its jobs.
abbrev pub OnlyJobs : Db → Db → Type 0
OnlyJobs db db' = db' ≡ record db { jobs = db'.jobs; next_job_id = db'.next_job_id }

pub OnlyJobs-trans : (a b c : Db) → OnlyJobs a b → OnlyJobs b c → OnlyJobs a c
OnlyJobs-trans a b c h k =
    k ∙ ap (λ (d : Db). record d { jobs = c.jobs; next_job_id = c.next_job_id }) h

-- A pending job of the type for the id.
abbrev pub IsJobFor : JobType → ℕ → Job → Type 0
IsJobFor type aux_id j = (j.type ≡ type) × (j.aux_id ≡ some aux_id) × (j.status ≡ JobStatus.pending)

suc_below : (m n : ℕ) → suc m ≤ n → m ≤ n
suc_below m n h = omega arith

module _ (now : Bytes) (type : JobType) where
  pub insert_jobs-OnlyJobs : (ids : List ℕ) (db : Db) → OnlyJobs db (insert_jobs now type ids db)
  unfolding insert_jobs insert_job
  insert_jobs-OnlyJobs [] db = refl
  insert_jobs-OnlyJobs (n ∷ ids) db =
      OnlyJobs-trans db (insert_job now type n db)
        (insert_jobs now type ids (insert_job now type n db)) refl
        (insert_jobs-OnlyJobs ids (insert_job now type n db))

  -- The jobs before stay.
  pub insert_jobs-keeps :
      (ids : List ℕ) (db : Db) (j : Job) → In j db.jobs → In j (insert_jobs now type ids db).jobs
  unfolding insert_jobs insert_job
  insert_jobs-keeps [] db j i = i
  insert_jobs-keeps (n ∷ ids) db j i = insert_jobs-keeps ids (insert_job now type n db) j (inr i)

  pub insert_jobs-next :
      (ids : List ℕ) (db : Db) → db.next_job_id ≤ (insert_jobs now type ids db).next_job_id
  unfolding insert_jobs insert_job
  insert_jobs-next [] db = omega arith
  insert_jobs-next (n ∷ ids) db =
      suc_below db.next_job_id _ (insert_jobs-next ids (insert_job now type n db))

  -- Each row has a new job.
  pub insert_jobs-In :
      (ids : List ℕ) (db : Db) (n : ℕ)
      → In n ids
      → (j : Job) × In j (insert_jobs now type ids db).jobs
        × IsJobFor type n j
        × (db.next_job_id ≤ j.id)
  unfolding insert_jobs insert_job
  insert_jobs-In [] db n i = elim i [ ]
  insert_jobs-In (m ∷ ids) db n (inl e) = rw e (
    _,
    insert_jobs-keeps ids (insert_job now type m db) _ (inl refl),
    (refl, refl, refl),
    omega arith,
  )
  insert_jobs-In (m ∷ ids) db n (inr i) =
      let (j, k, d, l) = insert_jobs-In ids (insert_job now type m db) n i in
      (j, k, d, suc_below db.next_job_id j.id l)

pub insert_deletions-In :
    (now : Bytes) (rows : List Submission) (db : Db) (s : Submission)
    → In s rows
    → (j : Job) × In j (insert_deletions now rows db).jobs
      × IsJobFor JobType.delete_internal_file s.file_id j
      × (db.next_job_id ≤ j.id)
unfolding insert_deletions
insert_deletions-In now rows db s i =
    insert_jobs-In now JobType.delete_internal_file (map (λ r. r.file_id) rows) db s.file_id
      (In-map (λ r. r.file_id) s rows i)

pub insert_deletions-OnlyJobs :
    (now : Bytes) (rows : List Submission) (db : Db) → OnlyJobs db (insert_deletions now rows db)
unfolding insert_deletions
insert_deletions-OnlyJobs now rows db =
    insert_jobs-OnlyJobs now JobType.delete_internal_file (map (λ r. r.file_id) rows) db

-- An UPDATE of other rows.
pub update_where-In :
    {A : Type 0} (test : A → Bool) (change : A → A) (a : A) (xs : List A)
    → test a ≡ false
    → In a xs
    → In a (update_where test change xs)
unfolding update_where
update_where-In test change a xs n i =
    let image = In-map (λ r. if test r then change r else r) a xs i in rw n at image

-- A job of the type for the id that was inserted since the next id was `first`.
abbrev pub HasNewJob : ℕ → JobType → ℕ → Db → Type 0
HasNewJob first type n db = (j : Job) × In j db.jobs × IsJobFor type n j × (first ≤ j.id)

abbrev pub HasJob : JobType → ℕ → Db → Type 0
HasJob type n db = (j : Job) × In j db.jobs × IsJobFor type n j

-- An older job that is done is another one.
pub done-HasJob :
    (logs : Bytes) (job_id first : ℕ) (type : JobType) (n : ℕ) (db : Db)
    → job_id < first
    → HasNewJob first type n db
    → HasJob type n (mark_job_as_done logs job_id db)
unfolding mark_job_as_done set_job_status_and_log
done-HasJob logs job_id first type n db old (j, i, d, l) =
    (j, update_where-In (λ u. u.id == job_id) _ j db.jobs (ground arith) i, d)
