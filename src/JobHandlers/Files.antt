-- ===== src/JobHandlers/Files.antt =====
-- No file is left behind when a problem, a contest or a contest round is deleted.
pub mod Contests
pub mod Problems
pub mod Kept
use sim_project.Common.{
  ℕ, ◌≡◌, ◌<◌, refl, Bool, true, false, not, ◌==◌, ◌&&◌, ◌||◌, is_value, is_value-eq, has_value,
  Bool-cases, In-keep, List, some, In, ◌⊎◌, inl, inr, arith, Bytes,
}
use sim_project.Sql.{find_where, delete_where}
use sim_project.Sql.Find.{find_where-cases}
use sim_project.Db.{Db, in_contest_problem, in_contest_round, goes_with_contest}
use sim_project.Schema.Submissions.{Submission}
use sim_project.Schema.Problems.{Problem}
use sim_project.Schema.Contests.{ContestFile, ContestProblem, ContestRound}
use sim_project.Schema.Jobs.{JobType}
use sim_project.JobHandlers.{mark_job_as_done, mark_job_as_cancelled, set_job_status_and_log}
use sim_project.JobHandlers.Inserted.{HasNewJob, HasJob, done-HasJob}

-- A row that refers to the file.
abbrev pub HoldsFile : ℕ → Db → Type 0
HoldsFile file_id db =
    ((s : Submission) × In s db.submissions × (s.file_id ≡ file_id))
    ⊎ ((p : Problem) × In p db.problems × (p.file_id ≡ file_id))
    ⊎ ((f : ContestFile) × In f db.contest_files × (f.file_id ≡ file_id))

-- The columns of a submission, and of a contest problem, that repeat what the contest problem and the
-- round say.
pub record IsConsistent (db : Db) : Type 0 where
  pub problem_round :
      (s : Submission) (q : ContestProblem)
      → In s db.submissions
      → In q db.contest_problems
      → s.contest_problem_id ≡ some q.id
      → s.contest_round_id ≡ some q.contest_round_id
  pub problem_contest :
      (s : Submission) (q : ContestProblem)
      → In s db.submissions
      → In q db.contest_problems
      → s.contest_problem_id ≡ some q.id
      → s.contest_id ≡ some q.contest_id
  pub round_contest :
      (s : Submission) (r : ContestRound)
      → In s db.submissions
      → In r db.contest_rounds
      → s.contest_round_id ≡ some r.id
      → s.contest_id ≡ some r.contest_id
  pub contest_of_round :
      (q : ContestProblem) (r : ContestRound)
      → In q db.contest_problems
      → In r db.contest_rounds
      → q.contest_round_id ≡ r.id
      → q.contest_id ≡ r.contest_id

pub found_one :
    {A : Type 0} (test : A → Bool) (xs : List A)
    → has_value (find_where test xs) ≡ true
    → (a : A) × In a xs × (test a ≡ true)
found_one test xs h = elim (find_where-cases test xs) [
  | inl (e, n) ↦ absurd (let h' = rw e at h in cc)
  | inr (a, e, i, t) ↦ (a, i, t)
]

-- What a DELETE takes, or not.
pub kept_or_gone :
    {A : Type 0} (gone : A → Bool) (xs : List A) (a : A)
    → In a xs
    → In a (delete_where gone xs) ⊎ (gone a ≡ true)
unfolding delete_where
kept_or_gone gone xs a i = elim (Bool-cases (gone a)) [
  | inl t ↦ inr t
  | inr n ↦ inl (In-keep (λ x. not (gone x)) a xs i (rw n refl))
]

-- What goes with a contest round is of that round, and with a contest of that contest.
module _ (db : Db) (consistent : IsConsistent db) (s : Submission) (i : In s db.submissions) where
  pub of_round :
      (round : ℕ)
      → is_value s.contest_round_id round
          || in_contest_problem (λ c. c.contest_round_id == round) s.contest_problem_id db
        ≡ true
      → is_value s.contest_round_id round ≡ true
  of_round round t = elim (Bool-cases (is_value s.contest_round_id round)) [
    | inl e ↦ e
    | inr n ↦
        let t' = rw n at t in
        let (q, j, u) =
          found_one
            (λ (c : ContestProblem).
              (c.contest_round_id == round) && is_value s.contest_problem_id c.id)
            db.contest_problems t' in
        let e =
          consistent.problem_round s q i j (is_value-eq s.contest_problem_id q.id (ground arith)) in
        rw e (ground arith)
  ]

  of_contest_by_round :
      (contest : ℕ)
      → in_contest_round (λ r. r.contest_id == contest) s.contest_round_id db ≡ true
      → is_value s.contest_id contest ≡ true
  of_contest_by_round contest t =
      let (r, j, u) =
        found_one
          (λ (x : ContestRound). (x.contest_id == contest) && is_value s.contest_round_id x.id)
          db.contest_rounds t in
      let e =
        consistent.round_contest s r i j (is_value-eq s.contest_round_id r.id (ground arith)) in
      rw e (ground arith)

  problem_of_contest :
      (contest : ℕ) (q : ContestProblem)
      → In q db.contest_problems
      → goes_with_contest contest db q ≡ true
      → (q.contest_id == contest) ≡ true
  problem_of_contest contest q j t = elim (Bool-cases (q.contest_id == contest)) [
    | inl e ↦ e
    | inr n ↦
        let t' = rw n at t in
        let (r, k, u) =
          found_one
            (λ (x : ContestRound).
              (x.contest_id == contest) && is_value (some q.contest_round_id) x.id)
            db.contest_rounds t' in
        let e = consistent.contest_of_round q r j k (ground arith) in rw e (ground arith)
  ]

  of_contest_by_problem :
      (contest : ℕ)
      → in_contest_problem (goes_with_contest contest db) s.contest_problem_id db ≡ true
      → is_value s.contest_id contest ≡ true
  of_contest_by_problem contest t =
      let (q, j, u) =
        found_one
          (λ (c : ContestProblem).
            goes_with_contest contest db c && is_value s.contest_problem_id c.id)
          db.contest_problems t in
      let (a, b) = both_true _ _ u in
      let e = consistent.problem_contest s q i j (is_value-eq s.contest_problem_id q.id b) in
      rw e (problem_of_contest contest q j a)
    where
      both_true : (a b : Bool) → a && b ≡ true → (a ≡ true) × (b ≡ true)
      both_true true b h = (refl, h)
      both_true false b h = cc

  pub of_contest :
      (contest : ℕ)
      → is_value s.contest_id contest
          || (in_contest_round (λ r. r.contest_id == contest) s.contest_round_id db
              || in_contest_problem (goes_with_contest contest db) s.contest_problem_id db)
        ≡ true
      → is_value s.contest_id contest ≡ true
  of_contest contest t = elim (Bool-cases (is_value s.contest_id contest)) [
    | inl e ↦ e
    | inr n ↦
        let t' = rw n at t in
        elim (Bool-cases (in_contest_round (λ r. r.contest_id == contest) s.contest_round_id db)) [
          | inl r ↦ of_contest_by_round contest r
          | inr m ↦ of_contest_by_problem contest (rw m at t')
        ]
  ]

-- The file has a row that refers to it, or a pending job that deletes it.
abbrev pub IsKeptOrScheduled : ℕ → Db → Type 0
IsKeptOrScheduled file_id db = HoldsFile file_id db ⊎ HasJob JobType.delete_internal_file file_id db

pub cancelled-kept :
    (logs : Bytes) (job_id : ℕ) (db : Db) (f : ℕ)
    → HoldsFile f db
    → IsKeptOrScheduled f (mark_job_as_cancelled logs job_id db)
unfolding mark_job_as_cancelled set_job_status_and_log
cancelled-kept logs job_id db f h = inl h

-- The last statement, after a DELETE.
pub ended :
    (logs : Bytes) (job_id first : ℕ) (f : ℕ) (d : Db)
    → job_id < first
    → HoldsFile f d ⊎ HasNewJob first JobType.delete_internal_file f d
    → IsKeptOrScheduled f (mark_job_as_done logs job_id d)
unfolding mark_job_as_done set_job_status_and_log
ended logs job_id first f d old (inl h) = inl h
ended logs job_id first f d old (inr j) =
    inr (done-HasJob logs job_id first JobType.delete_internal_file f d old j)
