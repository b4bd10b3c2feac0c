-- ===== src/JobHandlers/Files/Kept.antt =====
-- The three handlers leave no file behind.
use sim_project.Common.{ℕ, ◌<◌, ◌==◌, has_value, Bool-cases, inl, inr, Bytes}
use sim_project.Sql.{find_where}
use sim_project.Db.{Db}
use sim_project.Schema.Problems.{Problem}
use sim_project.Schema.Contests.{ContestProblem}
use sim_project.JobHandlers.Deletions.{
  delete_existing_problem, delete_problem, delete_existing_contest, delete_contest,
  contest_round_exists, delete_contest_round,
}
use sim_project.JobHandlers.Files.{
  HoldsFile, IsConsistent, IsKeptOrScheduled, cancelled-kept, ended,
}
use sim_project.JobHandlers.Files.Contests.{round-file, contest-file, contest_end}
use sim_project.JobHandlers.Files.Problems.{problem-file, problem_files, problem_mid, problem_end}

delete_problem-file :
    (logs now : Bytes) (job_id problem_id : ℕ) (db : Db)
    → job_id < db.next_job_id
    → (f : ℕ) → HoldsFile f db
    → IsKeptOrScheduled f (delete_problem logs now job_id problem_id db)
unfolding delete_problem delete_existing_problem problem_end problem_mid problem_files
delete_problem-file logs now job_id problem_id db old f h =
    elim (Bool-cases (
      has_value
        (find_where (λ (c : ContestProblem). c.problem_id == problem_id) db.contest_problems))) [
          | inl used ↦ rw used (cancelled-kept logs job_id db f h)
          | inr unused ↦
              elim (Bool-cases
                (has_value (find_where (λ (p : Problem). p.id == problem_id) db.problems))) [
                  | inl t ↦
                      rw (unused, t)
                        (ended logs job_id db.next_job_id f _ old
                          (problem-file now db problem_id unused f h))
                  | inr n ↦ rw (unused, n) (cancelled-kept logs job_id db f h)
                ]
        ]

delete_contest-file :
    (logs now : Bytes) (job_id contest_id : ℕ) (db : Db)
    → IsConsistent db
    → job_id < db.next_job_id
    → (f : ℕ) → HoldsFile f db
    → IsKeptOrScheduled f (delete_contest logs now job_id contest_id db)
unfolding delete_contest delete_existing_contest contest_end
delete_contest-file logs now job_id contest_id db consistent old f h =
    elim (Bool-cases (has_value (find_where (λ c. c.id == contest_id) db.contests))) [
      | inl t ↦
          rw t (
            ended logs job_id db.next_job_id f _ old
              (contest-file now db contest_id consistent f h))
      | inr n ↦ rw n (cancelled-kept logs job_id db f h)
    ]

delete_contest_round-file :
    (logs now : Bytes) (job_id contest_round_id : ℕ) (db : Db)
    → IsConsistent db
    → job_id < db.next_job_id
    → (f : ℕ) → HoldsFile f db
    → IsKeptOrScheduled f (delete_contest_round logs now job_id contest_round_id db)
unfolding delete_contest_round
delete_contest_round-file logs now job_id contest_round_id db consistent old f h =
    elim (Bool-cases (contest_round_exists contest_round_id db)) [
      | inl t ↦ rw t (
          ended logs job_id db.next_job_id f _ old
            (round-file now db contest_round_id consistent f h))
      | inr n ↦ rw n (cancelled-kept logs job_id db f h)
    ]

-- Let the columns that repeat what contest problems and contest rounds say agree with them, and let
-- the id of the job be one that was given already. Whether the job deletes a problem, a contest or a
-- contest round, and whether that is there or in use or not: afterwards each file that a submission, a
-- problem or a contest file referred to is referred to by such a row still, or a pending job will
-- delete it.
pub deletions-IsKeptOrScheduled :
    (logs now : Bytes) (job_id id : ℕ) (db : Db)
    → IsConsistent db
    → job_id < db.next_job_id
    → (file_id : ℕ) → HoldsFile file_id db
    → IsKeptOrScheduled file_id (delete_problem logs now job_id id db)
      × IsKeptOrScheduled file_id (delete_contest logs now job_id id db)
      × IsKeptOrScheduled file_id (delete_contest_round logs now job_id id db)
deletions-IsKeptOrScheduled logs now job_id id db consistent old f h = (
  delete_problem-file logs now job_id id db old f h,
  delete_contest-file logs now job_id id db consistent old f h,
  delete_contest_round-file logs now job_id id db consistent old f h,
)
