-- ===== src/JobHandlers/MergeProblems/Deleted.antt =====
-- When the row of the donor problem is deleted, no contest problem and no submission goes with it.
use sim_project.Common.{
  ℕ, ◌≡◌, ◌≢◌, refl, ap, ◌∙◌, Bool, true, false, ◌==◌, ◌&&◌, if◌then◌else◌, is_value, keep, map-In,
  In-map, List, map, none, In, inl, inr, arith, Bytes, subst,
}
use sim_project.Sql.{find_where, update_where}
use sim_project.Sql.Find.{find_where-cases}
use sim_project.Sql.Moved.{delete_where-nothing}
use sim_project.Db.{Db, delete_problems_row}
use sim_project.Schema.Submissions.{Submission}
use sim_project.Schema.Contests.{ContestProblem}
use sim_project.Schema.Jobs.{JobType}
use sim_project.Finals.Update.{HasKeys}
use sim_project.Finals.Frame.{unmarked}
use sim_project.Finals.Everywhere.{FinalsAreRight}
use sim_project.JobHandlers.{insert_jobs}
use sim_project.JobHandlers.Inserted.{insert_deletions-OnlyJobs, insert_jobs-OnlyJobs}
use sim_project.JobHandlers.MergeProblems.{
  is_solution_of, transfer_contest_problems, delete_solutions,
}

-- The problem has no contest problems.
abbrev pub IsUnused : ℕ → Db → Type 0
IsUnused problem db =
    (q : ContestProblem) → In q db.contest_problems → (q.problem_id == problem) ≡ false

pub transfer_contest_problems-IsUnused :
    (donor target : ℕ) (db : Db)
    → donor ≢ target
    → IsUnused donor (transfer_contest_problems donor target db)
unfolding transfer_contest_problems update_where
transfer_contest_problems-IsUnused donor target db two q i =
    let (q0, j, e) =
      map-In
        (λ (x : ContestProblem).
          if x.problem_id == donor then record x { problem_id = target } else x)
        q db.contest_problems i in
    rw e (case (q0.problem_id == donor) q0 refl)
  where
    case :
        (t : Bool) (x : ContestProblem)
        → (x.problem_id == donor) ≡ t
        → ((if t then record x { problem_id = target } else x).problem_id == donor) ≡ false
    case true x e = ground arith
    case false x e = e

pub delete_solutions-contest_problems :
    (now : Bytes) (donor : ℕ) (db : Db)
    → (delete_solutions now donor db).contest_problems ≡ db.contest_problems
unfolding delete_solutions
delete_solutions-contest_problems now donor db =
    let gone = map (λ p. p.file_id) (keep (λ p. p.id == donor) db.problems) in
    let db1 = insert_jobs now JobType.delete_internal_file gone db in
    ap (λ (d : Db). d.contest_problems)
      (insert_deletions-OnlyJobs now (keep (is_solution_of donor) db1.submissions) db1)
    ∙ ap (λ (d : Db). d.contest_problems)
        (insert_jobs-OnlyJobs now JobType.delete_internal_file gone db)

-- A row without its marks is in the same problem.
pub unmarked-In :
    (r : Submission) (rows rows' : List Submission)
    → map unmarked rows ≡ map unmarked rows'
    → In r rows
    → (r' : Submission) × In r' rows' × (unmarked r ≡ unmarked r')
unmarked-In r rows rows' e i =
    let k : In (unmarked r) (map unmarked rows') =
      subst (In (unmarked r)) e (In-map unmarked r rows i) in
    map-In unmarked (unmarked r) rows' k

-- The foreign keys of the donor's row take nothing along but tags.
module _ (donor : ℕ) (db : Db) (unused : IsUnused donor db)
    (empty : (r : Submission) → In r db.submissions → (r.problem_id == donor) ≡ false) where
  nothing_found :
      (r : Submission)
      → find_where
          (λ (c : ContestProblem). (c.problem_id == donor) && is_value r.contest_problem_id c.id)
          db.contest_problems
        ≡ none
  nothing_found r =
      elim (find_where-cases
        (λ (c : ContestProblem). (c.problem_id == donor) && is_value r.contest_problem_id c.id)
        db.contest_problems) [
          | inl (e, absent) ↦ e
          | inr (q, e, i, t) ↦ absurd (ground (arith, unused q i))
        ]

  pub deleted-submissions : (delete_problems_row donor db).submissions ≡ db.submissions
  unfolding delete_problems_row
  deleted-submissions =
      delete_where-nothing _ db.submissions (λ r i. rw (empty r i, nothing_found r) refl)

  pub deleted-contest_problems :
      (delete_problems_row donor db).contest_problems ≡ db.contest_problems
  unfolding delete_problems_row
  deleted-contest_problems = delete_where-nothing _ db.contest_problems unused

-- `FinalsAreRight` and `HasKeys` read two tables.
pub same_tables :
    (db db' : Db)
    → db'.submissions ≡ db.submissions
    → db'.contest_problems ≡ db.contest_problems
    → FinalsAreRight db
    → HasKeys db
    → FinalsAreRight db' × HasKeys db'
same_tables db db' e f right keys = (
  record {
    problem_final = rw e right.problem_final;
    contest_final = rw (e, f) right.contest_final;
    initial_final = rw (e, f) right.initial_final;
  },
  record { submissions = rw e keys.submissions; contest_problems = rw f keys.contest_problems },
)
