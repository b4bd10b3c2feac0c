-- ===== src/JobHandlers/MergeProblems/Sound.antt =====
-- The statements of a merge of two problems up to the loop of updates keep all marks right.
use sim_project.Common.{
  ℕ, ◌≡◌, ◌≢◌, refl, sym, ap, Bool, true, false, not, ◌==◌, if◌then◌else◌, Option-cases, keep,
  keep-In, map-In, List, [], ◌∷◌, map, none, ok, In, inl, inr, arith, Bytes, subst,
}
use sim_project.Sql.{order_by, find_where, update_where, delete_where}
use sim_project.Sql.Find.{find_where-update}
use sim_project.Db.{Db}
use sim_project.Schema.Submissions.{Submission}
use sim_project.Schema.Contests.{ContestProblem}
use sim_project.Schema.Jobs.{JobType}
use sim_project.Finals.Right.{ContestFinalIsRight, InitialFinalIsRight}
use sim_project.Finals.Update.{HasKeys, contest_problem_ids}
use sim_project.Finals.Members.{Chosen-delete, Distinct-delete}
use sim_project.Finals.Everywhere.{FinalsAreRight}
use sim_project.Finals.ToUpdate.{update_finals}
use sim_project.Finals.Pending.{HasContestProblems, AllUpdated, update_finals-AllUpdated}
use sim_project.Finals.{problem_final, contest_problem_final, contest_problem_initial_final}
use sim_project.JobHandlers.{insert_jobs, insert_deletions}
use sim_project.JobHandlers.Inserted.{OnlyJobs, insert_deletions-OnlyJobs, insert_jobs-OnlyJobs}
use sim_project.JobHandlers.MergeProblems.{
  is_problem_solution, is_solution_of, transfer_contest_problems, by_id, delete_solutions,
  select_finals_to_update, schedule_rejudges, transfer_submissions,
}
use sim_project.JobHandlers.MergeProblems.Marks.{
  selected-IsKnown, transferred-Pending, transferred-HasKeys,
}

-- A model solution is not a candidate for a final submission.
abbrev pub SolutionsAreNoCandidates : Db → Type 0
SolutionsAreNoCandidates db =
    (s : Submission)
    → In s db.submissions
    → is_problem_solution s.type ≡ true
    → (s.final_candidate ≡ false) × (s.initial_final_candidate ≡ false)

-- What the handler relies on.
pub record IsMergeable (donor target : ℕ) (db : Db) : Type 0 where
  pub two_problems : donor ≢ target
  pub keys : HasKeys db
  pub right : FinalsAreRight db
  pub contest_problems : HasContestProblems db
  pub solutions : SolutionsAreNoCandidates db

-- What the submissions and the contest problems have to be, whatever the other tables are.
pub record IsSound (db : Db) : Type 0 where
  pub keys : HasKeys db
  pub right : FinalsAreRight db
  pub contest_problems : HasContestProblems db
  pub solutions : SolutionsAreNoCandidates db

OnlyJobs-IsSound : (db db' : Db) → OnlyJobs db db' → IsSound db → IsSound db'
OnlyJobs-IsSound db db' e h = subst IsSound (sym e) (record {
  keys = record { submissions = h.keys.submissions; contest_problems = h.keys.contest_problems };
  right = record {
    problem_final = h.right.problem_final;
    contest_final = h.right.contest_final;
    initial_final = h.right.initial_final;
  };
  contest_problems = h.contest_problems;
  solutions = h.solutions;
})

module _ (donor target : ℕ) (db : Db) (h : IsMergeable donor target db) where
  unfoldable pub a : Db
  unfolding transfer_contest_problems
  a = transfer_contest_problems donor target db

  abbrev moved : ContestProblem → ContestProblem
  moved q = if q.problem_id == donor then record q { problem_id = target } else q

  ids-moved :
      (rows : List ContestProblem) → contest_problem_ids (map moved rows) ≡ contest_problem_ids rows
  ids-moved [] = refl
  ids-moved (q ∷ rows) = cc (same (q.problem_id == donor), ids-moved rows)
    where
      same : (t : Bool) → (if t then record q { problem_id = target } else q).id ≡ q.id
      same true = refl
      same false = refl

  moved-right :
      (P : ContestProblem → Type 0) (q : ContestProblem)
      → P q
      → ((t : Bool) → P q → P (if t then record q { problem_id = target } else q))
      → P (moved q)
  moved-right P q p f = f (q.problem_id == donor) p

  a-FinalsAreRight : FinalsAreRight a
  unfolding a transfer_contest_problems update_where
  a-FinalsAreRight = record {
    problem_final = h.right.problem_final;
    contest_final = λ user q i.
        let (q0, j, e) = map-In moved q db.contest_problems i in
        subst (λ (x : ContestProblem). ContestFinalIsRight user x db.submissions) (sym e)
          (contest_part user q0 (q0.problem_id == donor) (h.right.contest_final user q0 j));
    initial_final = λ user q i.
        let (q0, j, e) = map-In moved q db.contest_problems i in
        subst (λ (x : ContestProblem). InitialFinalIsRight user x db.submissions) (sym e)
          (initial_part user q0 (q0.problem_id == donor) (h.right.initial_final user q0 j));
  }
    where
      contest_part :
          (user : ℕ) (q : ContestProblem) (t : Bool)
          → ContestFinalIsRight user q db.submissions
          → ContestFinalIsRight user
              (if t then record q { problem_id = target } else q)
              db.submissions
      contest_part user q true c = c
      contest_part user q false c = c

      initial_part :
          (user : ℕ) (q : ContestProblem) (t : Bool)
          → InitialFinalIsRight user q db.submissions
          → InitialFinalIsRight user
              (if t then record q { problem_id = target } else q)
              db.submissions
      initial_part user q true c = c
      initial_part user q false c = c

  not_found :
      (c : ℕ)
      → find_where (λ (q : ContestProblem). q.id == c) (map moved db.contest_problems) ≡ none
      → find_where (λ (q : ContestProblem). q.id == c) db.contest_problems ≡ none
  unfolding update_where
  not_found c n =
      elim (Option-cases (find_where (λ (q : ContestProblem). q.id == c) db.contest_problems)) [
        | inl e ↦ e
        | inr (q, e) ↦ absurd (
            let f =
              find_where-update (λ (q : ContestProblem). q.problem_id == donor)
                (λ q. record q { problem_id = target }) (λ q. q.id == c) (λ q. refl)
                db.contest_problems in
            let g = rw e at f in cc)
      ]

  pub a-IsSound : IsSound a
  unfolding a transfer_contest_problems update_where
  a-IsSound = record {
    keys = record {
      submissions = h.keys.submissions;
      contest_problems = rw (ids-moved db.contest_problems) h.keys.contest_problems;
    };
    right = a-FinalsAreRight;
    contest_problems = λ s c i e n. h.contest_problems s c i e (not_found c n);
    solutions = h.solutions;
  }

-- The problem solutions go.
deleted-IsSound :
    (donor : ℕ) (db : Db)
    → IsSound db
    → IsSound (record db { submissions = delete_where (is_solution_of donor) db.submissions })
unfolding delete_where is_problem_solution
deleted-IsSound donor db h = record {
  keys = record {
    submissions = Distinct-delete (is_solution_of donor) db.submissions h.keys.submissions;
    contest_problems = h.keys.contest_problems;
  };
  right = record {
    problem_final = λ user problem.
        Chosen-delete problem_final _ _ _ (is_solution_of donor) db.submissions
          (λ r i t g. (h.solutions r i (ground arith)).0) (h.right.problem_final user problem);
    contest_final = λ user q j.
        Chosen-delete contest_problem_final _ _ _ (is_solution_of donor) db.submissions
          (λ r i t g. (h.solutions r i (ground arith)).0) (h.right.contest_final user q j);
    initial_final = λ user q j.
        Chosen-delete contest_problem_initial_final _ _ _ (is_solution_of donor) db.submissions
          (λ r i t g. (h.solutions r i (ground arith)).1) (h.right.initial_final user q j);
  };
  contest_problems = λ s c i e. h.contest_problems s c (still s i) e;
  solutions = λ s i t. h.solutions s (still s i) t;
}
  where
    still :
        (s : Submission)
        → In s (delete_where (is_solution_of donor) db.submissions)
        → In s db.submissions
    still s i = (keep-In (λ r. not (is_solution_of donor r)) s db.submissions i).0

pub delete_solutions-IsSound :
    (now : Bytes) (donor : ℕ) (db : Db) → IsSound db → IsSound (delete_solutions now donor db)
unfolding delete_solutions
delete_solutions-IsSound now donor db h =
    let gone = map (λ p. p.file_id) (keep (λ p. p.id == donor) db.problems) in
    let db1 = insert_jobs now JobType.delete_internal_file gone db in
    let db2 = insert_deletions now (keep (is_solution_of donor) db1.submissions) db1 in
    deleted-IsSound donor db2 (
      OnlyJobs-IsSound db1 db2
        (insert_deletions-OnlyJobs now (keep (is_solution_of donor) db1.submissions) db1)
        (OnlyJobs-IsSound db db1 (insert_jobs-OnlyJobs now JobType.delete_internal_file gone db) h))

pub schedule_rejudges-OnlyJobs :
    (now : Bytes) (rejudge : Bool) (problem : ℕ) (db : Db)
    → OnlyJobs db (schedule_rejudges now rejudge problem db)
unfolding schedule_rejudges
schedule_rejudges-OnlyJobs now true problem db =
    insert_jobs-OnlyJobs now JobType.rejudge_submission
      (map (λ s. s.id) (order_by by_id (keep (λ s. s.problem_id == problem) db.submissions))) db
schedule_rejudges-OnlyJobs now false problem db = refl

-- The rest of the statements, from a database in which nothing but the transfer is missing.
module _ (now : Bytes) (donor target : ℕ) (rejudge : Bool) (db : Db) (two : donor ≢ target)
    (h : IsSound db) where
  scheduled : Db
  scheduled = schedule_rejudges now rejudge donor db

  scheduled-IsSound : IsSound scheduled
  unfolding scheduled
  scheduled-IsSound =
      OnlyJobs-IsSound db scheduled (schedule_rejudges-OnlyJobs now rejudge donor db) h

  same_selection :
      select_finals_to_update donor target scheduled ≡ select_finals_to_update donor target db
  unfolding scheduled select_finals_to_update
  same_selection =
      ap (select_finals_to_update donor target) (schedule_rejudges-OnlyJobs now rejudge donor db)

  pub updated :
      (db' : Db) × (update_finals
          (select_finals_to_update donor target db)
          (transfer_submissions donor target (schedule_rejudges now rejudge donor db))
        ≡ ok db')
      × AllUpdated (transfer_submissions donor target (schedule_rejudges now rejudge donor db)) db'
  unfolding scheduled transfer_submissions
  updated = rw (← same_selection) (
      update_finals-AllUpdated (select_finals_to_update donor target scheduled)
        (transfer_submissions donor target scheduled)
        (transferred-HasKeys donor target scheduled scheduled-IsSound.keys)
        (selected-IsKnown donor target scheduled scheduled-IsSound.contest_problems)
        (transferred-Pending donor target scheduled two scheduled-IsSound.right))
