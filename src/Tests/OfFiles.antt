-- ===== src/Tests/OfFiles.antt =====
-- An example for `JobHandlers.Files`: the files of contest 1, when job 1 deletes it.
use sim_project.Common.{◌≡◌, refl, [], true, some, pos, inl, inr, In, arith}
use sim_project.Schema.Submissions
use sim_project.JobHandlers.Deletions.{delete_problem, delete_contest, delete_contest_round}
use sim_project.JobHandlers.Files.{IsConsistent, IsKeptOrScheduled}
use sim_project.JobHandlers.Files.Kept.{deletions-IsKeptOrScheduled}
use sim_project.Tests.{row, rows}
use sim_project.Tests.OfScheduled.{db_with_contest, day}

rows-place : (s : _) → In s rows → (s.contest_round_id ≡ some 2) × (s.contest_id ≡ some 1)
rows-place s (inl e) = rw e (refl, refl)
rows-place s (inr (inl e)) = rw e (refl, refl)
rows-place s (inr (inr (inl e))) = rw e (refl, refl)
rows-place s (inr (inr (inr i))) = elim i [ ]

db_with_contest-IsConsistent : IsConsistent db_with_contest
db_with_contest-IsConsistent = record {
  problem_round = λ s q i j e. elim j [ inl k ↦ rw k (rows-place s i).0 | inr k ↦ elim k [ ] ];
  problem_contest = λ s q i j e. elim j [ inl k ↦ rw k (rows-place s i).1 | inr k ↦ elim k [ ] ];
  round_contest = λ s r i j e. elim j [ inl k ↦ rw k (rows-place s i).1 | inr k ↦ elim k [ ] ];
  contest_of_round = λ q r i j e. elim i [
    | inl k ↦ elim j [ inl l ↦ rw (k, l) refl | inr l ↦ elim l [ ] ]
    | inr k ↦ elim k [ ]
  ];
}

deletions-IsKeptOrScheduled_example :
    IsKeptOrScheduled 100 (delete_problem [] day 1 1 db_with_contest)
    × IsKeptOrScheduled 100 (delete_contest [] day 1 1 db_with_contest)
    × IsKeptOrScheduled 100 (delete_contest_round [] day 1 1 db_with_contest)
deletions-IsKeptOrScheduled_example =
    deletions-IsKeptOrScheduled [] day 1 1 db_with_contest db_with_contest-IsConsistent
      (omega arith) 100 (inl (row 1 Submissions.Status.wa (some (pos 40)) true, inl refl, refl))
