-- ===== src/Finals/Right.antt =====
-- When the three marks of update_final.cc are right, for one group of submissions.
use sim_project.Common.{ℕ, ◌≡◌, true, List, arith, ◌⊎◌, inl, inr}
use native.Mathlib.Decide.{ℕ_discrete}
use sim_project.Schema.Submissions.{Submission}
use sim_project.Schema.Contests.{ContestProblem}
use sim_project.Finals.Keeps.{Chosen}
use sim_project.Finals.{
  by_score_and_full_status, problem_final, contest_problem_final, contest_problem_initial_final,
  of_problem, of_contest_problem, final_order, initial_final_order,
}

-- The problem final of a user in a problem is the best candidate by score.
abbrev pub ProblemFinalIsRight : ℕ → ℕ → List Submission → Type 0
ProblemFinalIsRight user problem =
    Chosen problem_final (of_problem user problem) (λ r. r.final_candidate) by_score_and_full_status

abbrev pub ContestFinalIsRight : ℕ → ContestProblem → List Submission → Type 0
ContestFinalIsRight user q =
    Chosen contest_problem_final (of_contest_problem user q.id) (λ r. r.final_candidate)
      (final_order q.method_of_choosing_final_submission)

abbrev pub InitialFinalIsRight : ℕ → ContestProblem → List Submission → Type 0
InitialFinalIsRight user q =
    Chosen contest_problem_initial_final (of_contest_problem user q.id)
      (λ r. r.initial_final_candidate)
      (initial_final_order q.method_of_choosing_final_submission q.score_revealing)

pub dec_same : (a b c d : ℕ) → Dec ((a ≡ b) × (c ≡ d))
dec_same a b c d = elim (ℕ_discrete a b) [
  | yes p ↦ elim (ℕ_discrete c d) [ yes q ↦ yes (p, q) | no n ↦ no (λ h. n h.1) ]
  | no n ↦ no (λ h. n h.0)
]

pub left_of : {A B : Type 0} → ¬ B → A ⊎ B → A
left_of n (inl a) = a
left_of n (inr b) = absurd (n b)

pub same_problem :
    (u' u p' p : ℕ) (r : Submission)
    → of_problem u' p' r ≡ true
    → of_problem u p r ≡ true
    → (u' ≡ u) × (p' ≡ p)
same_problem u' u p' p r g g' = (ground arith, ground arith)

pub same_contest :
    (u' u c' c : ℕ) (r : Submission)
    → of_contest_problem u' c' r ≡ true
    → of_contest_problem u c r ≡ true
    → (u' ≡ u) × (c' ≡ c)
same_contest u' u c' c r g g' = (ground arith, ground arith)
