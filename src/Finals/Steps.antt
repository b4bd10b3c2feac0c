-- ===== src/Finals/Steps.antt =====
-- Each of the three updates makes its own mark right, and keeps every mark that was right.
use sim_project.Common.{ℕ, ◌≡◌, refl, List, ◌⊎◌}
use sim_project.Schema.Submissions.{Submission}
use sim_project.Schema.Contests.{ContestProblem}
use sim_project.Finals.Ids.{ids, Distinct}
use sim_project.Finals.Chosen.{reselect-chosen}
use sim_project.Finals.Keeps.{reselect-Chosen}
use sim_project.Finals.Orders.{
  problem_final-IsMark, contest_problem_final-IsMark, contest_problem_initial_final-IsMark,
}
use sim_project.Finals.Lawful.{
  problem_final-IsLawful, contest_problem_final-IsLawful, contest_problem_initial_final-IsLawful,
  IsApart-from_problem_final, IsApart-from_contest_final, IsApart-from_initial_final,
}
use sim_project.Finals.{
  problem_final, contest_problem_final, contest_problem_initial_final, of_problem,
  of_contest_problem, update_problem_final, update_contest_problem_final,
  update_contest_problem_initial_final,
}
use sim_project.Finals.Right.{
  ProblemFinalIsRight, ContestFinalIsRight, InitialFinalIsRight, dec_same, left_of, same_problem,
  same_contest,
}

-- One statement block of update_final.cc, and the three marks.
module _ (user problem : ℕ) (rows : List Submission) (distinct : Distinct (ids rows)) where
  pub problem_then_problem :
      (user' problem' : ℕ)
      → ProblemFinalIsRight user' problem' rows ⊎ ((user' ≡ user) × (problem' ≡ problem))
      → ProblemFinalIsRight user' problem' (update_problem_final user problem rows)
  unfolding update_problem_final
  problem_then_problem user' problem' h = elim (dec_same user' user problem' problem) [
    | yes (p, q) ↦
        rw (p, q)
          (reselect-chosen problem_final (of_problem user problem) _ _
            (problem_final-IsLawful user problem) rows distinct)
    | no differ ↦
        reselect-Chosen problem_final (of_problem user problem) problem_final
          (of_problem user' problem') _ _
          (IsApart-from_problem_final problem_final problem_final-IsMark (of_problem user problem)
            user' problem'
            (λ b r g g'. absurd (differ (same_problem user' user problem' problem r g g'))))
          _ _ (problem_final-IsLawful user problem) rows distinct (left_of differ h)
  ]

  pub problem_then_contest :
      (user' : ℕ) (q : ContestProblem)
      → ContestFinalIsRight user' q rows
      → ContestFinalIsRight user' q (update_problem_final user problem rows)
  unfolding update_problem_final
  problem_then_contest user' q =
      reselect-Chosen problem_final (of_problem user problem) contest_problem_final
        (of_contest_problem user' q.id) _ _
        (IsApart-from_contest_final problem_final problem_final-IsMark (of_problem user problem)
          user' q (λ b r g g'. refl))
        _ _ (problem_final-IsLawful user problem) rows distinct

  pub problem_then_initial :
      (user' : ℕ) (q : ContestProblem)
      → InitialFinalIsRight user' q rows
      → InitialFinalIsRight user' q (update_problem_final user problem rows)
  unfolding update_problem_final
  problem_then_initial user' q =
      reselect-Chosen problem_final (of_problem user problem) contest_problem_initial_final
        (of_contest_problem user' q.id) _ _
        (IsApart-from_initial_final problem_final problem_final-IsMark (of_problem user problem)
          user' q (λ b r g g'. refl))
        _ _ (problem_final-IsLawful user problem) rows distinct

module _ (user : ℕ) (q : ContestProblem) (rows : List Submission)
    (distinct : Distinct (ids rows)) where
  pub contest_then_problem :
      (user' problem' : ℕ)
      → ProblemFinalIsRight user' problem' rows
      → ProblemFinalIsRight user' problem'
          (update_contest_problem_final user q.id q.method_of_choosing_final_submission rows)
  unfolding update_contest_problem_final
  contest_then_problem user' problem' =
      reselect-Chosen contest_problem_final (of_contest_problem user q.id) problem_final
        (of_problem user' problem') _ _
        (IsApart-from_problem_final contest_problem_final contest_problem_final-IsMark
          (of_contest_problem user q.id) user' problem' (λ b r g g'. refl))
        _ _ (contest_problem_final-IsLawful user q.id q.method_of_choosing_final_submission) rows
        distinct

  pub contest_then_contest :
      (user' : ℕ) (q' : ContestProblem)
      → (q'.id ≡ q.id → q' ≡ q)
      → ContestFinalIsRight user' q' rows ⊎ ((user' ≡ user) × (q'.id ≡ q.id))
      → ContestFinalIsRight user' q'
          (update_contest_problem_final user q.id q.method_of_choosing_final_submission rows)
  unfolding update_contest_problem_final
  contest_then_contest user' q' one h = elim (dec_same user' user q'.id q.id) [
    | yes (p, e) ↦
        rw (p, one e)
          (reselect-chosen contest_problem_final (of_contest_problem user q.id) _ _
            (contest_problem_final-IsLawful user q.id q.method_of_choosing_final_submission) rows
            distinct)
    | no differ ↦
        reselect-Chosen contest_problem_final (of_contest_problem user q.id) contest_problem_final
          (of_contest_problem user' q'.id) _ _
          (IsApart-from_contest_final contest_problem_final contest_problem_final-IsMark
            (of_contest_problem user q.id) user' q'
            (λ b r g g'. absurd (differ (same_contest user' user q'.id q.id r g g'))))
          _ _ (contest_problem_final-IsLawful user q.id q.method_of_choosing_final_submission) rows
          distinct (left_of differ h)
  ]

  pub contest_then_initial :
      (user' : ℕ) (q' : ContestProblem)
      → InitialFinalIsRight user' q' rows
      → InitialFinalIsRight user' q'
          (update_contest_problem_final user q.id q.method_of_choosing_final_submission rows)
  unfolding update_contest_problem_final
  contest_then_initial user' q' =
      reselect-Chosen contest_problem_final (of_contest_problem user q.id)
        contest_problem_initial_final (of_contest_problem user' q'.id) _ _
        (IsApart-from_initial_final contest_problem_final contest_problem_final-IsMark
          (of_contest_problem user q.id) user' q' (λ b r g g'. refl))
        _ _ (contest_problem_final-IsLawful user q.id q.method_of_choosing_final_submission) rows
        distinct

module _ (user : ℕ) (q : ContestProblem) (rows : List Submission)
    (distinct : Distinct (ids rows)) where
  pub initial_then_problem :
      (user' problem' : ℕ)
      → ProblemFinalIsRight user' problem' rows
      → ProblemFinalIsRight user' problem' (
          update_contest_problem_initial_final user q.id q.method_of_choosing_final_submission
            q.score_revealing rows)
  unfolding update_contest_problem_initial_final
  initial_then_problem user' problem' =
      reselect-Chosen contest_problem_initial_final (of_contest_problem user q.id) problem_final
        (of_problem user' problem') _ _
        (IsApart-from_problem_final contest_problem_initial_final
          contest_problem_initial_final-IsMark (of_contest_problem user q.id) user' problem'
          (λ b r g g'. refl))
        _ _
        (contest_problem_initial_final-IsLawful user q.id q.method_of_choosing_final_submission
          q.score_revealing)
        rows distinct

  pub initial_then_contest :
      (user' : ℕ) (q' : ContestProblem)
      → ContestFinalIsRight user' q' rows
      → ContestFinalIsRight user' q' (
          update_contest_problem_initial_final user q.id q.method_of_choosing_final_submission
            q.score_revealing rows)
  unfolding update_contest_problem_initial_final
  initial_then_contest user' q' =
      reselect-Chosen contest_problem_initial_final (of_contest_problem user q.id)
        contest_problem_final (of_contest_problem user' q'.id) _ _
        (IsApart-from_contest_final contest_problem_initial_final
          contest_problem_initial_final-IsMark (of_contest_problem user q.id) user' q'
          (λ b r g g'. refl))
        _ _
        (contest_problem_initial_final-IsLawful user q.id q.method_of_choosing_final_submission
          q.score_revealing)
        rows distinct

  pub initial_then_initial :
      (user' : ℕ) (q' : ContestProblem)
      → (q'.id ≡ q.id → q' ≡ q)
      → InitialFinalIsRight user' q' rows ⊎ ((user' ≡ user) × (q'.id ≡ q.id))
      → InitialFinalIsRight user' q' (
          update_contest_problem_initial_final user q.id q.method_of_choosing_final_submission
            q.score_revealing rows)
  unfolding update_contest_problem_initial_final
  initial_then_initial user' q' one h = elim (dec_same user' user q'.id q.id) [
    | yes (p, e) ↦
        rw (p, one e)
          (reselect-chosen contest_problem_initial_final (of_contest_problem user q.id) _ _
            (contest_problem_initial_final-IsLawful user q.id q.method_of_choosing_final_submission
              q.score_revealing)
            rows distinct)
    | no differ ↦
        reselect-Chosen contest_problem_initial_final (of_contest_problem user q.id)
          contest_problem_initial_final (of_contest_problem user' q'.id) _ _
          (IsApart-from_initial_final contest_problem_initial_final
            contest_problem_initial_final-IsMark (of_contest_problem user q.id) user' q'
            (λ b r g g'. absurd (differ (same_contest user' user q'.id q.id r g g'))))
          _ _
          (contest_problem_initial_final-IsLawful user q.id q.method_of_choosing_final_submission
            q.score_revealing)
          rows distinct (left_of differ h)
  ]
