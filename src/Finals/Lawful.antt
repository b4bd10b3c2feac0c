-- ===== src/Finals/Lawful.antt =====
-- The three columns of marks satisfy the laws that `Finals.Chosen` and `Finals.Keeps` ask for.
use sim_project.Common.{ℕ, ◌≡◌, refl, Bool, true}
use sim_project.Schema.Submissions.{Submission}
use sim_project.Schema.Contests.{FinalChoice, ScoreRevealing, ContestProblem}
use sim_project.Finals.Reselect.{Column}
use sim_project.Finals.Chosen.{IsLawful}
use sim_project.Finals.Keeps.{IsApart}
use sim_project.Finals.Orders.{
  by_score_and_full_status-EndsWithId, final_order-EndsWithId, initial_final_order-EndsWithId,
  IsMark, contest_problem_final-IsMark, contest_problem_initial_final-IsMark, score_left,
  score_right, final_left, final_right, initial_left, initial_right, of_problem_put,
  of_contest_problem_put,
}
use sim_project.Finals.{
  by_score_and_full_status, problem_final, contest_problem_final, contest_problem_initial_final,
  of_problem, of_contest_problem, final_order, initial_final_order,
}

pub problem_final-IsLawful :
    (user problem : ℕ)
    → IsLawful problem_final
        (of_problem user problem)
        (λ r. r.final_candidate)
        by_score_and_full_status
problem_final-IsLawful user problem = record {
  get_put = λ b r. refl;
  id_put = λ b r. refl;
  group_put = λ b r. refl;
  candidate_put = λ b r. refl;
  order_left = λ b r s. refl;
  order_right = λ b r s. refl;
  is_order = by_score_and_full_status-EndsWithId.is_order;
  order_id = by_score_and_full_status-EndsWithId.order_id;
}

pub contest_problem_final-IsLawful :
    (user contest_problem : ℕ) (method : FinalChoice)
    → IsLawful contest_problem_final
        (of_contest_problem user contest_problem)
        (λ r. r.final_candidate)
        (final_order method)
contest_problem_final-IsLawful user contest_problem method = record {
  get_put = λ b r. refl;
  id_put = λ b r. refl;
  group_put = λ b r. refl;
  candidate_put = λ b r. refl;
  order_left = final_left contest_problem_final contest_problem_final-IsMark method;
  order_right = final_right contest_problem_final contest_problem_final-IsMark method;
  is_order = (final_order-EndsWithId method).is_order;
  order_id = (final_order-EndsWithId method).order_id;
}

pub contest_problem_initial_final-IsLawful :
    (user contest_problem : ℕ) (method : FinalChoice) (revealing : ScoreRevealing)
    → IsLawful contest_problem_initial_final
        (of_contest_problem user contest_problem)
        (λ r. r.initial_final_candidate)
        (initial_final_order method revealing)
contest_problem_initial_final-IsLawful user contest_problem method revealing = record {
  get_put = λ b r. refl;
  id_put = λ b r. refl;
  group_put = λ b r. refl;
  candidate_put = λ b r. refl;
  order_left =
      initial_left contest_problem_initial_final contest_problem_initial_final-IsMark method
        revealing;
  order_right =
      initial_right contest_problem_initial_final contest_problem_initial_final-IsMark method
        revealing;
  is_order = (initial_final_order-EndsWithId method revealing).is_order;
  order_id = (initial_final_order-EndsWithId method revealing).order_id;
}

module _ (moved : Column) (mark : IsMark moved) (group' : Submission → Bool) where
  pub IsApart-from_problem_final :
      (user problem : ℕ)
      → ((b : Bool) (r : Submission)
          → of_problem user problem r ≡ true
          → group' r ≡ true
          → (moved.put b r).problem_final ≡ r.problem_final)
      → IsApart moved group' problem_final
          (of_problem user problem)
          (λ r. r.final_candidate)
          by_score_and_full_status
  IsApart-from_problem_final user problem h = record {
    group_put = of_problem_put moved mark user problem;
    candidate_put = mark.final_put;
    order_left = score_left moved mark;
    order_right = score_right moved mark;
    apart = h;
  }

  pub IsApart-from_contest_final :
      (user : ℕ) (q : ContestProblem)
      → ((b : Bool) (r : Submission)
          → of_contest_problem user q.id r ≡ true
          → group' r ≡ true
          → (moved.put b r).contest_problem_final ≡ r.contest_problem_final)
      → IsApart moved group' contest_problem_final
          (of_contest_problem user q.id)
          (λ r. r.final_candidate)
          (final_order q.method_of_choosing_final_submission)
  IsApart-from_contest_final user q h = record {
    group_put = of_contest_problem_put moved mark user q.id;
    candidate_put = mark.final_put;
    order_left = final_left moved mark q.method_of_choosing_final_submission;
    order_right = final_right moved mark q.method_of_choosing_final_submission;
    apart = h;
  }

  pub IsApart-from_initial_final :
      (user : ℕ) (q : ContestProblem)
      → ((b : Bool) (r : Submission)
          → of_contest_problem user q.id r ≡ true
          → group' r ≡ true
          → (moved.put b r).contest_problem_initial_final ≡ r.contest_problem_initial_final)
      → IsApart moved group' contest_problem_initial_final
          (of_contest_problem user q.id)
          (λ r. r.initial_final_candidate)
          (initial_final_order q.method_of_choosing_final_submission q.score_revealing)
  IsApart-from_initial_final user q h = record {
    group_put = of_contest_problem_put moved mark user q.id;
    candidate_put = mark.initial_put;
    order_left = initial_left moved mark q.method_of_choosing_final_submission q.score_revealing;
    order_right = initial_right moved mark q.method_of_choosing_final_submission q.score_revealing;
    apart = h;
  }
