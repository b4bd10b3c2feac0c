-- ===== src/Finals/Orders.antt =====
-- The sort keys of the four queries of update_final.cc are total orders that end with the id, and
-- the three columns are no part of them.
use sim_project.Common.{ℕ, ◌≡◌, refl, Bool, Ordering, arith}
use sim_project.Sql.{Comparator, descending, compare_nullable}
use sim_project.Sql.Order.{
  IsOrder, compare_by-IsOrder, nullable_by-IsOrder, descending-IsOrder, then_by-IsOrder,
}
use sim_project.Schema.Submissions.{Submission, Status_code}
use sim_project.Schema.Contests.{FinalChoice, ScoreRevealing}
use sim_project.Finals.Reselect.{Column}
use sim_project.Finals.{
  by_score_and_full_status, by_latest, by_initial_status, by_score_and_initial_status,
  problem_final, contest_problem_final, contest_problem_initial_final, of_problem,
  of_contest_problem, final_order, initial_final_order,
}

latest-IsOrder : IsOrder by_latest
latest-IsOrder = descending-IsOrder _ (compare_by-IsOrder (λ r. r.id))

highest-IsOrder : IsOrder {A = Submission} (λ r s. descending (compare_nullable r.score s.score))
highest-IsOrder = descending-IsOrder _ (nullable_by-IsOrder (λ r. r.score))

score_and_full_status-IsOrder : IsOrder by_score_and_full_status
score_and_full_status-IsOrder =
    then_by-IsOrder _ _ highest-IsOrder
      (then_by-IsOrder _ _ (compare_by-IsOrder (λ r. Status_code r.full_status)) latest-IsOrder)

initial_status-IsOrder : IsOrder by_initial_status
initial_status-IsOrder =
    then_by-IsOrder _ _ (compare_by-IsOrder (λ r. Status_code r.initial_status)) latest-IsOrder

score_and_initial_status-IsOrder : IsOrder by_score_and_initial_status
score_and_initial_status-IsOrder = then_by-IsOrder _ _ highest-IsOrder initial_status-IsOrder

-- What the queries' orders have in common.
pub record EndsWithId (order : Comparator Submission) : Type 0 where
  pub is_order : IsOrder order
  pub order_id : (r s : Submission) → order r s ≡ Ordering.eq → r.id ≡ s.id

by_latest-EndsWithId : EndsWithId by_latest
by_latest-EndsWithId = record { is_order = latest-IsOrder; order_id = λ r s e. ground arith }

pub by_score_and_full_status-EndsWithId : EndsWithId by_score_and_full_status
by_score_and_full_status-EndsWithId = record {
  is_order = score_and_full_status-IsOrder;
  order_id = λ r s e. ground arith;
}

by_initial_status-EndsWithId : EndsWithId by_initial_status
by_initial_status-EndsWithId = record {
  is_order = initial_status-IsOrder;
  order_id = λ r s e. ground arith;
}

by_score_and_initial_status-EndsWithId : EndsWithId by_score_and_initial_status
by_score_and_initial_status-EndsWithId = record {
  is_order = score_and_initial_status-IsOrder;
  order_id = λ r s e. ground arith;
}

pub final_order-EndsWithId : (method : FinalChoice) → EndsWithId (final_order method)
unfolding final_order
final_order-EndsWithId FinalChoice.latest_compiling = by_latest-EndsWithId
final_order-EndsWithId FinalChoice.highest_score = by_score_and_full_status-EndsWithId

pub initial_final_order-EndsWithId :
    (method : FinalChoice) (revealing : ScoreRevealing)
    → EndsWithId (initial_final_order method revealing)
unfolding initial_final_order
initial_final_order-EndsWithId FinalChoice.latest_compiling revealing = by_latest-EndsWithId
initial_final_order-EndsWithId FinalChoice.highest_score ScoreRevealing.none =
    by_initial_status-EndsWithId
initial_final_order-EndsWithId FinalChoice.highest_score ScoreRevealing.only_score =
    by_score_and_initial_status-EndsWithId
initial_final_order-EndsWithId FinalChoice.highest_score ScoreRevealing.score_and_full_status =
    by_score_and_full_status-EndsWithId

-- A column of marks is no part of what groups, candidates and orders are made of.
pub record IsMark (column : Column) : Type 0 where
  pub id_put : (b : Bool) (r : Submission) → (column.put b r).id ≡ r.id
  pub user_put : (b : Bool) (r : Submission) → (column.put b r).user_id ≡ r.user_id
  pub problem_put : (b : Bool) (r : Submission) → (column.put b r).problem_id ≡ r.problem_id
  pub contest_put :
      (b : Bool) (r : Submission) → (column.put b r).contest_problem_id ≡ r.contest_problem_id
  pub final_put : (b : Bool) (r : Submission) → (column.put b r).final_candidate ≡ r.final_candidate
  pub initial_put :
      (b : Bool) (r : Submission)
      → (column.put b r).initial_final_candidate ≡ r.initial_final_candidate
  pub score_put : (b : Bool) (r : Submission) → (column.put b r).score ≡ r.score
  pub full_put : (b : Bool) (r : Submission) → (column.put b r).full_status ≡ r.full_status
  pub status_put : (b : Bool) (r : Submission) → (column.put b r).initial_status ≡ r.initial_status

pub problem_final-IsMark : IsMark problem_final
problem_final-IsMark = record {
  id_put = λ b r. refl;
  user_put = λ b r. refl;
  problem_put = λ b r. refl;
  contest_put = λ b r. refl;
  final_put = λ b r. refl;
  initial_put = λ b r. refl;
  score_put = λ b r. refl;
  full_put = λ b r. refl;
  status_put = λ b r. refl;
}

pub contest_problem_final-IsMark : IsMark contest_problem_final
contest_problem_final-IsMark = record {
  id_put = λ b r. refl;
  user_put = λ b r. refl;
  problem_put = λ b r. refl;
  contest_put = λ b r. refl;
  final_put = λ b r. refl;
  initial_put = λ b r. refl;
  score_put = λ b r. refl;
  full_put = λ b r. refl;
  status_put = λ b r. refl;
}

pub contest_problem_initial_final-IsMark : IsMark contest_problem_initial_final
contest_problem_initial_final-IsMark = record {
  id_put = λ b r. refl;
  user_put = λ b r. refl;
  problem_put = λ b r. refl;
  contest_put = λ b r. refl;
  final_put = λ b r. refl;
  initial_put = λ b r. refl;
  score_put = λ b r. refl;
  full_put = λ b r. refl;
  status_put = λ b r. refl;
}

module _ (column : Column) (mark : IsMark column) where
  latest_left : (b : Bool) (r s : Submission) → by_latest (column.put b r) s ≡ by_latest r s
  latest_left b r s = rw (mark.id_put b r) refl

  latest_right : (b : Bool) (r s : Submission) → by_latest r (column.put b s) ≡ by_latest r s
  latest_right b r s = rw (mark.id_put b s) refl

  pub score_left :
      (b : Bool) (r s : Submission)
      → by_score_and_full_status (column.put b r) s ≡ by_score_and_full_status r s
  score_left b r s = rw (mark.id_put b r, mark.score_put b r, mark.full_put b r) refl

  pub score_right :
      (b : Bool) (r s : Submission)
      → by_score_and_full_status r (column.put b s) ≡ by_score_and_full_status r s
  score_right b r s = rw (mark.id_put b s, mark.score_put b s, mark.full_put b s) refl

  pub final_left :
      (method : FinalChoice) (b : Bool) (r s : Submission)
      → final_order method (column.put b r) s ≡ final_order method r s
  unfolding final_order
  final_left FinalChoice.latest_compiling b r s = latest_left b r s
  final_left FinalChoice.highest_score b r s = score_left b r s

  pub final_right :
      (method : FinalChoice) (b : Bool) (r s : Submission)
      → final_order method r (column.put b s) ≡ final_order method r s
  unfolding final_order
  final_right FinalChoice.latest_compiling b r s = latest_right b r s
  final_right FinalChoice.highest_score b r s = score_right b r s

  pub initial_left :
      (method : FinalChoice) (revealing : ScoreRevealing) (b : Bool) (r s : Submission)
      → initial_final_order method revealing (column.put b r) s
        ≡ initial_final_order method revealing r s
  unfolding initial_final_order
  initial_left FinalChoice.latest_compiling revealing b r s = latest_left b r s
  initial_left FinalChoice.highest_score ScoreRevealing.none b r s =
      rw (mark.id_put b r, mark.status_put b r) refl
  initial_left FinalChoice.highest_score ScoreRevealing.only_score b r s =
      rw (mark.id_put b r, mark.score_put b r, mark.status_put b r) refl
  initial_left FinalChoice.highest_score ScoreRevealing.score_and_full_status b r s =
      score_left b r s

  pub initial_right :
      (method : FinalChoice) (revealing : ScoreRevealing) (b : Bool) (r s : Submission)
      → initial_final_order method revealing r (column.put b s)
        ≡ initial_final_order method revealing r s
  unfolding initial_final_order
  initial_right FinalChoice.latest_compiling revealing b r s = latest_right b r s
  initial_right FinalChoice.highest_score ScoreRevealing.none b r s =
      rw (mark.id_put b s, mark.status_put b s) refl
  initial_right FinalChoice.highest_score ScoreRevealing.only_score b r s =
      rw (mark.id_put b s, mark.score_put b s, mark.status_put b s) refl
  initial_right FinalChoice.highest_score ScoreRevealing.score_and_full_status b r s =
      score_right b r s

  pub of_problem_put :
      (user problem : ℕ) (b : Bool) (r : Submission)
      → of_problem user problem (column.put b r) ≡ of_problem user problem r
  of_problem_put user problem b r = rw (mark.user_put b r, mark.problem_put b r) refl

  pub of_contest_problem_put :
      (user contest_problem : ℕ) (b : Bool) (r : Submission)
      → of_contest_problem user contest_problem (column.put b r)
        ≡ of_contest_problem user contest_problem r
  of_contest_problem_put user contest_problem b r =
      rw (mark.user_put b r, mark.contest_put b r) refl
