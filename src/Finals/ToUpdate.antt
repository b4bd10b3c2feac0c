-- ===== src/Finals/ToUpdate.antt =====
-- The handlers that move many submissions collect what `update_final` has to be called with, and call
-- it in a loop: merge_users.cc, merge_problems.cc, reselect_final_submissions_in_contest_problem.cc.
use sim_project.Common.{
  ℕ, ◌≡◌, refl, ap, Bool, true, false, ◌==◌, ==_iff, ◌&&◌, List, [], ◌∷◌, Option, none, some,
  Result, ok, ◌>>=◌, arith,
}
use sim_project.Db.{Db}
use sim_project.Finals.{update_final}

pub record FinalToUpdate : Type 0 where
  pub user_id : Option ℕ
  pub problem_id : ℕ
  pub contest_problem_id : Option ℕ

abbrev pub same_value : Option ℕ → Option ℕ → Bool
same_value none none = true
same_value none (some n) = false
same_value (some m) none = false
same_value (some m) (some n) = m == n

unfoldable pub same_final : FinalToUpdate → FinalToUpdate → Bool
same_final f g =
    same_value f.user_id g.user_id
    && ((f.problem_id == g.problem_id) && same_value f.contest_problem_id g.contest_problem_id)

unfoldable pub update_finals : List FinalToUpdate → Db → Result Db
update_finals [] db = ok db
update_finals (ftu ∷ rest) db = do
  db' ← update_final ftu.user_id ftu.problem_id ftu.contest_problem_id db
  update_finals rest db'

same_value-eq : (a b : Option ℕ) → same_value a b ≡ true → a ≡ b
same_value-eq none none h = refl
same_value-eq none (some n) h = cc
same_value-eq (some m) none h = cc
same_value-eq (some m) (some n) h = ap some ((==_iff m n).0 h)

pub same_final-eq : (f g : FinalToUpdate) → same_final f g ≡ true → f ≡ g
unfolding same_final
same_final-eq f g h =
    let a = same_value-eq f.user_id g.user_id (ground arith) in
    let b : f.problem_id ≡ g.problem_id = ground arith in
    let c = same_value-eq f.contest_problem_id g.contest_problem_id (ground arith) in cc
