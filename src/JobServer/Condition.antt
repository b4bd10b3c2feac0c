-- ===== src/JobServer/Condition.antt =====
-- The SQL conditions on a row of `jobs` that main.cc writes, as syntax trees, and their value: a
-- comparison with NULL is neither true nor false, and a WHERE takes the rows for which the value is
-- true.
use sim_project.Common.{
  ℕ, Bool, true, false, ◌==◌, if◌then◌else◌, Option, none, some, List, [], ◌∷◌,
}
use sim_project.Schema.Jobs.{Job, JobType_code}

pub data Truth : Type 0 where
  holds fails unknown : Truth

abbrev pub truth_not : Truth → Truth
truth_not Truth.holds = Truth.fails
truth_not Truth.fails = Truth.holds
truth_not Truth.unknown = Truth.unknown

abbrev pub truth_and : Truth → Truth → Truth
truth_and Truth.holds b = b
truth_and Truth.fails b = Truth.fails
truth_and Truth.unknown Truth.holds = Truth.unknown
truth_and Truth.unknown Truth.fails = Truth.fails
truth_and Truth.unknown Truth.unknown = Truth.unknown

abbrev pub truth_or : Truth → Truth → Truth
truth_or Truth.holds b = Truth.holds
truth_or Truth.fails b = b
truth_or Truth.unknown Truth.holds = Truth.holds
truth_or Truth.unknown Truth.fails = Truth.unknown
truth_or Truth.unknown Truth.unknown = Truth.unknown

abbrev pub is_true : Truth → Bool
is_true Truth.holds = true
is_true Truth.fails = false
is_true Truth.unknown = false

-- column = a
abbrev pub sql_equal : Option ℕ → ℕ → Truth
sql_equal none a = Truth.unknown
sql_equal (some n) a = if n == a then Truth.holds else Truth.fails

-- column IN (a, ...)
abbrev pub sql_in : Option ℕ → List ℕ → Truth
sql_in column [] = Truth.fails
sql_in column (a ∷ as') = truth_or (sql_equal column a) (sql_in column as')

pub data Condition : Type 0 where
  always : Condition
  type_in aux_id_in aux_id_2_in : List ℕ → Condition
  both either : Condition → Condition → Condition
  negated : Condition → Condition

unfoldable pub evaluate : Condition → Job → Truth
unfolding JobType_code
evaluate Condition.always j = Truth.holds
evaluate (Condition.type_in codes) j = sql_in (some (JobType_code j.type)) codes
evaluate (Condition.aux_id_in ids) j = sql_in j.aux_id ids
evaluate (Condition.aux_id_2_in ids) j = sql_in j.aux_id_2 ids
evaluate (Condition.both a b) j = truth_and (evaluate a j) (evaluate b j)
evaluate (Condition.either a b) j = truth_or (evaluate a j) (evaluate b j)
evaluate (Condition.negated a) j = truth_not (evaluate a j)
