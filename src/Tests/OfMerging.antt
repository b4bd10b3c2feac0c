-- ===== src/Tests/OfMerging.antt =====
-- An example for `Merging`: two submissions of each database, 1 to 2 here and 4 to 5 there.
use sim_project.Common.{ℕ, ◌≡◌, Option, none, some, [], ◌∷◌, bytes, Bytes, arith}
use sim_project.Merging.{IdIterator, MergedIds, merge_ids}
use sim_project.Merging.Loop.{IsSound}
use sim_project.Merging.Result.{IsMerge, merge_ids-IsMerge}

abbrev no_bound : ℕ → Option Bytes
no_bound id = none

abbrev current_it : IdIterator
current_it = record {
  min_id = 1;
  max_id_plus_one = 3;
  ids_desc =
      record { id = 2; created_at = bytes "2024-03-01 00:00:00" }
      ∷ record { id = 1; created_at = bytes "2024-01-01 00:00:00" }
      ∷ [];
  created_at_upper_bound_of_id = no_bound;
}

abbrev other_it : IdIterator
other_it = record {
  min_id = 4;
  max_id_plus_one = 6;
  ids_desc =
      record { id = 5; created_at = bytes "2024-04-01 00:00:00" }
      ∷ record { id = 4; created_at = bytes "2024-02-01 00:00:00" }
      ∷ [];
  created_at_upper_bound_of_id = no_bound;
}

iterators-IsSound : IsSound current_it other_it
iterators-IsSound = record {
  current_range = omega arith;
  other_range = omega arith;
  fits = omega arith;
  other_fits = omega arith;
}

merge_ids-IsMerge_example :
    (m : MergedIds) × (merge_ids current_it other_it ≡ some m) × IsMerge current_it other_it m
merge_ids-IsMerge_example = merge_ids-IsMerge current_it other_it iterators-IsSound
