-- ===== src/Merging.antt =====
-- Merging the ids of two databases: subprojects/sim/src/sim/merging/merge_ids.cc and
-- subprojects/sim/include/sim/merging/merge_ids.hh. An iterator is given by its bounds, the ids that
-- it will give and its upper bounds; the two halves of the loop's variables, for the current and
-- for the other database, are a `Side` each. The head of `new_ids` is the back of the vector, so
-- `std::reverse` has nothing to do.
pub mod Ascending
pub mod Loop
pub mod Result
use mathlib.Core.Option
use sim_project.Common.{
  ℕ, zero, suc, ◌-◌, ◌+◌, Bool, true, false, ◌==◌, ltb, leb, if◌then◌else◌, not, Option, none, some,
  List, [], ◌∷◌, get_elem?, Bytes, bytes, less, at_least, add64, sub64, is_value,
}

pub record IdCreatedAt : Type 0 where
  pub id : ℕ
  pub created_at : Bytes

pub record IdIterator : Type 0 where
  pub min_id : ℕ
  pub max_id_plus_one : ℕ
  pub ids_desc : List IdCreatedAt  -- what `next_id_desc` gives, in turn
  pub created_at_upper_bound_of_id : ℕ → Option Bytes

pub record MergedIds : Type 0 where
  pub min_new_id : ℕ
  pub max_new_id_plus_one : ℕ
  pub first_remapped_current_id : ℕ
  pub current_to_new_id : List ℕ
  pub first_remapped_other_id : ℕ
  pub other_to_new_id : List ℕ

-- `none` is `std::terminate()`.
unfoldable pub current_id_to_new_id : MergedIds → ℕ → Option ℕ
current_id_to_new_id m current_id =
    if ltb current_id m.min_new_id
    then none
    else if ltb current_id m.first_remapped_current_id
    then some current_id
    else get_elem? m.current_to_new_id (current_id - m.first_remapped_current_id)

unfoldable pub other_id_to_new_id : MergedIds → ℕ → Option ℕ
other_id_to_new_id m other_id =
    if ltb other_id m.first_remapped_other_id
    then none
    else get_elem? m.other_to_new_id (other_id - m.first_remapped_other_id)

pub record Side : Type 0 where
  pub last_remapped_id : ℕ
  pub existing_id : Option IdCreatedAt
  pub remaining : List IdCreatedAt
  pub last_seen_created_at : Bytes
  pub new_ids : List ℕ
  pub cached_id : Option ℕ

-- `next_id_desc()`, assigned to `existing_id`.
unfoldable pub advance : List IdCreatedAt → Side → Side
advance [] s = record s { existing_id = none; remaining = [] }
advance (e ∷ rest) s = record s { existing_id = some e; remaining = rest }

unfoldable pub first_side : IdIterator → Side
unfolding advance
first_side it = advance it.ids_desc (record {
  last_remapped_id = it.max_id_plus_one;
  existing_id = none;
  remaining = [];
  last_seen_created_at = bytes "9999-12-31 23:59:59";
  new_ids = [];
  cached_id = none;
})

-- The end of `choose_current_id` and `choose_other_id`.
unfoldable pub pass_existing : Option IdCreatedAt → Side → Side
unfolding advance
pass_existing none s = s
pass_existing (some e) s =
    if e.id == s.last_remapped_id
    then advance s.remaining (record s { last_seen_created_at = e.created_at })
    else s

-- `choose_current_id`, `choose_other_id`
unfoldable pub choose : ℕ → Side → Side
unfolding pass_existing
choose curr_new_id s =
    pass_existing s.existing_id (record s {
      last_remapped_id = sub64 s.last_remapped_id 1;
      new_ids = curr_new_id ∷ s.new_ids;
    })

-- `std::min(last_seen, *upper_bound)`, where there is a bound.
unfoldable pub lower : Bytes → Option Bytes → Bytes
lower last_seen none = last_seen
lower last_seen (some bound) = if less bound last_seen then bound else last_seen

-- `get_current_id_created_at_upper_bound`, `get_other_id_created_at_upper_bound`
unfoldable pub created_at_upper_bound : IdIterator → Side → Side
unfolding lower
created_at_upper_bound it s =
    let id = sub64 s.last_remapped_id 1 in
    if is_value s.cached_id id then s else record s {
      cached_id = some id;
      last_seen_created_at = lower s.last_seen_created_at (it.created_at_upper_bound_of_id id);
    }

-- `existing_id ? existing_id->created_at : get_..._created_at_upper_bound()`
unfoldable pub created_at : IdIterator → Option IdCreatedAt → Side → Bytes × Side
unfolding created_at_upper_bound
created_at it (some e) s = (e.created_at, s)
created_at it none s = let s' = created_at_upper_bound it s in (s'.last_seen_created_at, s')

pub record State : Type 0 where
  pub curr_new_id : ℕ
  pub current : Side
  pub other : Side

-- The branch of the loop in which both databases have ids left.
unfoldable pub choose_later : ℕ → Bytes × Side → Bytes × Side → State
unfolding choose
choose_later curr_new_id (current_created_at, current) (other_created_at, other) =
    if at_least other_created_at current_created_at
    then record { curr_new_id = curr_new_id; current = current; other = choose curr_new_id other }
    else record { curr_new_id = curr_new_id; current = choose curr_new_id current; other = other }

module _ (current_it other_it : IdIterator) where
  -- The body of the loop.
  unfoldable pub step : State → State
  unfolding choose_later created_at
  step s =
      let curr_new_id = sub64 s.curr_new_id 1 in
      if s.current.last_remapped_id == current_it.min_id
      then record s { curr_new_id = curr_new_id; other = choose curr_new_id s.other }
      else choose_later curr_new_id (created_at current_it s.current.existing_id s.current)
          (created_at other_it s.other.existing_id s.other)

  -- `while (last_remapped_other_id > other_min_id)`; `none` is out of fuel.
  unfoldable pub run : ℕ → State → Option State
  run zero s = if ltb other_it.min_id s.other.last_remapped_id then none else some s
  run (suc fuel) s = elim (ltb other_it.min_id s.other.last_remapped_id) [
    | true ↦ run fuel (step s)
    | false ↦ some s
  ]

  abbrev pub max_new_id_plus_one_of : ℕ
  max_new_id_plus_one_of =
      add64 current_it.max_id_plus_one (sub64 other_it.max_id_plus_one other_it.min_id)

  unfoldable pub start : State
  unfolding first_side
  start = record {
    curr_new_id = max_new_id_plus_one_of;
    current = first_side current_it;
    other = first_side other_it;
  }

  unfoldable pub merged : State → MergedIds
  merged s = record {
    min_new_id = current_it.min_id;
    max_new_id_plus_one = max_new_id_plus_one_of;
    first_remapped_current_id = s.current.last_remapped_id;
    current_to_new_id = s.current.new_ids;
    first_remapped_other_id = s.other.last_remapped_id;
    other_to_new_id = s.other.new_ids;
  }

  -- Each round takes an id of one of the two databases.
  abbrev pub rounds : ℕ
  rounds =
      (current_it.max_id_plus_one - current_it.min_id)
      + (other_it.max_id_plus_one - other_it.min_id)

  unfoldable pub merge_ids : Option MergedIds
  unfolding run start merged
  merge_ids = Option.map merged (run rounds start)
