-- ===== src/Merging/Loop.antt =====
-- The loop of `merge_ids`: its invariant, and that it ends.
use sim_project.Common.{
  ℕ, zero, suc, ◌+◌, ◌-◌, ◌≤◌, ◌<◌, ◌≡◌, refl, Bool, true, false, Bool-cases, inl, inr, List, [],
  ◌∷◌, Option, none, some, ap, length, arith, ltb, ◌==◌, sub64, Bytes, at_least, u64_mod,
}
use sim_project.Merging.Ascending.{Ascends, Disjoint, Ascends-below, Ascends-ne, Disjoint-right}
use sim_project.Merging.{
  IdIterator, IdCreatedAt, Side, State, advance, pass_existing, choose, created_at, choose_later,
  step, run, rounds, first_side, start, max_new_id_plus_one_of,
}

-- What the iterators promise: ranges of ids, that fit in 64 bits together.
pub record IsSound (current_it other_it : IdIterator) : Type 0 where
  pub current_range : current_it.min_id ≤ current_it.max_id_plus_one
  pub other_range : other_it.min_id ≤ other_it.max_id_plus_one
  pub fits : current_it.max_id_plus_one + other_it.max_id_plus_one - other_it.min_id < u64_mod
  pub other_fits : other_it.max_id_plus_one < u64_mod

-- A side with the same progress.
abbrev SameProgress : Side → Side → Type 0
SameProgress s t = (t.last_remapped_id ≡ s.last_remapped_id) × (t.new_ids ≡ s.new_ids)

advance_progress : (es : List IdCreatedAt) (s : Side) → SameProgress s (advance es s)
unfolding advance
advance_progress [] s = (refl, refl)
advance_progress (e ∷ es) s = (refl, refl)

pass_existing_progress : (o : Option IdCreatedAt) (s : Side) → SameProgress s (pass_existing o s)
unfolding pass_existing
pass_existing_progress none s = (refl, refl)
pass_existing_progress (some e) s = elim (Bool-cases (e.id == s.last_remapped_id)) [
  | inl t ↦ rw t (advance_progress s.remaining (record s { last_seen_created_at = e.created_at }))
  | inr t ↦ rw t (refl, refl)
]

choose_progress :
    (n : ℕ) (s : Side)
    → ((choose n s).last_remapped_id ≡ sub64 s.last_remapped_id 1)
      × ((choose n s).new_ids ≡ n ∷ s.new_ids)
unfolding choose
choose_progress n s = pass_existing_progress s.existing_id _

first_side_progress :
    (it : IdIterator)
    → ((first_side it).last_remapped_id ≡ it.max_id_plus_one) × ((first_side it).new_ids ≡ [])
unfolding first_side
first_side_progress it = advance_progress it.ids_desc _

created_at_progress :
    (it : IdIterator) (o : Option IdCreatedAt) (s : Side) → SameProgress s (created_at it o s).1
unfolding created_at
created_at_progress it (some e) s = (refl, refl)
created_at_progress it none s = (ground arith, ground arith)

module _ (current_it other_it : IdIterator) (sound : IsSound current_it other_it) where
  abbrev pub total : ℕ
  total = current_it.max_id_plus_one + other_it.max_id_plus_one - other_it.min_id

  -- The ids from `last_remapped_id` on have their new ids, which fill the range from `curr_new_id`
  -- to the end in ascending order, and no new id is given twice.
  pub record Inv (n : ℕ) (c o : Side) : Type 0 where
    pub current_low : current_it.min_id ≤ c.last_remapped_id
    pub other_low : other_it.min_id ≤ o.last_remapped_id
    pub current_count : c.last_remapped_id + length c.new_ids ≡ current_it.max_id_plus_one
    pub other_count : o.last_remapped_id + length o.new_ids ≡ other_it.max_id_plus_one
    pub filled : n + length c.new_ids + length o.new_ids ≡ total
    pub current_ascends : Ascends n total c.new_ids
    pub other_ascends : Ascends n total o.new_ids
    pub disjoint : Disjoint c.new_ids o.new_ids

  -- The loop goes on: `n` is not 0.
  choose_other-Inv :
      (n : ℕ) (c o o' : Side)
      → Inv n c o
      → other_it.min_id < o.last_remapped_id
      → SameProgress o o'
      → Inv (sub64 n 1) c (choose (sub64 n 1) o')
  choose_other-Inv n c o o' v h (p, q) =
      let (e, f) = choose_progress (sub64 n 1) o' in
      let m : sub64 n 1 + 1 ≡ n = omega (arith, v, sound) in
      record {
        current_low = v.current_low;
        other_low = omega (arith, v, sound, e, p);
        current_count = v.current_count;
        other_count = omega (arith, v, sound, e, p, ap length f, ap length q);
        filled = omega (arith, v, sound, m, ap length f, ap length q);
        current_ascends =
            Ascends-below n (sub64 n 1) total c.new_ids (omega arith) v.current_ascends;
        other_ascends = rw (f, q) (omega arith, rw m v.other_ascends);
        disjoint =
            rw (f, q)
              (Disjoint-right (sub64 n 1) n total c.new_ids o.new_ids (omega arith)
                v.current_ascends v.disjoint);
      }

  choose_current-Inv :
      (n : ℕ) (c c' o : Side)
      → Inv n c o
      → current_it.min_id < c.last_remapped_id
      → other_it.min_id < o.last_remapped_id
      → SameProgress c c'
      → Inv (sub64 n 1) (choose (sub64 n 1) c') o
  choose_current-Inv n c c' o v h k (p, q) =
      let (e, f) = choose_progress (sub64 n 1) c' in
      let m : sub64 n 1 + 1 ≡ n = omega (arith, v, sound) in
      record {
        current_low = omega (arith, v, sound, e, p);
        other_low = v.other_low;
        current_count = omega (arith, v, sound, e, p, ap length f, ap length q);
        other_count = v.other_count;
        filled = omega (arith, v, sound, m, ap length f, ap length q);
        current_ascends = rw (f, q) (omega arith, rw m v.current_ascends);
        other_ascends = Ascends-below n (sub64 n 1) total o.new_ids (omega arith) v.other_ascends;
        disjoint =
            rw (f, q)
              (Ascends-ne (sub64 n 1) n total o.new_ids (omega arith) v.other_ascends, v.disjoint);
      }

  -- A side with the same progress serves as well.
  moved : {n : ℕ} {o : Side} (c c' : Side) → Inv n c o → SameProgress c c' → Inv n c' o
  moved c c' v (p, q) = record {
    current_low = rw p v.current_low;
    other_low = v.other_low;
    current_count = rw (p, q) v.current_count;
    other_count = v.other_count;
    filled = rw q v.filled;
    current_ascends = rw q v.current_ascends;
    other_ascends = v.other_ascends;
    disjoint = rw q v.disjoint;
  }

  moved_other : {n : ℕ} {c : Side} (o o' : Side) → Inv n c o → SameProgress o o' → Inv n c o'
  moved_other o o' v (p, q) = record {
    current_low = v.current_low;
    other_low = rw p v.other_low;
    current_count = v.current_count;
    other_count = rw (p, q) v.other_count;
    filled = rw q v.filled;
    current_ascends = v.current_ascends;
    other_ascends = rw q v.other_ascends;
    disjoint = rw q v.disjoint;
  }

  abbrev pub StateInv : State → Type 0
  StateInv s = Inv s.curr_new_id s.current s.other

  -- The ids that are left.
  abbrev pub left : State → ℕ
  left s =
      (s.current.last_remapped_id - current_it.min_id)
      + (s.other.last_remapped_id - other_it.min_id)

  later_cases :
      (s : State) (a b : Bytes) (c' o' : Side)
      → StateInv s
      → current_it.min_id < s.current.last_remapped_id
      → other_it.min_id < s.other.last_remapped_id
      → SameProgress s.current c'
      → SameProgress s.other o'
      → (t : Bool) → at_least b a ≡ t
      → StateInv (choose_later (sub64 s.curr_new_id 1) (a, c') (b, o'))
        × (left (choose_later (sub64 s.curr_new_id 1) (a, c') (b, o')) < left s)
  unfolding choose_later
  later_cases s a b c' o' v h k p q true t =
      let (e, f) = choose_progress (sub64 s.curr_new_id 1) o' in
      rw t (
        choose_other-Inv s.curr_new_id c' s.other o' (moved s.current c' v p) k q,
        omega (arith, v, sound, e, p.0, q.0),
      )
  later_cases s a b c' o' v h k p q false t =
      let (e, f) = choose_progress (sub64 s.curr_new_id 1) c' in
      rw t (
        choose_current-Inv s.curr_new_id s.current c' o' (moved_other s.other o' v q) h
            (omega (arith, q.0, k)) p,
        omega (arith, v, sound, e, p.0, q.0),
      )

  step-Inv :
      (s : State)
      → StateInv s
      → other_it.min_id < s.other.last_remapped_id
      → StateInv (step current_it other_it s) × (left (step current_it other_it s) < left s)
  unfolding step
  step-Inv s v h = elim (Bool-cases (s.current.last_remapped_id == current_it.min_id)) [
    | inl t ↦
        let (e, f) = choose_progress (sub64 s.curr_new_id 1) s.other in
        rw t (
          choose_other-Inv s.curr_new_id s.current s.other s.other v h (refl, refl),
          omega (arith, v, sound, e),
        )
    | inr t ↦ rw t (
        later_cases s _ _ _ _ v (ground (arith, v.current_low)) h
          (created_at_progress current_it s.current.existing_id s.current)
          (created_at_progress other_it s.other.existing_id s.other) _ refl)
  ]

  -- With a round for each id that is left, the loop ends by its test, and every other id is placed.
  pub run_ends :
      (fuel : ℕ) (s : State)
      → StateInv s
      → left s ≤ fuel
      → (t : State) × (run current_it other_it fuel s ≡ some t)
        × StateInv t
        × (t.other.last_remapped_id ≡ other_it.min_id)
  unfolding run
  run_ends zero s v h = (s, ground (arith, v.other_low), v, omega (arith, v))
  run_ends (suc fuel) s v h = elim (Bool-cases (ltb other_it.min_id s.other.last_remapped_id)) [
    | inl t ↦
        let (v', less') = step-Inv s v (ground arith) in
        rw (t, run) (run_ends fuel (step current_it other_it s) v' (omega arith))
    | inr t ↦ rw (t, run) (s, refl, v, ground (arith, v.other_low))
  ]

  pub max_new_id-eq-total : max_new_id_plus_one_of current_it other_it ≡ total
  max_new_id-eq-total = omega (arith, sound)

  pub start-Inv : StateInv (start current_it other_it)
  unfolding start
  start-Inv =
      let (p, q) = first_side_progress current_it in
      let (e, f) = first_side_progress other_it in
      record {
        current_low = omega (arith, p, sound);
        other_low = omega (arith, e, sound);
        current_count = omega (arith, p, ap length q);
        other_count = omega (arith, e, ap length f);
        filled = omega (arith, max_new_id-eq-total, ap length q, ap length f);
        current_ascends = rw q (omega (arith, max_new_id-eq-total));
        other_ascends = rw f (omega (arith, max_new_id-eq-total));
        disjoint = rw q tt;
      }

  pub left-start : left (start current_it other_it) ≤ rounds current_it other_it
  unfolding start
  left-start =
      let (p, q) = first_side_progress current_it in
      let (e, f) = first_side_progress other_it in omega (arith, p, e)
