-- ===== src/Merging/Result.antt =====
-- The two maps of ids that `merge_ids` gives.
use sim_project.Common.{
  ℕ, ◌⊎◌, ◌+◌, ◌-◌, ◌≤◌, ◌<◌, ◌≡◌, ◌≢◌, refl, Bool-cases, inl, inr, some, get_elem?, arith, ltb,
  ◌∙◌, sym,
}
use native.Mathlib.Decide.{dec_lt}
use sim_project.Merging.Ascending.{get_elem?-Ascends, get_elem?_lt, get_elem?-Disjoint, in_range}
use sim_project.Merging.Loop.{
  IsSound, StateInv, total, run_ends, start-Inv, left-start, max_new_id-eq-total,
}
use sim_project.Merging.{
  IdIterator, MergedIds, State, current_id_to_new_id, other_id_to_new_id, merge_ids, merged, start,
  rounds,
}

-- What a caller may rely on.
pub record IsMerge (current_it other_it : IdIterator) (m : MergedIds) : Type 0 where
  -- The new ids are as many as the old ones together.
  pub size :
      m.max_new_id_plus_one + other_it.min_id
      ≡ current_it.max_id_plus_one + other_it.max_id_plus_one
  -- Each id of either database has a new id of the new range.
  pub current_total :
      (id : ℕ)
      → current_it.min_id ≤ id
      → id < current_it.max_id_plus_one
      → (n : ℕ) × (current_id_to_new_id m id ≡ some n)
        × (current_it.min_id ≤ n)
        × (n < m.max_new_id_plus_one)
  pub other_total :
      (id : ℕ)
      → other_it.min_id ≤ id
      → id < other_it.max_id_plus_one
      → (n : ℕ) × (other_id_to_new_id m id ≡ some n)
        × (current_it.min_id ≤ n)
        × (n < m.max_new_id_plus_one)
  -- The order of the ids of one database is kept.
  pub current_mono :
      (i j m' n : ℕ)
      → i < j
      → current_id_to_new_id m i ≡ some m'
      → current_id_to_new_id m j ≡ some n
      → m' < n
  pub other_mono :
      (i j m' n : ℕ)
      → i < j
      → other_id_to_new_id m i ≡ some m'
      → other_id_to_new_id m j ≡ some n
      → m' < n
  -- No new id stands for an id of both databases.
  pub apart :
      (i j m' n : ℕ) → current_id_to_new_id m i ≡ some m' → other_id_to_new_id m j ≡ some n → m' ≢ n

some_inj : {a b : ℕ} → some a ≡ some b → a ≡ b
some_inj e = cc

module _ (current_it other_it : IdIterator) (sound : IsSound current_it other_it) (s : State)
    (v : StateInv current_it other_it sound s)
    (ended : s.other.last_remapped_id ≡ other_it.min_id) where
  abbrev m : MergedIds
  m = merged current_it other_it s

  -- The ids that are not remapped lie below all new ids that were given.
  new_ids_above : s.curr_new_id ≡ s.current.last_remapped_id
  new_ids_above = omega (arith, v, ended, sound)

  other_lookup :
      (j : ℕ)
      → other_it.min_id ≤ j
      → other_id_to_new_id m j ≡ get_elem? s.other.new_ids (j - other_it.min_id)
  unfolding merged other_id_to_new_id
  other_lookup j h = elim (Bool-cases (ltb j s.other.last_remapped_id)) [
    | inl t ↦ absurd (ground arith)
    | inr t ↦ rw t (rw ended refl)
  ]

  other_low : (j n : ℕ) → other_id_to_new_id m j ≡ some n → other_it.min_id ≤ j
  unfolding merged other_id_to_new_id
  other_low j n h = ground arith

  current_kept :
      (i : ℕ)
      → current_it.min_id ≤ i
      → i < s.current.last_remapped_id
      → current_id_to_new_id m i ≡ some i
  unfolding merged current_id_to_new_id
  current_kept i h k = ground arith

  current_lookup :
      (i : ℕ)
      → s.current.last_remapped_id ≤ i
      → current_id_to_new_id m i ≡ get_elem? s.current.new_ids (i - s.current.last_remapped_id)
  unfolding merged current_id_to_new_id
  current_lookup i h = ground (arith, v.current_low)

  current_low : (i n : ℕ) → current_id_to_new_id m i ≡ some n → current_it.min_id ≤ i
  unfolding merged current_id_to_new_id
  current_low i n h = ground arith

  -- What a lookup among the remapped ids gives.
  remapped :
      (i n : ℕ)
      → get_elem? s.current.new_ids i ≡ some n
      → (s.current.last_remapped_id ≤ n) × (n < total current_it other_it sound)
  remapped i n e =
      let (k, p, a, b) =
        get_elem?-Ascends s.curr_new_id (total current_it other_it sound) s.current.new_ids i
          (in_range s.current.new_ids i n e) v.current_ascends in
      let q : k ≡ n = cc in (omega (arith, new_ids_above), omega arith)

  other_remapped :
      (i n : ℕ)
      → get_elem? s.other.new_ids i ≡ some n
      → (s.current.last_remapped_id ≤ n) × (n < total current_it other_it sound)
  other_remapped i n e =
      let (k, p, a, b) =
        get_elem?-Ascends s.curr_new_id (total current_it other_it sound) s.other.new_ids i
          (in_range s.other.new_ids i n e) v.other_ascends in
      let q : k ≡ n = cc in (omega (arith, new_ids_above), omega arith)

  current_found :
      (i : ℕ)
      → current_it.min_id ≤ i
      → i < current_it.max_id_plus_one
      → (n : ℕ) × (current_id_to_new_id m i ≡ some n)
        × (current_it.min_id ≤ n)
        × (n < total current_it other_it sound)
  current_found i h k = elim (dec_lt i s.current.last_remapped_id) [
    | yes l ↦ (i, current_kept i h l, h, omega (arith, sound))
    | no l ↦
        let (n, e, a, b) =
          get_elem?-Ascends s.curr_new_id (total current_it other_it sound) s.current.new_ids
            (i - s.current.last_remapped_id) (omega (arith, v)) v.current_ascends in
        (n, current_lookup i (omega arith) ∙ e, omega (arith, new_ids_above, v), b)
  ]

  other_found :
      (i : ℕ)
      → other_it.min_id ≤ i
      → i < other_it.max_id_plus_one
      → (n : ℕ) × (other_id_to_new_id m i ≡ some n)
        × (current_it.min_id ≤ n)
        × (n < total current_it other_it sound)
  other_found i h k =
      let (n, e, a, b) =
        get_elem?-Ascends s.curr_new_id (total current_it other_it sound) s.other.new_ids
          (i - other_it.min_id) (omega (arith, v, ended)) v.other_ascends in
      (n, other_lookup i h ∙ e, omega (arith, new_ids_above, v), b)

  current_cases :
      (i n : ℕ)
      → current_id_to_new_id m i ≡ some n
      → ((i < s.current.last_remapped_id) × (n ≡ i))
        ⊎ ((s.current.last_remapped_id ≤ i)
            × (get_elem? s.current.new_ids (i - s.current.last_remapped_id) ≡ some n))
  current_cases i n e = elim (dec_lt i s.current.last_remapped_id) [
    | yes l ↦ inl (l, some_inj (sym e ∙ current_kept i (current_low i n e) l))
    | no l ↦ inr (omega arith, sym (current_lookup i (omega arith)) ∙ e)
  ]

  current_lt :
      (i j a b : ℕ)
      → i < j
      → current_id_to_new_id m i ≡ some a
      → current_id_to_new_id m j ≡ some b
      → a < b
  current_lt i j a b h p q = elim (current_cases i a p) [
    | inl (l, e) ↦ elim (current_cases j b q) [
      | inl (k, f) ↦ omega arith
      | inr (k, f) ↦ omega (arith, remapped _ b f)
    ]
    | inr (l, e) ↦ elim (current_cases j b q) [
      | inl (k, f) ↦ absurd (omega arith)
      | inr (k, f) ↦
          get_elem?_lt s.curr_new_id (total current_it other_it sound) s.current.new_ids _ _ a b
            (omega arith) v.current_ascends e f
    ]
  ]

  other_lt :
      (i j a b : ℕ)
      → i < j
      → other_id_to_new_id m i ≡ some a
      → other_id_to_new_id m j ≡ some b
      → a < b
  other_lt i j a b h p q =
      get_elem?_lt s.curr_new_id (total current_it other_it sound) s.other.new_ids
        (i - other_it.min_id) (j - other_it.min_id) a b (omega (arith, other_low i a p))
        v.other_ascends (sym (other_lookup i (other_low i a p)) ∙ p)
        (sym (other_lookup j (other_low j b q)) ∙ q)

  sides_apart :
      (i j a b : ℕ) → current_id_to_new_id m i ≡ some a → other_id_to_new_id m j ≡ some b → a ≢ b
  sides_apart i j a b p q = elim (current_cases i a p) [
    | inl (l, e) ↦ omega (arith, other_remapped _ b (sym (other_lookup j (other_low j b q)) ∙ q))
    | inr (l, e) ↦
        get_elem?-Disjoint s.current.new_ids s.other.new_ids _ _ a b v.disjoint e
          (sym (other_lookup j (other_low j b q)) ∙ q)
  ]

  ended-IsMerge : IsMerge current_it other_it m
  unfolding merged
  ended-IsMerge = record {
    size = omega (arith, sound, max_new_id-eq-total current_it other_it sound);
    current_total = λ id h k.
        let (n, e, a, b) = current_found id h k in
        (n, e, a, omega (arith, max_new_id-eq-total current_it other_it sound));
    other_total = λ id h k.
        let (n, e, a, b) = other_found id h k in
        (n, e, a, omega (arith, max_new_id-eq-total current_it other_it sound));
    current_mono = current_lt;
    other_mono = other_lt;
    apart = sides_apart;
  }

-- Let the iterators give proper ranges of ids that fit in 64 bits together. Then `merge_ids` ends
-- and gives two maps, that together are a bijection: each id of either database has a new id in the
-- new range, which is as large as both ranges together; ids of one database keep their order; and
-- no new id stands for an id of each database.
pub merge_ids-IsMerge :
    (current_it other_it : IdIterator)
    → IsSound current_it other_it
    → (m : MergedIds) × (merge_ids current_it other_it ≡ some m) × IsMerge current_it other_it m
unfolding merge_ids
merge_ids-IsMerge current_it other_it sound =
    let (s, e, v, ended) =
      run_ends current_it other_it sound (rounds current_it other_it) (start current_it other_it)
        (start-Inv current_it other_it sound) (left-start current_it other_it sound) in
    (merged current_it other_it s, rw e refl, ended-IsMerge current_it other_it sound s v ended)
