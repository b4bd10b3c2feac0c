-- ===== src/Sql/Order.antt =====
-- Sort keys that are total preorders, and their composition by ORDER BY.
use sim_project.Common.{ℕ, ◌≡◌, Bool, true, false, Option, ℤ, arith, compare, compare_ℤ, Ordering}
use sim_project.Sql.{Comparator, then_by, descending, compare_nullable}

abbrev pub not_after : Ordering → Bool
not_after Ordering.gt = false
not_after _ = true

pub record IsOrder {A : Type 0} (c : Comparator A) : Type 0 where
  pub swap : (a b : A) → c b a ≡ descending (c a b)
  pub trans :
      (a b d : A) → not_after (c a b) ≡ true → not_after (c b d) ≡ true → not_after (c a d) ≡ true

pub IsOrder-refl : {A : Type 0} (c : Comparator A) → IsOrder c → (a : A) → c a a ≡ Ordering.eq
IsOrder-refl c o a = ground (arith, o.swap a a)

pub compare_by-IsOrder : {A : Type 0} (key : A → ℕ) → IsOrder (λ a b. compare (key a) (key b))
compare_by-IsOrder key = record { swap = λ a b. ground arith; trans = λ a b d p q. ground arith }

pub compare_ℤ-IsOrder : IsOrder compare_ℤ
compare_ℤ-IsOrder = record { swap = λ a b. ground arith; trans = λ a b d p q. ground arith }

nullable_swap : (a b : Option ℤ) → compare_nullable b a ≡ descending (compare_nullable a b)
nullable_swap a b = ground arith

nullable_trans :
    (a b d : Option ℤ)
    → not_after (compare_nullable a b) ≡ true
    → not_after (compare_nullable b d) ≡ true
    → not_after (compare_nullable a d) ≡ true
nullable_trans a b d p q = ground arith

pub nullable_by-IsOrder :
    {A : Type 0} (key : A → Option ℤ) → IsOrder (λ a b. compare_nullable (key a) (key b))
nullable_by-IsOrder key = record {
  swap = λ a b. nullable_swap (key a) (key b);
  trans = λ a b d. nullable_trans (key a) (key b) (key d);
}

pub descending-IsOrder :
    {A : Type 0} (c : Comparator A) → IsOrder c → IsOrder (λ a b. descending (c a b))
descending-IsOrder c o = record {
  swap = λ a b. ground (arith, o.swap a b);
  trans = λ a b d p q. ground (arith, o.swap a b, o.swap b d, o.swap a d, o.trans d b a);
}

pub then_by-IsOrder :
    {A : Type 0} (c e : Comparator A)
    → IsOrder c
    → IsOrder e
    → IsOrder (λ a b. then_by (c a b) (e a b))
then_by-IsOrder c e o v = record {
  swap = λ a b. ground (arith, o.swap a b, v.swap a b);
  trans = λ a b d p q. ground (
    arith,
    o.swap a b,
    o.swap b d,
    o.swap a d,
    o.trans a b d,
    o.trans d a b,
    o.trans b d a,
    v.trans a b d,
  );
}
