-- ===== src/Finals/Keeps.antt =====
-- `reselect` leaves alone whatever is not its own: the marks of other columns and of other groups.
use sim_project.Common.{
  arith, ◌≡◌, refl, sym, ◌∙◌, ◌↔◌, Bool, true, false, ◌&&◌, ◌==◌, ==_iff, if◌then◌else◌, List, map,
  Option, none, some, In, In-map, map-In, keep-In, ap, subst,
}
use sim_project.Sql.{Comparator, update_where}
use sim_project.Sql.Order.{not_after}
use sim_project.Sql.First.{first_by-IsFirst}
use sim_project.Schema.Submissions.{Submission}
use sim_project.Finals.Reselect.{Column, unset, set_first, reselect}
use sim_project.Finals.Ids.{ids, Distinct, same_id}
use sim_project.Finals.Chosen.{IsLawful, IsBest, unset_distinct}

-- In the table `rows` the column marks the best candidate of the group, and no other of the group.
abbrev pub Chosen :
    Column
    → (Submission → Bool)
    → (Submission → Bool)
    → Comparator Submission
    → List Submission
    → Type 0
Chosen column group candidate order rows =
    (r : Submission)
    → In r rows
    → group r ≡ true
    → (column.get r ≡ true) ↔ IsBest group candidate order rows r

-- A change of the rows that keeps the mark, the group, the candidates and the order.
pub record IsHarmless (column : Column) (group candidate : Submission → Bool)
    (order : Comparator Submission) (f : Submission → Submission) (rows : List Submission)
    : Type 0 where
  pub keeps_group : (r : Submission) → In r rows → group (f r) ≡ group r
  pub keeps_get : (r : Submission) → In r rows → group r ≡ true → column.get (f r) ≡ column.get r
  pub keeps_candidate :
      (r : Submission) → In r rows → group r ≡ true → candidate (f r) ≡ candidate r
  pub keeps_order :
      (r s : Submission)
      → In r rows
      → In s rows
      → group r ≡ true
      → group s ≡ true
      → order (f r) (f s) ≡ order r s

module _ (column : Column) (group candidate : Submission → Bool)
    (order : Comparator Submission) where
  IsBest-map :
      (f : Submission → Submission) (rows : List Submission)
      → IsHarmless column group candidate order f rows
      → (r : Submission) → In r rows
      → group r ≡ true
      → IsBest group candidate order rows r ↔ IsBest group candidate order (map f rows) (f r)
  IsBest-map f rows h r i g = (
    (λ b. record {
      is_candidate = h.keeps_candidate r i g ∙ b.is_candidate;
      is_first = λ s j c k.
          let (u, l, e) = map-In f s rows j in
          let gu : group u ≡ true = sym (h.keeps_group u l) ∙ sym (ap group e) ∙ k in
          rw (e, h.keeps_order r u i l g gu)
            (b.is_first u l (sym (h.keeps_candidate u l gu) ∙ sym (ap candidate e) ∙ c) gu);
    }),
    (λ b. record {
      is_candidate = sym (h.keeps_candidate r i g) ∙ b.is_candidate;
      is_first = λ s j c k.
          subst (λ o. not_after o ≡ true) (h.keeps_order r s i j g k)
            (b.is_first (f s) (In-map f s rows j) (h.keeps_candidate s j k ∙ c)
              (h.keeps_group s j ∙ k));
    }),
  )

  pub Chosen-map :
      (f : Submission → Submission) (rows : List Submission)
      → IsHarmless column group candidate order f rows
      → Chosen column group candidate order rows
      → Chosen column group candidate order (map f rows)
  Chosen-map f rows h chosen r i g =
      let (u, j, e) = map-In f r rows i in
      let gu : group u ≡ true = sym (h.keeps_group u j) ∙ sym (ap group e) ∙ g in
      let same = IsBest-map f rows h u j gu in
      rw e (
        (λ t. same.0 ((chosen u j gu).0 (sym (h.keeps_get u j gu) ∙ t))),
        (λ b. h.keeps_get u j gu ∙ (chosen u j gu).1 (same.1 b)),
      )

-- A column `moved` that is no part of a group, its candidates and their order, and that is not the
-- column which marks the group, or else is moved in other groups only.
pub record IsApart (moved : Column) (group' : Submission → Bool) (column : Column)
    (group candidate : Submission → Bool) (order : Comparator Submission) : Type 0 where
  pub group_put : (b : Bool) (r : Submission) → group (moved.put b r) ≡ group r
  pub candidate_put : (b : Bool) (r : Submission) → candidate (moved.put b r) ≡ candidate r
  pub order_left : (b : Bool) (r s : Submission) → order (moved.put b r) s ≡ order r s
  pub order_right : (b : Bool) (r s : Submission) → order r (moved.put b s) ≡ order r s
  pub apart :
      (b : Bool) (r : Submission)
      → group r ≡ true
      → group' r ≡ true
      → column.get (moved.put b r) ≡ column.get r

module _ (moved : Column) (group' : Submission → Bool) (column : Column)
    (group candidate : Submission → Bool) (order : Comparator Submission)
    (far : IsApart moved group' column group candidate order) where
  abbrev put_if : Bool → Bool → Submission → Submission
  put_if t b r = if t then moved.put b r else r

  put_if-order : (t u b : Bool) (r s : Submission) → order (put_if t b r) (put_if u b s) ≡ order r s
  put_if-order true true b r s = far.order_left b r (moved.put b s) ∙ far.order_right b r s
  put_if-order true false b r s = far.order_left b r s
  put_if-order false true b r s = far.order_right b r s
  put_if-order false false b r s = refl

  put_if-get :
      (t b : Bool) (r : Submission)
      → group r ≡ true
      → (t ≡ true → group' r ≡ true)
      → column.get (put_if t b r) ≡ column.get r
  put_if-get true b r g k = far.apart b r g (k refl)
  put_if-get false b r g k = refl

  -- An UPDATE of the moved column that touches rows of `group'` only.
  update-IsHarmless :
      (test : Submission → Bool) (b : Bool) (rows : List Submission)
      → ((r : Submission) → In r rows → test r ≡ true → group' r ≡ true)
      → IsHarmless column group candidate order (λ r. put_if (test r) b r) rows
  update-IsHarmless test b rows touched = record {
    keeps_group = λ r i. ground (arith, far.group_put b r);
    keeps_get = λ r i g. put_if-get (test r) b r g (touched r i);
    keeps_candidate = λ r i g. ground (arith, far.candidate_put b r);
    keeps_order = λ r s i j g k. put_if-order (test r) (test s) b r s;
  }

  unset-Chosen :
      (rows : List Submission)
      → Chosen column group candidate order rows
      → Chosen column group candidate order (unset moved group' rows)
  unfolding unset update_where
  unset-Chosen rows =
      Chosen-map column group candidate order _ rows
        (update-IsHarmless (λ r. group' r && moved.get r) false rows (λ r i t. ground arith))

  set_first-Chosen :
      (rows : List Submission)
      → Distinct (ids rows)
      → (found : Option Submission)
      → ((best : Submission) → found ≡ some best → In best rows × (group' best ≡ true))
      → Chosen column group candidate order rows
      → Chosen column group candidate order (set_first moved found rows)
  unfolding set_first update_where
  set_first-Chosen rows d none h c = c
  set_first-Chosen rows d (some best) h c =
      let (i, g) = h best refl in
      Chosen-map column group candidate order _ rows
        (update-IsHarmless (λ r. r.id == best.id) true rows
          (λ r j t. rw (same_id rows r best d j i ((==_iff r.id best.id).0 t)) g))
        c

  -- Moving the other mark leaves this one where it belongs.
  pub reselect-Chosen :
      (candidate' : Submission → Bool) (order' : Comparator Submission)
      → IsLawful moved group' candidate' order'
      → (rows : List Submission) → Distinct (ids rows)
      → Chosen column group candidate order rows
      → Chosen column group candidate order (reselect moved group' candidate' order' rows)
  unfolding reselect
  reselect-Chosen candidate' order' law rows d c =
      let rows' = unset moved group' rows in
      set_first-Chosen rows' (unset_distinct moved group' candidate' order' law rows d) _
        (λ best e.
          let first = first_by-IsFirst order' law.is_order _ best e in
          let (i, t) = keep-In (λ r. candidate' r && group' r) best rows' first.0 in
          (i, ground arith))
        (unset-Chosen rows c)
