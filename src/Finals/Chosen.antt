-- ===== src/Finals/Chosen.antt =====
-- Which rows bear the mark after `reselect`: exactly the best candidate of the group.
use sim_project.Common.{
  ◌≡◌, refl, sym, ◌∙◌, ◌↔◌, Bool, true, false, ◌&&◌, ◌==◌, ==_iff, Bool-cases, if◌then◌else◌, List,
  [], ◌∷◌, Option, none, some, In, In-map, map-In, In-keep, keep-In, All-at, keep, arith, Ordering,
  inl, inr, subst, ap,
}
use sim_project.Sql.{Comparator, update_where, first_by}
use sim_project.Sql.Order.{IsOrder, not_after}
use sim_project.Sql.First.{IsFirst, first_by-IsFirst, first_by-none}
use sim_project.Schema.Submissions.{Submission}
use sim_project.Finals.Reselect.{Column, unset, set_first, reselect}
use sim_project.Finals.Ids.{ids, Distinct, same_id}

-- The column is no part of the primary key, the group, the candidates or the sort keys, and the
-- sort keys end with the primary key.
pub record IsLawful (column : Column) (group candidate : Submission → Bool)
    (order : Comparator Submission) : Type 0 where
  pub get_put : (b : Bool) (r : Submission) → column.get (column.put b r) ≡ b
  pub id_put : (b : Bool) (r : Submission) → (column.put b r).id ≡ r.id
  pub group_put : (b : Bool) (r : Submission) → group (column.put b r) ≡ group r
  pub candidate_put : (b : Bool) (r : Submission) → candidate (column.put b r) ≡ candidate r
  pub order_left : (b : Bool) (r s : Submission) → order (column.put b r) s ≡ order r s
  pub order_right : (b : Bool) (r s : Submission) → order r (column.put b s) ≡ order r s
  pub is_order : IsOrder order
  pub order_id : (r s : Submission) → order r s ≡ Ordering.eq → r.id ≡ s.id

-- A candidate of the group, such that no candidate of the group comes before it.
pub record IsBest (group candidate : Submission → Bool) (order : Comparator Submission)
    (rows : List Submission) (r : Submission) : Type 0 where
  pub is_candidate : candidate r ≡ true
  pub is_first :
      (s : Submission)
      → In s rows
      → candidate s ≡ true
      → group s ≡ true
      → not_after (order r s) ≡ true

module _ (column : Column) (group candidate : Submission → Bool) (order : Comparator Submission)
    (law : IsLawful column group candidate order) where
  -- What one UPDATE of the column makes of a row.
  abbrev put_if : Bool → Bool → Submission → Submission
  put_if t b r = if t then column.put b r else r

  put_if-id : (t b : Bool) (r : Submission) → (put_if t b r).id ≡ r.id
  put_if-id t b r = ground (arith, law.id_put b r)

  put_if-group : (t b : Bool) (r : Submission) → group (put_if t b r) ≡ group r
  put_if-group true b r = law.group_put b r
  put_if-group false b r = refl

  put_if-candidate : (t b : Bool) (r : Submission) → candidate (put_if t b r) ≡ candidate r
  put_if-candidate true b r = law.candidate_put b r
  put_if-candidate false b r = refl

  put_if-order : (t u b : Bool) (r s : Submission) → order (put_if t b r) (put_if u b s) ≡ order r s
  put_if-order true true b r s = law.order_left b r (column.put b s) ∙ law.order_right b r s
  put_if-order true false b r s = law.order_left b r s
  put_if-order false true b r s = law.order_right b r s
  put_if-order false false b r s = refl

  ids-put_if :
      (test : Submission → Bool) (b : Bool) (rows : List Submission)
      → ids (update_where test (column.put b) rows) ≡ ids rows
  unfolding update_where
  ids-put_if test b [] = refl
  ids-put_if test b (r ∷ rows) = rw (put_if-id (test r) b r, ids-put_if test b rows) refl

  ids-unset : (rows : List Submission) → ids (unset column group rows) ≡ ids rows
  unfolding unset
  ids-unset rows = ids-put_if (λ r. group r && column.get r) false rows

  ids-set_first :
      (found : Option Submission) (rows : List Submission)
      → ids (set_first column found rows) ≡ ids rows
  unfolding set_first
  ids-set_first none rows = refl
  ids-set_first (some best) rows = ids-put_if (λ r. r.id == best.id) true rows

  pub unset_distinct :
      (rows : List Submission) → Distinct (ids rows) → Distinct (ids (unset column group rows))
  unfolding unset
  unset_distinct rows d = rw (ids-put_if (λ r. group r && column.get r) false rows) d

  -- After the first statement no row of the group is marked.
  unset_unmarked :
      (rows : List Submission) (r : Submission)
      → In r (unset column group rows)
      → group r ≡ true
      → column.get r ≡ false
  unfolding unset update_where
  unset_unmarked rows r i g =
      let (s, _, e) = map-In _ r rows i in
      let g' : group s ≡ true =
        sym (put_if-group (group s && column.get s) false s) ∙ sym (ap group e) ∙ g in
      rw e (elim (Bool-cases (column.get s)) [
        | inl t ↦ rw (g', t) (law.get_put false s)
        | inr t ↦ rw (g', t) t
      ])

  -- A row that beats every candidate is the one that the query gives.
  module _ (rows : List Submission) (distinct : Distinct (ids rows))
      (unmarked : (r : Submission) → In r rows → group r ≡ true → column.get r ≡ false) where
    abbrev candidates : List Submission
    candidates = keep (λ r. candidate r && group r) rows

    candidate_of :
        (s : Submission) → In s rows → candidate s ≡ true → group s ≡ true → In s candidates
    candidate_of s i c g = In-keep (λ r. candidate r && group r) s rows i (rw (c, g))

    set_none-chosen :
        (r : Submission)
        → candidates ≡ []
        → In r rows
        → group r ≡ true
        → (column.get r ≡ true) ↔ IsBest group candidate order rows r
    set_none-chosen r e i g =
        (λ t. cc (unmarked r i g), λ b. absurd (subst (In r) e (candidate_of r i b.is_candidate g)))

    module _ (best : Submission) (first : IsFirst order best candidates) where
      best_In : In best rows × (candidate best && group best ≡ true)
      best_In = keep-In (λ r. candidate r && group r) best rows first.0

      best_before :
          (s : Submission)
          → In s rows
          → candidate s ≡ true
          → group s ≡ true
          → not_after (order best s) ≡ true
      best_before s i c g =
          All-at (λ z. not_after (order best z) ≡ true) s candidates first.1 (candidate_of s i c g)

      abbrev marked : Submission → Submission
      marked s = put_if (s.id == best.id) true s

      marked-In :
          (r : Submission)
          → In r (set_first column (some best) rows)
          → (s : Submission) × In s rows × (r ≡ marked s)
      unfolding set_first update_where
      marked-In r i = map-In _ r rows i

      In-marked : (s : Submission) → In s rows → In (marked s) (set_first column (some best) rows)
      unfolding set_first update_where
      In-marked s i = In-map marked s rows i

      marked_best :
          (s : Submission) → In s rows → group s ≡ true → column.get (marked s) ≡ true → s ≡ best
      marked_best s i g t = elim (Bool-cases (s.id == best.id)) [
        | inl e ↦ same_id rows s best distinct i best_In.0 ((==_iff s.id best.id).0 e)
        | inr e ↦ cc (unmarked s i g, rw e at t)
      ]

      found-IsBest : IsBest group candidate order (set_first column (some best) rows) (marked best)
      found-IsBest = record {
        is_candidate = put_if-candidate (best.id == best.id) true best ∙ ground (arith, best_In.1);
        is_first = λ s i c g.
            let (u, j, e) = marked-In s i in
            rw (e, put_if-order (best.id == best.id) (u.id == best.id) true best u)
              (best_before u j
                (sym (put_if-candidate (u.id == best.id) true u) ∙ sym (ap candidate e) ∙ c)
                (sym (put_if-group (u.id == best.id) true u) ∙ sym (ap group e) ∙ g));
      }

      -- Two candidates of which neither comes after the other are one row.
      tie :
          (s : Submission)
          → not_after (order s best) ≡ true
          → not_after (order best s) ≡ true
          → s.id ≡ best.id
      tie s p q = law.order_id s best (ground (arith, law.is_order.swap s best))

      marked_get : (s : Submission) → s.id ≡ best.id → column.get (marked s) ≡ true
      marked_get s e = rw ((==_iff s.id best.id).1 e) (law.get_put true s)

      best_group : group (marked best) ≡ true
      best_group = put_if-group (best.id == best.id) true best ∙ ground (arith, best_In.1)

      IsBest-marked :
          (s : Submission)
          → In s rows
          → group s ≡ true
          → IsBest group candidate order (set_first column (some best) rows) (marked s)
          → column.get (marked s) ≡ true
      IsBest-marked s i g b =
          let c : candidate s ≡ true =
            sym (put_if-candidate (s.id == best.id) true s) ∙ b.is_candidate in
          let p : not_after (order s best) ≡ true =
            subst (λ o. not_after o ≡ true)
              (put_if-order (s.id == best.id) (best.id == best.id) true s best)
              (b.is_first (marked best) (In-marked best best_In.0) (found-IsBest.is_candidate)
                best_group) in
          marked_get s (tie s p (best_before s i c g))

      set_some-chosen :
          (r : Submission)
          → In r (set_first column (some best) rows)
          → group r ≡ true
          → (column.get r ≡ true)
            ↔ IsBest group candidate order (set_first column (some best) rows) r
      set_some-chosen r i g =
          let (s, j, e) = marked-In r i in
          let h : group s ≡ true =
            sym (put_if-group (s.id == best.id) true s) ∙ sym (ap group e) ∙ g in
          rw e ((λ t. rw (marked_best s j h t) found-IsBest), (λ b. IsBest-marked s j h b))

    set_first-chosen :
        (found : Option Submission)
        → first_by order candidates ≡ found
        → (r : Submission) → In r (set_first column found rows)
        → group r ≡ true
        → (column.get r ≡ true) ↔ IsBest group candidate order (set_first column found rows) r
    unfolding set_first
    set_first-chosen none e r i g =
        set_none-chosen r (first_by-none order law.is_order candidates e) i g
    set_first-chosen (some best) e r i g =
        set_some-chosen best (first_by-IsFirst order law.is_order candidates best e) r i g

  -- After `reselect` a row of the group bears the mark exactly if it is the group's best candidate.
  pub reselect-chosen :
      (rows : List Submission)
      → Distinct (ids rows)
      → (r : Submission) → In r (reselect column group candidate order rows)
      → group r ≡ true
      → (column.get r ≡ true)
        ↔ IsBest group candidate order (reselect column group candidate order rows) r
  unfolding reselect
  reselect-chosen rows d r i g =
      set_first-chosen (unset column group rows) (unset_distinct rows d) (unset_unmarked rows) _
        refl r i g

  pub ids-reselect :
      (rows : List Submission) → ids (reselect column group candidate order rows) ≡ ids rows
  unfolding reselect
  ids-reselect rows =
      let rows' = unset column group rows in
      ids-set_first (first_by order (keep (λ r. candidate r && group r) rows')) rows'
      ∙ ids-unset rows
