-- ===== src/Finals/Outside.antt =====
-- A change of rows outside a group leaves the mark of the group right.
use sim_project.Common.{
  ◌⊎◌, ◌&&◌, ◌||◌, ◌≡◌, refl, sym, ◌∙◌, ap, Bool, true, false, if◌then◌else◌, Bool-cases, inl, inr,
  List, [], ◌∷◌, In, arith,
}
use sim_project.Sql.Find.{exists_or_none}
use sim_project.Sql.{Comparator, update_where}
use sim_project.Schema.Submissions.{Submission}
use sim_project.Finals.Reselect.{Column}
use sim_project.Finals.Ids.{ids}
use sim_project.Finals.Keeps.{Chosen, Chosen-map, IsHarmless}

module _ (column : Column) (group candidate : Submission → Bool) (order : Comparator Submission)
    (test : Submission → Bool) (change : Submission → Submission) (rows : List Submission)
    (outside : (r : Submission)
      → In r rows
      → test r ≡ true
      → (group r ≡ false) × (group (change r) ≡ false)) where
  abbrev changed : Submission → Submission
  changed r = if test r then change r else r

  -- A row of the group is not changed.
  changed-same : (r : Submission) → In r rows → group r ≡ true → changed r ≡ r
  changed-same r i g = elim (Bool-cases (test r)) [
    | inl t ↦ absurd (ground (arith, (outside r i t).0))
    | inr t ↦ rw t refl
  ]

  changed-group : (r : Submission) → In r rows → group (changed r) ≡ group r
  changed-group r i = elim (Bool-cases (test r)) [
    | inl t ↦ rw t ((outside r i t).1 ∙ sym (outside r i t).0)
    | inr t ↦ rw t refl
  ]

  changed-IsHarmless : IsHarmless column group candidate order changed rows
  changed-IsHarmless = record {
    keeps_group = changed-group;
    keeps_get = λ r i g. ap column.get (changed-same r i g);
    keeps_candidate = λ r i g. ap candidate (changed-same r i g);
    keeps_order = λ r s i j g k. rw (changed-same r i g, changed-same s j k) refl;
  }

  pub update_where-Chosen :
      Chosen column group candidate order rows
      → Chosen column group candidate order (update_where test change rows)
  unfolding update_where
  update_where-Chosen = Chosen-map column group candidate order changed rows changed-IsHarmless

if_same_id : (t : Bool) (r s : Submission) → s.id ≡ r.id → (if t then s else r).id ≡ r.id
if_same_id true r s e = e
if_same_id false r s e = refl

pub ids-update_where :
    (test : Submission → Bool) (change : Submission → Submission)
    → ((r : Submission) → (change r).id ≡ r.id)
    → (rows : List Submission) → ids (update_where test change rows) ≡ ids rows
unfolding update_where
ids-update_where test change same [] = refl
ids-update_where test change same (r ∷ rows) =
    cc (if_same_id (test r) r (change r) (same r), ids-update_where test change same rows)

-- A change of rows leaves the mark of a group right, or one of the rows is or gets into the group.
pub update_where-touched :
    (column : Column) (group candidate : Submission → Bool) (order : Comparator Submission)
    (test : Submission → Bool) (change : Submission → Submission) (rows : List Submission)
    → Chosen column group candidate order rows
    → Chosen column group candidate order (update_where test change rows)
      ⊎ ((r : Submission) × In r rows × (test r ≡ true) × (group r || group (change r) ≡ true))
update_where-touched column group candidate order test change rows chosen =
    elim (exists_or_none (λ r. test r && (group r || group (change r))) rows) [
      | inl (r, i, t) ↦ inr (r, i, ground arith, ground arith)
      | inr n ↦ inl (
          update_where-Chosen column group candidate order test change rows
            (λ r i t. (ground (arith, n r i), ground (arith, n r i))) chosen)
    ]
