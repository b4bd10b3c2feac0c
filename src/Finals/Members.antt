-- ===== src/Finals/Members.antt =====
-- Whether the mark of a group is right depends on the candidates and the rows of the group only.
use sim_project.Common.{
  ℕ, ◌≡◌, ◌≢◌, refl, Bool, true, false, not, Bool-cases, keep, keep-In, In-keep, List, [], ◌∷◌, In,
  All, inl, inr, arith,
}
use sim_project.Sql.{Comparator, delete_where}
use sim_project.Schema.Submissions.{Submission}
use sim_project.Finals.Reselect.{Column}
use sim_project.Finals.Ids.{ids, Distinct}
use sim_project.Finals.Keeps.{Chosen}

module _ (column : Column) (group candidate : Submission → Bool)
    (order : Comparator Submission) where
  -- Rows come and go, but none of the group come, and no candidates of it go.
  pub Chosen-members :
      (rows rows' : List Submission)
      → ((r : Submission) → In r rows' → group r ≡ true → In r rows)
      → ((r : Submission) → In r rows → group r ≡ true → candidate r ≡ true → In r rows')
      → Chosen column group candidate order rows
      → Chosen column group candidate order rows'
  Chosen-members rows rows' old kept chosen r i g =
      let c = chosen r (old r i g) g in
      (
        (λ t.
            let b = c.0 t in
            record {
              is_candidate = b.is_candidate;
              is_first = λ s j d k. b.is_first s (old s j k) d k;
            }),
        (λ b. c.1 (record {
          is_candidate = b.is_candidate;
          is_first = λ s j d k. b.is_first s (kept s j k d) d k;
        })),
      )

  pub Chosen-empty :
      (rows : List Submission)
      → ((r : Submission) → In r rows → group r ≡ false)
      → Chosen column group candidate order rows
  Chosen-empty rows none r i g = absurd (ground (arith, none r i))

  -- A DELETE of rows that are not candidates of the group.
  pub Chosen-delete :
      (test : Submission → Bool) (rows : List Submission)
      → ((r : Submission) → In r rows → test r ≡ true → group r ≡ true → candidate r ≡ false)
      → Chosen column group candidate order rows
      → Chosen column group candidate order (delete_where test rows)
  unfolding delete_where
  Chosen-delete test rows gone =
      Chosen-members rows (keep (λ r. not (test r)) rows)
        (λ r i g. (keep-In (λ r. not (test r)) r rows i).0)
        (λ r i g c. elim (Bool-cases (test r)) [
          | inl t ↦ absurd (ground (arith, gone r i t g))
          | inr n ↦ In-keep (λ r. not (test r)) r rows i (rw n refl)
        ])

All-ids-keep :
    (test : Submission → Bool) (n : ℕ) (rows : List Submission)
    → All (λ m. n ≢ m) (ids rows)
    → All (λ m. n ≢ m) (ids (keep test rows))
unfolding keep
All-ids-keep test n [] a = a
All-ids-keep test n (r ∷ rows) (a, b) = elim (Bool-cases (test r)) [
  | inl t ↦ rw t (a, All-ids-keep test n rows b)
  | inr f ↦ rw f (All-ids-keep test n rows b)
]

Distinct-keep :
    (test : Submission → Bool) (rows : List Submission)
    → Distinct (ids rows)
    → Distinct (ids (keep test rows))
unfolding keep
Distinct-keep test [] d = d
Distinct-keep test (r ∷ rows) (a, d) = elim (Bool-cases (test r)) [
  | inl t ↦ rw t (All-ids-keep test r.id rows a, Distinct-keep test rows d)
  | inr f ↦ rw f (Distinct-keep test rows d)
]

-- A DELETE keeps the ids distinct.
pub Distinct-delete :
    (test : Submission → Bool) (rows : List Submission)
    → Distinct (ids rows)
    → Distinct (ids (delete_where test rows))
unfolding delete_where
Distinct-delete test rows = Distinct-keep (λ r. not (test r)) rows
