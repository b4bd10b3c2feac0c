-- ===== src/Finals/Ids.antt =====
-- The table of submissions has `id` for its primary key: no two rows share one.
use sim_project.Common.{
  ℕ, ◌≡◌, sym, ◌∙◌, ◌≢◌, List, [], ◌∷◌, map, In, All, All-at, inl, inr, ap, In-map,
}
use sim_project.Schema.Submissions.{Submission}

abbrev pub ids : List Submission → List ℕ
ids = map (λ r. r.id)

abbrev pub Distinct : List ℕ → Type 0
Distinct [] = Unit
Distinct (n ∷ ns) = All (λ m. n ≢ m) ns × Distinct ns

-- A row is found by its id.
pub same_id :
    (rows : List Submission) (r s : Submission)
    → Distinct (ids rows)
    → In r rows
    → In s rows
    → r.id ≡ s.id
    → r ≡ s
same_id [] r s d i j e = elim i [ ]
same_id (x ∷ rows) r s d (inl p) (inl q) e = p ∙ sym q
same_id (x ∷ rows) r s d (inl p) (inr j) e = absurd (
    All-at (λ m. x.id ≢ m) s.id (ids rows) d.0 (In-map (λ u. u.id) s rows j)
      (sym (ap (λ u. u.id) p) ∙ e))
same_id (x ∷ rows) r s d (inr i) (inl q) e = absurd (
    All-at (λ m. x.id ≢ m) r.id (ids rows) d.0 (In-map (λ u. u.id) r rows i)
      (sym (ap (λ u. u.id) q) ∙ sym e))
same_id (x ∷ rows) r s d (inr i) (inr j) e = same_id rows r s d.1 i j e
