-- ===== src/Finals/Reselect.antt =====
-- A column that marks one row of a group, and the statements by which update_final.cc moves the
-- mark: unset it in the group, take the first candidate of the group, set it there.
use sim_project.Common.{Bool, true, false, ◌&&◌, ◌==◌, List, Option, none, some}
use sim_project.Sql.{Comparator, update_where, first_by}
use sim_project.Common.{keep}
use sim_project.Schema.Submissions.{Submission}

pub record Column : Type 0 where
  pub get : Submission → Bool
  pub put : Bool → Submission → Submission

-- UPDATE submissions SET column=0 WHERE group AND column=1
unfoldable pub unset : Column → (Submission → Bool) → List Submission → List Submission
unset column group = update_where (λ r. group r && column.get r) (column.put false)

-- UPDATE submissions SET column=1 WHERE id=?, for the id that the query gave, if any
unfoldable pub set_first : Column → Option Submission → List Submission → List Submission
set_first column none rows = rows
set_first column (some best) rows = update_where (λ r. r.id == best.id) (column.put true) rows

unfoldable pub reselect :
    Column
    → (Submission → Bool)
    → (Submission → Bool)
    → Comparator Submission
    → List Submission
    → List Submission
unfolding unset set_first
reselect column group candidate order rows =
    let rows' = unset column group rows in
    set_first column (first_by order (keep (λ r. candidate r && group r) rows')) rows'
