-- ===== src/ResultRows/Tests.antt =====
-- Rows whose columns differ only in case.
use typeorm_procedure_kit.Common.{◌≡◌, ◌↔◌, refl, List, [], ◌∷◌, map, ok, err}
use typeorm_procedure_kit.Common.Text.{text_eq, codes, to_lower_case}
use typeorm_procedure_kit.Value.{null, string}
use typeorm_procedure_kit.ResultRows.{
  ResultRow, object_row, other_row, conflicting_columns, transform_rows,
}
use typeorm_procedure_kit.ResultRows.Renamed.{AllDistinct, rename_row, transform_rows-ok_iff}

abbrev rows : List ResultRow
rows =
    object_row ((codes "ID", string (codes "1")) ∷ (codes "Name", null) ∷ []) ∷ other_row null ∷ []

lowered :
    transform_rows to_lower_case rows
    ≡ ok (
        object_row ((codes "id", string (codes "1")) ∷ (codes "name", null) ∷ [])
        ∷ other_row null
        ∷ [])
unfolding transform_rows to_lower_case
lowered = refl

clash :
    transform_rows to_lower_case (object_row ((codes "ID", null) ∷ (codes "id", null) ∷ []) ∷ [])
    ≡ err (conflicting_columns (codes "ID") (codes "id") (codes "id"))
unfolding transform_rows to_lower_case
clash = refl

transform_rows-ok_iff_example :
    (transform_rows to_lower_case rows ≡ ok (map (rename_row to_lower_case) rows)) ↔ (
      AllDistinct to_lower_case rows
      × (map (rename_row to_lower_case) rows ≡ map (rename_row to_lower_case) rows))
transform_rows-ok_iff_example =
    transform_rows-ok_iff to_lower_case rows (map (rename_row to_lower_case) rows)
