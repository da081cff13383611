-- ===== src/Tracker/Tests.antt =====
-- Runs of the tracker, and its theorems at concrete inputs.
use typeorm_procedure_kit.Common.{
  ◌+◌, ◌≤◌, ◌≡◌, ◌≢◌, ◌↔◌, refl, arith, true, false, none, [], ◌∷◌, ok, err, length,
}
use typeorm_procedure_kit.Common.Text.{Text, codes}
use typeorm_procedure_kit.Common.Int.{pos}
use typeorm_procedure_kit.Value.{string, number, int, ref, Heap}
use typeorm_procedure_kit.Tracker.{Tracker, postgre_sql, new_tracker, add_row}
use typeorm_procedure_kit.Tracker.Measure.{
  out_of_fuel, scalar_bytes, measure_utf8, measure_number, measure_value,
}
use typeorm_procedure_kit.Tracker.Row.{measure_row}
use typeorm_procedure_kit.Tracker.Utf8.{utf8, code_points, measure_utf8-eq-length}
use typeorm_procedure_kit.Tracker.Reference.{Counts, measure_value-Counts}
use typeorm_procedure_kit.Tracker.Coherence.{
  IsCoherent-nil, value_bytes, graph_bytes, object_bytes, push_children,
}
use typeorm_procedure_kit.Tracker.Termination.{measure_value-total}
use typeorm_procedure_kit.Tracker.FastPath.{IsShape-none, RowCounts, measure_row-RowCounts}
use typeorm_procedure_kit.Tracker.Admission.{IsAccounted, add_row-none_iff}

-- "é", a surrogate pair and a lone surrogate
abbrev mixed : Text
mixed = 0xe9 ∷ 0xd83d ∷ 0xde00 ∷ 0xd800 ∷ []

measure_mixed : measure_utf8 mixed ≡ 9
unfolding measure_utf8
measure_mixed = refl

measure_utf8-eq-length_example : measure_utf8 mixed ≡ length (utf8 (code_points mixed))
measure_utf8-eq-length_example = measure_utf8-eq-length mixed (omega arith)

-- a flat row, and two objects that refer to one another
abbrev rows : Heap
rows =
    (record { key = codes "id"; is_own = true; value = number (int (pos 120)) }
      ∷ record { key = codes "name"; is_own = true; value = string (codes "abc") }
      ∷ record { key = codes "proto"; is_own = false; value = string (codes "skipped") }
      ∷ [])
    ∷ (record { key = codes "a"; is_own = true; value = ref 2 } ∷ [])
    ∷ (record { key = codes "b"; is_own = true; value = ref 1 } ∷ [])
    ∷ []

flat_bytes : value_bytes rows (ref 0) ≡ ok 12
unfolding value_bytes graph_bytes object_bytes scalar_bytes push_children measure_utf8
    measure_number
flat_bytes = refl

cyclic_bytes : value_bytes rows (ref 1) ≡ ok 2
unfolding value_bytes graph_bytes object_bytes scalar_bytes push_children measure_utf8
    measure_number
cyclic_bytes = refl

measure_value-total_example : measure_value rows [] (ref 1) ≢ err out_of_fuel
measure_value-total_example = measure_value-total rows [] (ref 1) IsCoherent-nil

measure_value-Counts_example : Counts (measure_value rows [] (ref 1)) (value_bytes rows (ref 1))
measure_value-Counts_example = measure_value-Counts rows [] (ref 1) IsCoherent-nil

measure_row-RowCounts_example :
    RowCounts (measure_row rows none [] (ref 0)) (value_bytes rows (ref 0))
measure_row-RowCounts_example =
    measure_row-RowCounts rows none [] (ref 0) IsShape-none IsCoherent-nil

abbrev fresh : Tracker
fresh = new_tracker postgre_sql (record { max_procedure_rows = 1; max_procedure_bytes = 12 }) []

fresh-IsAccounted : IsAccounted fresh
fresh-IsAccounted = record { coherent = IsCoherent-nil; shaped = IsShape-none }

add_row-none_iff_example : ((add_row rows fresh (ref 0)).1 ≡ none) ↔ ((0 + 1 ≤ 1) × (0 + 12 ≤ 12))
add_row-none_iff_example = add_row-none_iff rows fresh (ref 0) 12 fresh-IsAccounted flat_bytes
