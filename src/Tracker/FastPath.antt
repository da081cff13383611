-- ===== src/Tracker/FastPath.antt =====
-- `measureRow` of procedure-resource-tracker.ts, against the reference.
use typeorm_procedure_kit.Common.{
  ℕ, ◌+◌, ◌≡◌, refl, arith, Option, none, List, [], nat_eq, Result, ok, err, ◌>>=◌,
}
use typeorm_procedure_kit.Common.Text.{text_eq}
use typeorm_procedure_kit.Value.{Value, date, ref, Heap, properties}
use typeorm_procedure_kit.Tracker.Measure.{Fault, KeyCache}
use typeorm_procedure_kit.Tracker.Reference.{Counts, measure_value-Counts}
use typeorm_procedure_kit.Tracker.Coherence.{
  object_bytes, push_children, graph_bytes, value_bytes, IsCoherent,
}
use typeorm_procedure_kit.Tracker.Row.{
  Shape, Scanned, flat, nested, thrown, shape_keys, shape_key_bytes, scan_start, Measured,
  with_shape, finish_scan, measure_row,
}
use typeorm_procedure_kit.Tracker.Scanning.{
  ScanGives, end_shape-IsShape, scan-ScanGives, IsShape, IsScan,
}

-- A row counts what the reference counts and leaves a coherent cache and shape, or both throw alike.
abbrev pub RowCounts : Result Fault Measured → Result Fault ℕ → Type 0
RowCounts (ok m) (ok n) = (m.bytes ≡ n) × IsCoherent m.cache × IsShape m.row_shape
RowCounts (err f) (err g) = f ≡ g
RowCounts _ _ = ⊥

with_shape-RowCounts :
    (shape : Option Shape) (m : Result Fault (ℕ × KeyCache)) (r : Result Fault ℕ)
    → IsShape shape
    → Counts m r
    → RowCounts (m >>= with_shape shape) r
unfolding with_shape
with_shape-RowCounts shape (ok (n, cache)) (ok m) k h = (h.0, h.1, k)
with_shape-RowCounts shape (err f) (err g) k h = h
with_shape-RowCounts shape (ok (n, cache)) (err g) k h = absurd h
with_shape-RowCounts shape (err f) (ok m) k h = absurd h

-- An object without references is one round of the reference.
value_bytes-flat :
    (heap : Heap) (a n : ℕ)
    → object_bytes (properties heap a) ≡ ok n
    → ((stack : List ℕ) → push_children (properties heap a) stack ≡ stack)
    → value_bytes heap (ref a) ≡ ok n
unfolding value_bytes graph_bytes
value_bytes-flat heap a n e h = let z : n + 0 ≡ n = omega arith in rw (e, h [], z) refl

value_bytes-thrown :
    (heap : Heap) (a : ℕ) (f : Fault)
    → object_bytes (properties heap a) ≡ err f
    → value_bytes heap (ref a) ≡ err f
unfolding value_bytes graph_bytes
value_bytes-thrown heap a f e = rw e refl

finish_scan-RowCounts :
    (heap : Heap) (shape : Option Shape) (a base : ℕ) (r : Scanned)
    → base ≡ 0
    → IsShape shape
    → ScanGives base (properties heap a) r
    → RowCounts (finish_scan heap shape (ref a) r) (value_bytes heap (ref a))
unfolding finish_scan
finish_scan-RowCounts heap shape a base (flat s) z k (n, counted, bytes, none_pushed, h) =
    rw (value_bytes-flat heap a n counted none_pushed)
      (omega arith, h.coherent, end_shape-IsShape shape s k h)
finish_scan-RowCounts heap shape a base (nested cache) z k h =
    with_shape-RowCounts shape _ _ k (measure_value-Counts heap cache (ref a) h)
finish_scan-RowCounts heap shape a base (thrown f) z k h = rw (value_bytes-thrown heap a f h) refl

scan_start-IsScan :
    (shape : Option Shape) (cache : KeyCache) → IsCoherent cache → IsScan (scan_start shape cache)
scan_start-IsScan shape cache h = record { measured = refl; coherent = h }

-- With a coherent key cache and row shape, `measureRow` counts every row as the plain walk over the object
-- graph does, and leaves both coherent, or both throw alike.
pub measure_row-RowCounts :
    (heap : Heap) (shape : Option Shape) (cache : KeyCache) (v : Value)
    → IsShape shape
    → IsCoherent cache
    → RowCounts (measure_row heap shape cache v) (value_bytes heap v)
unfolding measure_row
measure_row-RowCounts heap shape cache (ref a) k h = finish_scan-RowCounts heap shape a 0 _ refl k (
    scan-ScanGives shape k (scan_start shape cache) (properties heap a)
      (scan_start-IsScan shape cache h))
measure_row-RowCounts heap shape cache (date d) k h =
    with_shape-RowCounts shape _ _ k (measure_value-Counts heap cache (date d) h)
measure_row-RowCounts heap shape cache v k h =
    with_shape-RowCounts shape _ _ k (measure_value-Counts heap cache v h)

-- the shape of a new tracker
pub IsShape-none : IsShape none
IsShape-none = record { measured = unfold shape_key_bytes shape_keys in refl }
