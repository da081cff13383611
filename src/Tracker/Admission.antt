-- ===== src/Tracker/Admission.antt =====
-- src/adapters/abstract/procedure-resource-tracker.ts: the rows and scalars that the limits admit.
use typeorm_procedure_kit.Common.{
  ℕ, ◌+◌, ◌-◌, ◌≤◌, ◌≡◌, ◌↔◌, refl, ap, arith, inl, inr, none, ltb, Result, ok, err, Bool-cases,
}
use typeorm_procedure_kit.Common.Int.{pos}
use typeorm_procedure_kit.Value.{Value, Heap}
use typeorm_procedure_kit.Tracker.{
  Tracker, add_row, add_value, add_measured_row, add_measured, check_bytes, remaining_rows,
}
use typeorm_procedure_kit.Tracker.Measure.{Fault, KeyCache, measure_value}
use typeorm_procedure_kit.Tracker.Row.{Measured, measure_row}
use typeorm_procedure_kit.Tracker.Reference.{Counts, measure_value-Counts}
use typeorm_procedure_kit.Tracker.Coherence.{IsCoherent, value_bytes}
use typeorm_procedure_kit.Tracker.FastPath.{RowCounts, measure_row-RowCounts}
use typeorm_procedure_kit.Tracker.Scanning.{IsShape}

-- the two caches of a tracker agree with what they stand for
pub record IsAccounted (t : Tracker) : Type 0 where
  pub coherent : IsCoherent t.key_byte_lengths
  pub shaped : IsShape t.row_shape

-- `t'` is `t` with `rows` more rows and `bytes` more bytes.
pub record Adds (t t' : Tracker) (rows bytes : ℕ) : Type 0 where
  pub rows_added : t'.materialized_rows ≡ t.materialized_rows + rows
  pub bytes_added : t'.materialized_bytes ≡ t.materialized_bytes + bytes
  pub same_limits : t'.limits ≡ t.limits
  pub accounted : IsAccounted t'

abbrev pub IsWithin : Tracker → Type 0
IsWithin t =
    (t.materialized_rows ≤ t.limits.max_procedure_rows)
    × (t.materialized_bytes ≤ t.limits.max_procedure_bytes)

add_measured_row-Adds :
    (t : Tracker) (m : Result Fault Measured) (n : ℕ)
    → RowCounts m (ok n)
    → Adds t (add_measured_row t m).0 0 n
unfolding add_measured_row check_bytes
add_measured_row-Adds t (ok m) n (same, h, k) = record {
  rows_added = omega arith;
  bytes_added = ap (λ b. t.materialized_bytes + b) same;
  same_limits = refl;
  accounted = record { coherent = h; shaped = k };
}
add_measured_row-Adds t (err f) n h = absurd h

add_measured_row-none :
    (t : Tracker) (m : Result Fault Measured) (n : ℕ)
    → RowCounts m (ok n)
    → ((add_measured_row t m).1 ≡ none) ↔ (t.materialized_bytes + n ≤ t.limits.max_procedure_bytes)
unfolding add_measured_row check_bytes
add_measured_row-none t (ok m) n (same, h, k) = ground arith
add_measured_row-none t (err f) n h = absurd h

module _ (heap : Heap) (t : Tracker) (row : Value) (n : ℕ) (acc : IsAccounted t)
    (counted : value_bytes heap row ≡ ok n) where
  row_counts : RowCounts (measure_row heap t.row_shape t.key_byte_lengths row) (ok n)
  row_counts =
      rw counted at
        (measure_row-RowCounts heap t.row_shape t.key_byte_lengths row acc.shaped acc.coherent)

  -- With a coherent tracker, a row that counts `n` bytes is accepted exactly if one more row and `n` more
  -- bytes are within the limits.
  pub add_row-none_iff : ((add_row heap t row).1 ≡ none) ↔ (
      (t.materialized_rows + 1 ≤ t.limits.max_procedure_rows)
      × (t.materialized_bytes + n ≤ t.limits.max_procedure_bytes))
  unfolding add_row
  add_row-none_iff = ground (
    arith,
    add_measured_row-none (record t { materialized_rows = t.materialized_rows + 1 })
        (measure_row heap t.row_shape t.key_byte_lengths row) n row_counts,
  )

  -- With a coherent tracker and a row that counts `n` bytes, an accepted row adds one row and `n` bytes to
  -- the totals, and the limits stay.
  pub add_row-Adds : (add_row heap t row).1 ≡ none → Adds t (add_row heap t row).0 1 n
  unfolding add_row
  add_row-Adds e = elim (Bool-cases (ltb t.limits.max_procedure_rows (t.materialized_rows + 1))) [
    | inl over ↦ absurd (ground arith)
    | inr fits ↦
        let a =
          add_measured_row-Adds (record t { materialized_rows = t.materialized_rows + 1 })
            (measure_row heap t.row_shape t.key_byte_lengths row) n row_counts in
        rw (fits, add_row)
          (record {
            rows_added = omega (arith, a.rows_added);
            bytes_added = a.bytes_added;
            same_limits = a.same_limits;
            accounted = a.accounted;
          })
  ]

  -- An accepted row leaves both totals within the limits.
  pub add_row-IsWithin : (add_row heap t row).1 ≡ none → IsWithin (add_row heap t row).0
  add_row-IsWithin e =
      let a = add_row-Adds e in
      let (rows, bytes) = (add_row-none_iff).0 e in
      rw (a.rows_added, a.bytes_added, a.same_limits) (rows, bytes)

-- The same for a scalar output.
add_measured-none :
    (t : Tracker) (m : Result Fault (ℕ × KeyCache)) (n : ℕ)
    → Counts m (ok n)
    → ((add_measured t m).1 ≡ none) ↔ (t.materialized_bytes + n ≤ t.limits.max_procedure_bytes)
unfolding add_measured check_bytes
add_measured-none t (ok (b, cache)) n (same, h) = ground arith
add_measured-none t (err f) n h = absurd h

-- With a coherent tracker, a scalar of `n` bytes is accepted exactly if `n` more bytes are within the
-- limit.
pub add_value-none_iff :
    (heap : Heap) (t : Tracker) (v : Value) (n : ℕ)
    → IsAccounted t
    → value_bytes heap v ≡ ok n
    → ((add_value heap t v).1 ≡ none) ↔ (t.materialized_bytes + n ≤ t.limits.max_procedure_bytes)
unfolding add_value
add_value-none_iff heap t v n acc counted =
    add_measured-none t (measure_value heap t.key_byte_lengths v) n
      (rw counted at (measure_value-Counts heap t.key_byte_lengths v acc.coherent))

-- Within the limits the remaining rows are the limit less the rows so far.
pub remaining_rows-pos :
    (t : Tracker)
    → IsWithin t
    → remaining_rows t ≡ pos (t.limits.max_procedure_rows - t.materialized_rows)
unfolding remaining_rows
remaining_rows-pos t w = ground arith
