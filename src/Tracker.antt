-- ===== src/Tracker.antt =====
-- src/adapters/abstract/procedure-resource-tracker.ts: row and byte accounting of one procedure call.
pub mod Measure
pub mod Row
pub mod Utf8
mod Decimal
pub mod Coherence
pub mod Reference
pub mod Termination
pub mod Scanning
pub mod FastPath
pub mod Admission
mod Tests
use typeorm_procedure_kit.Common.{ℕ, ◌+◌, Option, none, some, ltb, if◌then◌else◌, Result, ok, err}
use typeorm_procedure_kit.Common.Int.{ℤ, sub_ℕ}
use typeorm_procedure_kit.Value.{Value, Heap}
use Measure.{Fault, KeyCache, measure_value}
use Row.{Shape, Measured, measure_row}

pub data Vendor : Type 0 where
  oracle postgre_sql : Vendor

-- the two limits of `IResourceLimits` that the tracker reads
pub record Limits : Type 0 where
  pub max_procedure_rows : ℕ
  pub max_procedure_bytes : ℕ

-- `key_byte_lengths` is static in the source: a tracker starts with the one that the last one left.
pub record Tracker : Type 0 where
  pub vendor : Vendor
  pub limits : Limits
  pub materialized_bytes : ℕ
  pub materialized_rows : ℕ
  pub row_shape : Option Shape
  pub key_byte_lengths : KeyCache

pub data TrackerError : Type 0 where
  too_many_bytes too_many_rows : Vendor → ℕ → TrackerError
  measuring : Fault → TrackerError

abbrev pub new_tracker : Vendor → Limits → KeyCache → Tracker
new_tracker vendor limits cache = record {
  vendor = vendor;
  limits = limits;
  materialized_bytes = 0;
  materialized_rows = 0;
  row_shape = none;
  key_byte_lengths = cache;
}

unfoldable pub remaining_rows : Tracker → ℤ
remaining_rows t = sub_ℕ t.limits.max_procedure_rows t.materialized_rows

-- `this.materializedBytes += …` and the check behind it; what was written stays after a throw
unfoldable pub check_bytes : Tracker → Tracker × Option TrackerError
check_bytes t = (
  t,
  if ltb t.limits.max_procedure_bytes t.materialized_bytes
      then some (too_many_bytes t.vendor t.limits.max_procedure_bytes)
      else none,
)

unfoldable pub add_measured : Tracker → Result Fault (ℕ × KeyCache) → Tracker × Option TrackerError
add_measured t (err fault) = (t, some (measuring fault))
add_measured t (ok (bytes, cache)) =
    check_bytes
      (record t { materialized_bytes = t.materialized_bytes + bytes; key_byte_lengths = cache })

unfoldable pub add_value : Heap → Tracker → Value → Tracker × Option TrackerError
unfolding add_measured check_bytes
add_value heap t v = add_measured t (measure_value heap t.key_byte_lengths v)

unfoldable pub add_measured_row : Tracker → Result Fault Measured → Tracker × Option TrackerError
add_measured_row t (err fault) = (t, some (measuring fault))
add_measured_row t (ok m) = check_bytes (record t {
  materialized_bytes = t.materialized_bytes + m.bytes;
  row_shape = m.row_shape;
  key_byte_lengths = m.cache;
})

unfoldable pub add_row : Heap → Tracker → Value → Tracker × Option TrackerError
unfolding add_measured_row check_bytes
add_row heap t row =
    let t' = record t { materialized_rows = t.materialized_rows + 1 } in
    if ltb t'.limits.max_procedure_rows t'.materialized_rows
    then (t', some (too_many_rows t'.vendor t'.limits.max_procedure_rows))
    else add_measured_row t' (measure_row heap t'.row_shape t'.key_byte_lengths row)
