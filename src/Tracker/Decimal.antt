-- ===== src/Tracker/Decimal.antt =====
-- `measureUnsignedInteger` and `measureNumber` against the length of the decimal text.
use typeorm_procedure_kit.Common.{
  ℕ, zero, suc, ◌/◌, ◌<◌, ◌≤◌, ◌≡◌, ap, arith, ltb, Bool-cases, inl, inr,
}
use typeorm_procedure_kit.Common.Int.{ℤ, pos, negsuc}
use typeorm_procedure_kit.Value.{int}
use typeorm_procedure_kit.Tracker.Measure.{
  measure_unsigned_integer, decimal_length_from, decimal_length, integer_length, measure_number,
}

measure_unsigned_small : (n : ℕ) → n < 10 → measure_unsigned_integer n ≡ 1
unfolding measure_unsigned_integer
measure_unsigned_small n h = ground arith

measure_unsigned_step :
    (n : ℕ)
    → 10 ≤ n
    → n < 10_000_000_000_000_000
    → measure_unsigned_integer n ≡ suc (measure_unsigned_integer (n / 10))
unfolding measure_unsigned_integer
measure_unsigned_step n h k = ground arith

decimal_length_from_lem :
    (f n : ℕ)
    → n ≤ f
    → n < 10_000_000_000_000_000
    → measure_unsigned_integer n ≡ decimal_length_from f n
unfolding decimal_length_from
decimal_length_from_lem zero n h k = measure_unsigned_small n (omega arith)
decimal_length_from_lem (suc f) n h k = elim (Bool-cases (ltb n 10)) [
  | inl small ↦ rw small (measure_unsigned_small n (ground arith))
  | inr large ↦
      rw (large, measure_unsigned_step n (ground arith) k)
        (ap suc (decimal_length_from_lem f (n / 10) (ground arith) (ground arith)))
]

-- Below 10 ^ 16 the ladder of comparisons counts the decimal digits.
pub measure_unsigned_integer-eq-decimal_length :
    (n : ℕ) → n < 10_000_000_000_000_000 → measure_unsigned_integer n ≡ decimal_length n
unfolding decimal_length
measure_unsigned_integer-eq-decimal_length n h = decimal_length_from_lem n n (omega arith) h

-- Whether an integer is safe or not, its measure is the length of its decimal text with the sign.
pub measure_number-int : (z : ℤ) → measure_number (int z) ≡ integer_length z
unfolding measure_number integer_length
measure_number-int (pos n) = ground (arith, measure_unsigned_integer-eq-decimal_length n)
measure_number-int (negsuc n) = ground (arith, measure_unsigned_integer-eq-decimal_length (suc n))
