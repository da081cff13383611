-- ===== src/DateFormatter/Offset.antt =====
-- src/utils/date-formatter.ts: accepted dates, their numeric offset and validity.
use typeorm_procedure_kit.Common.{
  ℕ, ◌≡◌, ◌≤◌, ◌<◌, ◌+◌, ◌*◌, ◌∙◌, ◌++◌, append_assoc, refl, arith, Bool, true, false, Option, none,
  some, [], ◌∷◌, ok, guard, >>=-eq-ok,
}
use typeorm_procedure_kit.Common.Text.{Text, trim}
use typeorm_procedure_kit.DateFormatter.{
  DateInput, ZoneOptions, Luxon, DateError, two_digits, minutes_of, offset_in_range, exec_at_end,
  numeric_offset, ends_with_z, explicit_zone_pattern, assert_valid_numeric_offset,
  assert_valid_date_time, parse_input, parse_text, read_input, move_to_zone,
}
use mathlib.Core.Path.{subst}
use typeorm_procedure_kit.Regex.{matches}
use typeorm_procedure_kit.DateFormatter.Zoned.{
  IsClock, IsOffset, offset_hours, offset_minutes, offset_colon, IsFront, IsGap, zoned-matches,
}
use typeorm_procedure_kit.DateFormatter.LastOffset.{exec_at_end-offset, ends_with_z-offset}

-- A zoned text whose zone is not `Z`: its offset, the sign first, is at most 14:00.
abbrev HasOffsetInRange : Text → Type 0
HasOffsetInRange input =
    matches explicit_zone_pattern input ≡ true
    → ends_with_z input ≡ false
    → (sign a b : ℕ) (s : Text) → exec_at_end numeric_offset input ≡ some (sign ∷ a ∷ b ∷ s)
    → (two_digits a b ≤ 14) × (minutes_of s < 60) × (two_digits a b ≡ 14 → minutes_of s ≡ 0)

assert_valid_numeric_offset-HasOffsetInRange :
    (input : Text) → assert_valid_numeric_offset input ≡ ok tt → HasOffsetInRange input
unfolding assert_valid_numeric_offset offset_in_range
assert_valid_numeric_offset-HasOffsetInRange input h zoned not_z sign a b s found =
    let h' = rw (zoned, not_z, found) at h in ground arith

-- at most 14 hours, with fewer than 60 minutes, and none at 14 hours
abbrev pub IsInRange : ℕ → ℕ → Type 0
IsInRange hours minutes = (hours ≤ 14) × (minutes < 60) × (hours ≡ 14 → minutes ≡ 0)

digits_back : (h k : ℕ) → two_digits (h + 48) (k + 48) ≡ h * 10 + k
digits_back h k = omega arith

HasOffsetInRange-IsInRange :
    (s off : Text) {h m : ℕ}
    → matches explicit_zone_pattern (s ++ off) ≡ true
    → HasOffsetInRange (s ++ off)
    → IsOffset off h m
    → IsInRange h m
HasOffsetInRange-IsInRange s off zoned range o =
    read off o (range zoned (ends_with_z-offset s off o)) (exec_at_end-offset s off o)
  where
    read :
        (off : Text) {h m : ℕ}
        → IsOffset off h m
        → ((sign a b : ℕ) (t : Text)
            → exec_at_end numeric_offset (s ++ off) ≡ some (sign ∷ a ∷ b ∷ t)
            → (two_digits a b ≤ 14)
              × (minutes_of t < 60)
              × (two_digits a b ≡ 14 → minutes_of t ≡ 0))
        → exec_at_end numeric_offset (s ++ off) ≡ some off
        → IsInRange h m
    read off (offset_hours {h} {k} _ _ _) range found =
        subst (λ x. IsInRange x 0) (digits_back h k) (range _ _ _ _ found)
    read off (offset_minutes {h} {k} {m} {n} _ _ _ _ _) range found =
        subst (λ x. IsInRange x (m * 10 + n)) (digits_back h k)
          (subst (IsInRange (two_digits (h + 48) (k + 48))) (digits_back m n) (range _ _ _ _ found))
    read off (offset_colon {h} {k} {m} {n} _ _ _ _ _) range found =
        subst (λ x. IsInRange x (m * 10 + n)) (digits_back h k)
          (subst (IsInRange (two_digits (h + 48) (k + 48))) (digits_back m n) (range _ _ _ _ found))

module _ (luxon : Luxon) where
  move_to_zone-valid :
      (d : luxon.DateTime) (z : Option Text) (e : luxon.DateTime)
      → luxon.is_valid d ≡ true
      → move_to_zone luxon d z ≡ ok e
      → luxon.is_valid e ≡ true
  unfolding move_to_zone assert_valid_date_time
  move_to_zone-valid d none e v h = ground arith
  move_to_zone-valid d (some []) e v h = ground arith
  move_to_zone-valid d (some (c ∷ z)) e v h = ground arith

  guard-true : (b : Bool) (x : DateError) (u : Unit {0}) → guard b x ≡ ok u → b ≡ true
  guard-true true x u h = refl
  guard-true false x u h = cc

  -- What the formatter parses, a text or a `Date`, moved to another zone or not, is a valid date.
  pub parse_input-valid :
      (input : DateInput) (options : ZoneOptions) (d : luxon.DateTime)
      → parse_input luxon input options ≡ ok d
      → luxon.is_valid d ≡ true
  unfolding parse_input assert_valid_date_time
  parse_input-valid input options d h =
      let (e, read, rest) = >>=-eq-ok (read_input luxon input options) _ h in
      let (u, checked, moved) = >>=-eq-ok (guard (luxon.is_valid e) _) _ rest in
      move_to_zone-valid e options.target_zone d (guard-true (luxon.is_valid e) _ u checked) moved

  -- If an accepted text, without the blanks around it, ends in a clock time, behind nothing, a `T` or a blank,
  -- and a numeric UTC offset, behind a blank or not, then the offset has at most 14 hours, fewer than 60
  -- minutes, and none at 14 hours.
  pub parse_text-IsInRange :
      (input : Text) (options : ZoneOptions) (d : luxon.DateTime) (front clk gap off : Text)
      (hours minutes : ℕ)
      → parse_text luxon input options ≡ ok d
      → trim input ≡ front ++ (clk ++ (gap ++ off))
      → IsFront front
      → IsClock clk
      → IsGap gap
      → IsOffset off hours minutes
      → IsInRange hours minutes
  unfolding parse_text
  parse_text-IsInRange input options d front clk gap off hours minutes h e f c g o =
      let checked : assert_valid_numeric_offset (trim input) ≡ ok tt = ground arith in
      let range = assert_valid_numeric_offset-HasOffsetInRange (trim input) checked in
      let whole : front ++ (clk ++ (gap ++ off)) ≡ (front ++ (clk ++ gap)) ++ off =
        simp append_assoc in
      HasOffsetInRange-IsInRange (front ++ (clk ++ gap)) off
        (subst (λ x. matches explicit_zone_pattern x ≡ true) whole (zoned-matches f c g o))
        (subst HasOffsetInRange (e ∙ whole) range) o
