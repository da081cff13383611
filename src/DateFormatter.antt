-- ===== src/DateFormatter.antt =====
-- src/utils/date-formatter.ts: which dates are accepted. Luxon is the record `Luxon` of its calls.
pub mod Zoned
pub mod LastOffset
pub mod Offset
mod Tests
use typeorm_procedure_kit.Common.{
  ℕ, ◌+◌, ◌*◌, ◌-◌, Bool, true, false, not, ◌||◌, ◌&&◌, Option, none, some, List, [], ◌∷◌, nat_beq,
  ltb, leb, contains, if◌then◌else◌, Result, ok, err, ◌>>=◌, ◌>>◌, guard, is_some,
}
use typeorm_procedure_kit.Common.{nat_eq}
use typeorm_procedure_kit.Common.Text.{Text, codes, trim}
use typeorm_procedure_kit.Regex.{
  Regex, empty, one, seq, alt, star, opt, chr, repeat, up_to, digit, space, matches, same_letter,
}

pub data DateError : Type 0 where
  invalid_syntax missing_zone invalid_offset invalid_date : DateError

-- A `Date` is the text of its instant, or `none` if it is invalid.
pub data DateInput : Type 0 where
  date_text : Text → DateInput
  date_object : Option Text → DateInput

pub record ZoneOptions : Type 0 where
  pub source_zone : Option Text
  pub target_zone : Option Text
  pub require_zone : Bool

-- the part of Luxon's `DateTime` that is called
pub record Luxon : Type 1 where
  pub DateTime : Type 0
  pub from_iso : Text → Text → DateTime
  pub from_sql : Text → Text → DateTime
  pub from_js_date : Option Text → DateTime
  pub set_zone : DateTime → Text → DateTime
  pub is_valid : DateTime → Bool

abbrev pub clock : Regex
clock = seq (repeat 2 digit) (
    seq (chr b':') (
      seq (repeat 2 digit) (
        opt (
          seq (chr b':')
            (seq (repeat 2 digit) (opt (seq (chr b'.') (seq digit (up_to 8 digit)))))))))

abbrev calendar : Regex
calendar =
    seq (repeat 4 digit) (seq (chr b'-') (seq (repeat 2 digit) (seq (chr b'-') (repeat 2 digit))))

abbrev pub letter_t_or_blank : Regex
letter_t_or_blank = one (λ c. same_letter b'T' c || nat_beq c 32)

-- [+-]\d{2}(?::?\d{2})?
abbrev pub numeric_offset : Regex
numeric_offset =
    seq (one (λ c. nat_beq c b'+' || nat_beq c b'-'))
      (seq (repeat 2 digit) (opt (seq (opt (chr b':')) (repeat 2 digit))))

abbrev pub zone : Regex
zone = seq (opt (chr 32)) (alt (one (same_letter b'Z')) numeric_offset)

abbrev pub strict_sql_or_iso_pattern : Regex
strict_sql_or_iso_pattern =
    seq (alt (seq calendar (opt (seq letter_t_or_blank clock))) clock) (opt zone)

-- The pattern begins anywhere, at the start or behind a `T` or a blank.
abbrev pub explicit_zone_pattern : Regex
explicit_zone_pattern =
    seq (alt empty (seq (star (one (λ c. true))) letter_t_or_blank)) (seq clock zone)

-- the leftmost match of `pattern$`, from there to the end
unfoldable pub exec_at_end : Regex → Text → Option Text
exec_at_end pattern [] = if matches pattern [] then some [] else none
exec_at_end pattern (c ∷ s) =
    let later = exec_at_end pattern s in if matches pattern (c ∷ s) then some (c ∷ s) else later

abbrev pub digit_value : ℕ → ℕ
digit_value c = c - b'0'

abbrev pub two_digits : ℕ → ℕ → ℕ
two_digits a b = digit_value a * 10 + digit_value b

-- Number(offset[3] ?? 0), from the text behind the hours
abbrev pub minutes_of : Text → ℕ
minutes_of (a ∷ b ∷ []) = two_digits a b
minutes_of (colon ∷ a ∷ b ∷ []) = two_digits a b
minutes_of _ = 0

unfoldable pub offset_in_range : Text → Bool
offset_in_range (sign ∷ a ∷ b ∷ s) = not (
    ltb 14 (two_digits a b)
    || leb 60 (minutes_of s)
    || (nat_beq (two_digits a b) 14 && not (nat_beq (minutes_of s) 0)))
offset_in_range _ = true

-- /Z$/i
unfoldable pub ends_with_z : Text → Bool
ends_with_z [] = false
ends_with_z (c ∷ []) = same_letter b'Z' c
ends_with_z (c ∷ d ∷ s) = ends_with_z (d ∷ s)

unfoldable pub assert_valid_numeric_offset : Text → Result DateError (Unit {0})
unfolding offset_in_range ends_with_z exec_at_end
assert_valid_numeric_offset input =
    if not (matches explicit_zone_pattern input) || ends_with_z input
    then ok tt
    else elim (exec_at_end numeric_offset input) [
      | none ↦ ok tt
      | some offset ↦ guard (offset_in_range offset) invalid_offset
    ]

module _ (luxon : Luxon) where
  unfoldable pub assert_valid_date_time : luxon.DateTime → Result DateError (Unit {0})
  assert_valid_date_time d = guard (luxon.is_valid d) invalid_date

  abbrev pub zone_or_local : Option Text → Text
  zone_or_local none = codes "local"
  zone_or_local (some z) = z

  unfoldable pub parse_text : Text → ZoneOptions → Result DateError luxon.DateTime
  unfolding assert_valid_numeric_offset
  parse_text input options =
      let normalized = trim input in
      let source = zone_or_local options.source_zone in
      do
        guard (matches strict_sql_or_iso_pattern normalized) invalid_syntax
        guard (not (options.require_zone && not (matches explicit_zone_pattern normalized)))
            missing_zone
        assert_valid_numeric_offset normalized
        ok (
            if contains b'T' normalized
            then luxon.from_iso normalized source
            else luxon.from_sql normalized source)

  unfoldable pub read_input : DateInput → ZoneOptions → Result DateError luxon.DateTime
  unfolding parse_text
  read_input (date_text input) options = parse_text input options
  read_input (date_object d) options = ok (luxon.from_js_date d)

  -- An empty target zone counts as none.
  unfoldable pub move_to_zone : luxon.DateTime → Option Text → Result DateError luxon.DateTime
  unfolding assert_valid_date_time
  move_to_zone d none = ok d
  move_to_zone d (some []) = ok d
  move_to_zone d (some (c ∷ z)) = do
    assert_valid_date_time (luxon.set_zone d (c ∷ z))
    ok (luxon.set_zone d (c ∷ z))

  unfoldable pub parse_input : DateInput → ZoneOptions → Result DateError luxon.DateTime
  unfolding read_input assert_valid_date_time move_to_zone
  parse_input input options = do
    d ← read_input input options
    assert_valid_date_time d
    move_to_zone d options.target_zone

  abbrev no_options : ZoneOptions
  no_options = record { source_zone = none; target_zone = none; require_zone = false }

  unfoldable pub is_valid : DateInput → Bool
  unfolding parse_input
  is_valid input = elim (parse_input input no_options) [ ok d ↦ true | err e ↦ false ]
