-- ===== src/DateFormatter/Tests.antt =====
-- Runs of the formatter's checks, and its theorems at concrete inputs.
use typeorm_procedure_kit.Common.{◌≡◌, refl, arith, inl, true, none, [], ok, err}
use typeorm_procedure_kit.Common.Text.{Text, codes, lower, trim, trim_start, is_space}
use typeorm_procedure_kit.Regex.{matches}
use typeorm_procedure_kit.DateFormatter.{
  Luxon, ZoneOptions, date_text, parse_input, parse_text, read_input, assert_valid_numeric_offset,
  assert_valid_date_time, move_to_zone, invalid_offset, exec_at_end, offset_in_range, ends_with_z,
}
use typeorm_procedure_kit.DateFormatter.Offset.{IsInRange, parse_text-IsInRange}
use typeorm_procedure_kit.DateFormatter.Zoned.{clock_seconds, offset_colon, front_t, no_gap}

abbrev text_dates : Luxon
text_dates = record {
  DateTime = Text;
  from_iso = λ s z. s;
  from_sql = λ s z. s;
  from_js_date = λ d. [];
  set_zone = λ d z. d;
  is_valid = λ d. true;
}

abbrev zoned : ZoneOptions
zoned = record { source_zone = none; target_zone = none; require_zone = true }

abbrev noon : Text
noon = codes "2024-01-02T12:00:00+05:30"

accepted : parse_text text_dates noon zoned ≡ ok noon
unfolding parse_text assert_valid_numeric_offset exec_at_end offset_in_range ends_with_z matches
    lower trim trim_start is_space
accepted = refl

too_far : assert_valid_numeric_offset (codes "12:00+14:30") ≡ err invalid_offset
unfolding assert_valid_numeric_offset exec_at_end offset_in_range ends_with_z matches lower
too_far = refl

parsed : parse_input text_dates (date_text noon) zoned ≡ ok noon
unfolding parse_input read_input assert_valid_date_time move_to_zone
parsed = rw accepted refl

parse_text-IsInRange_example : IsInRange 5 30
unfolding trim trim_start is_space
parse_text-IsInRange_example =
    parse_text-IsInRange text_dates noon zoned noon (codes "2024-01-02T") (codes "12:00:00") []
      (codes "+05:30") 5 30 accepted refl (front_t (codes "2024-01-02"))
      (clock_seconds (omega arith) (omega arith) (omega arith) (omega arith) (omega arith)
        (omega arith))
      no_gap
      (offset_colon {h = 0} {k = 5} {m = 3} {n = 0} (inl refl) (omega arith) (omega arith)
        (omega arith) (omega arith))

-- an offset behind a date without a clock is left to Luxon
unchecked : assert_valid_numeric_offset (codes "2024-01-02+15:00") ≡ ok tt
unfolding assert_valid_numeric_offset exec_at_end offset_in_range ends_with_z matches lower
unchecked = refl
