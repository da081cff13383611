-- ===== src/Serializer/Tests.antt =====
-- The theorems on the registry and the values, at concrete inputs.
use typeorm_procedure_kit.Common.{ℕ, ◌≡◌, ◌↔◌, refl, true, none, some, [], Result, ok}
use typeorm_procedure_kit.Common.Text.{Text}
use typeorm_procedure_kit.DateFormatter.{Luxon}
use typeorm_procedure_kit.Serializer.{
  SerializerType, char_type, Registry, entry, Native, buffer, assert_native_value, serialize_value,
  apply_serializer, strategy_outcome, is_temporal, is_supported, is_text_native,
}
use typeorm_procedure_kit.Serializer.Returned.{Returns, serialize_value-ok_iff}

abbrev some_chars : Registry
some_chars = record {
  date = none;
  timestamp = none;
  timestamp_tz = none;
  timestamp_ltz = none;
  boolean = none;
  char = some 4;
  varchar = none;
  json = none;
  binary = none;
  xml = none;
}

-- a library whose dates are their texts
abbrev text_dates : Luxon
text_dates = record {
  DateTime = Text;
  from_iso = λ s z. s;
  from_sql = λ s z. s;
  from_js_date = λ d. [];
  set_zone = λ d z. d;
  is_valid = λ d. true;
}

abbrev same_value : ℕ → SerializerType → Native → Result ℕ Native
same_value s t v = ok v

runs_strategy :
    serialize_value text_dates same_value some_chars char_type (buffer 3) ≡ ok (buffer 3)
unfolding serialize_value apply_serializer assert_native_value entry strategy_outcome is_temporal
    is_supported is_text_native
runs_strategy = refl

serialize_value-ok_iff_example :
    (serialize_value text_dates same_value some_chars char_type (buffer 3) ≡ ok (buffer 3))
    ↔ Returns text_dates same_value some_chars char_type (buffer 3) (buffer 3)
serialize_value-ok_iff_example =
    serialize_value-ok_iff text_dates same_value some_chars char_type (buffer 3) (buffer 3)
