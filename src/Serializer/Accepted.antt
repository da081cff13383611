-- ===== src/Serializer/Accepted.antt =====
-- src/adapters/abstract/database-serializer.ts: which values a strategy may receive.
use typeorm_procedure_kit.Common.{
  ℕ, ◌≡◌, refl, sym, ◌∙◌, arith, Bool, true, false, Option, none, Result, ok, err, guard,
}
use mathlib.Core.Path.{subst}
use typeorm_procedure_kit.Common.Text.{Text}
use typeorm_procedure_kit.DateFormatter.{
  Luxon, DateError, ZoneOptions, date_text, date_object, parse_input, is_valid, read_input,
  assert_valid_date_time, move_to_zone,
}
use typeorm_procedure_kit.Serializer.{
  SerializerType, date_type, timestamp_type, timestamp_tz_type, timestamp_ltz_type, boolean_type,
  char_type, varchar_type, json_type, binary_type, xml_type, Native, text, boolean_value,
  number_value, date_value, buffer, array_buffer, array, plain_record, SerializerError,
  assert_native_value, parse_outcome, assert_temporal, is_temporal, is_zoned, is_supported,
  is_boolean_native, is_text_native, is_binary_native, is_json_native, unsupported_native_value,
  invalid_date_value,
}

pub data IsCharacter : SerializerType → Type 0 where
  character_char : IsCharacter char_type
  character_varchar : IsCharacter varchar_type
  character_xml : IsCharacter xml_type

pub data IsLocal : SerializerType → Type 0 where
  local_date : IsLocal date_type
  local_timestamp : IsLocal timestamp_type

pub data IsZonedType : SerializerType → Type 0 where
  zoned_tz : IsZonedType timestamp_tz_type
  zoned_ltz : IsZonedType timestamp_ltz_type

-- options that ask for no other zone
abbrev pub with_zone : Bool → ZoneOptions
with_zone required = record { source_zone = none; target_zone = none; require_zone = required }

module _ (luxon : Luxon) where
  -- The native values of each type: texts and dates that are dates, and else by their kind.
  pub data Accepts : SerializerType → Native → Type 0 where
    accepts_local :
        {t : SerializerType} {s : Text} (d : luxon.DateTime)
        → IsLocal t
        → parse_input luxon (date_text s) (with_zone false) ≡ ok d
        → Accepts t (text s)
    accepts_zoned :
        {t : SerializerType} {s : Text} (d : luxon.DateTime)
        → IsZonedType t
        → parse_input luxon (date_text s) (with_zone true) ≡ ok d
        → Accepts t (text s)
    accepts_local_date :
        {t : SerializerType} {d : Option Text}
        → IsLocal t
        → luxon.is_valid (luxon.from_js_date d) ≡ true
        → Accepts t (date_value d)
    accepts_zoned_date :
        {t : SerializerType} {d : Option Text}
        → IsZonedType t
        → luxon.is_valid (luxon.from_js_date d) ≡ true
        → Accepts t (date_value d)
    accepts_boolean_text : {s : Text} → Accepts boolean_type (text s)
    accepts_boolean : {b : Bool} → Accepts boolean_type (boolean_value b)
    accepts_characters : {t : SerializerType} {s : Text} → IsCharacter t → Accepts t (text s)
    accepts_character_buffer : {t : SerializerType} {a : ℕ} → IsCharacter t → Accepts t (buffer a)
    accepts_binary_text : {s : Text} → Accepts binary_type (text s)
    accepts_binary_buffer : {a : ℕ} → Accepts binary_type (buffer a)
    accepts_array_buffer : {a : ℕ} → Accepts binary_type (array_buffer a)
    accepts_json_text : {s : Text} → Accepts json_type (text s)
    accepts_json_number : {n : ℕ} → Accepts json_type (number_value n)
    accepts_json_boolean : {b : Bool} → Accepts json_type (boolean_value b)
    accepts_json_buffer : {a : ℕ} → Accepts json_type (buffer a)
    accepts_json_array : {a : ℕ} → Accepts json_type (array a)
    accepts_json_record : {a : ℕ} → Accepts json_type (plain_record a)

  parse_outcome-ok :
      (m : Result DateError luxon.DateTime)
      → parse_outcome luxon m ≡ ok tt
      → (d : luxon.DateTime) × (m ≡ ok d)
  unfolding parse_outcome
  parse_outcome-ok (ok d) h = (d, refl)
  parse_outcome-ok (err e) h = cc

  is_valid-date :
      (d : Option Text) → is_valid luxon (date_object d) ≡ luxon.is_valid (luxon.from_js_date d)
  unfolding is_valid parse_input read_input assert_valid_date_time move_to_zone
  is_valid-date d = ground arith

  pub Accepts-assert_native_value :
      {t : SerializerType} {v : Native} → Accepts t v → assert_native_value luxon t v ≡ ok tt
  unfolding assert_native_value assert_temporal is_temporal is_zoned is_supported is_boolean_native
      is_text_native is_binary_native is_json_native parse_outcome
  Accepts-assert_native_value (accepts_local d local_date h) = rw h refl
  Accepts-assert_native_value (accepts_local d local_timestamp h) = rw h refl
  Accepts-assert_native_value (accepts_zoned d zoned_tz h) = rw h refl
  Accepts-assert_native_value (accepts_zoned d zoned_ltz h) = rw h refl
  Accepts-assert_native_value (accepts_local_date {d} local_date h) = rw (is_valid-date d, h) refl
  Accepts-assert_native_value (accepts_local_date {d} local_timestamp h) =
      rw (is_valid-date d, h) refl
  Accepts-assert_native_value (accepts_zoned_date {d} zoned_tz h) = rw (is_valid-date d, h) refl
  Accepts-assert_native_value (accepts_zoned_date {d} zoned_ltz h) = rw (is_valid-date d, h) refl
  Accepts-assert_native_value accepts_boolean_text = refl
  Accepts-assert_native_value accepts_boolean = refl
  Accepts-assert_native_value (accepts_characters character_char) = refl
  Accepts-assert_native_value (accepts_characters character_varchar) = refl
  Accepts-assert_native_value (accepts_characters character_xml) = refl
  Accepts-assert_native_value (accepts_character_buffer character_char) = refl
  Accepts-assert_native_value (accepts_character_buffer character_varchar) = refl
  Accepts-assert_native_value (accepts_character_buffer character_xml) = refl
  Accepts-assert_native_value accepts_binary_text = refl
  Accepts-assert_native_value accepts_binary_buffer = refl
  Accepts-assert_native_value accepts_array_buffer = refl
  Accepts-assert_native_value accepts_json_text = refl
  Accepts-assert_native_value accepts_json_number = refl
  Accepts-assert_native_value accepts_json_boolean = refl
  Accepts-assert_native_value accepts_json_buffer = refl
  Accepts-assert_native_value accepts_json_array = refl
  Accepts-assert_native_value accepts_json_record = refl

  boolean-Accepts : (v : Native) → is_boolean_native v ≡ true → Accepts boolean_type v
  unfolding is_boolean_native
  boolean-Accepts (text s) h = accepts_boolean_text
  boolean-Accepts (boolean_value b) h = accepts_boolean
  boolean-Accepts _ h = cc

  characters-Accepts :
      {t : SerializerType} → IsCharacter t → (v : Native) → is_text_native v ≡ true → Accepts t v
  unfolding is_text_native
  characters-Accepts c (text s) h = accepts_characters c
  characters-Accepts c (buffer a) h = accepts_character_buffer c
  characters-Accepts c _ h = cc

  binary-Accepts : (v : Native) → is_binary_native v ≡ true → Accepts binary_type v
  unfolding is_binary_native
  binary-Accepts (text s) h = accepts_binary_text
  binary-Accepts (buffer a) h = accepts_binary_buffer
  binary-Accepts (array_buffer a) h = accepts_array_buffer
  binary-Accepts _ h = cc

  json-Accepts : (v : Native) → is_json_native v ≡ true → Accepts json_type v
  unfolding is_json_native
  json-Accepts (text s) h = accepts_json_text
  json-Accepts (number_value n) h = accepts_json_number
  json-Accepts (boolean_value b) h = accepts_json_boolean
  json-Accepts (buffer a) h = accepts_json_buffer
  json-Accepts (array a) h = accepts_json_array
  json-Accepts (plain_record a) h = accepts_json_record
  json-Accepts _ h = cc

  guard-ok : (b : Bool) (e : SerializerError) → guard b e ≡ ok tt → b ≡ true
  guard-ok true e h = refl
  guard-ok false e h = cc

  local-Accepts :
      {t : SerializerType}
      → IsLocal t
      → is_zoned t ≡ false
      → (v : Native) → assert_temporal luxon t v ≡ ok tt
      → Accepts t v
  unfolding assert_temporal
  local-Accepts {t} l no_zone (text s) h =
      let (d, e) = parse_outcome-ok _ (
        subst (λ b. parse_outcome luxon (parse_input luxon (date_text s) (with_zone b)) ≡ ok tt)
          no_zone h) in
      accepts_local d l e
  local-Accepts {t} l no_zone (date_value d) h =
      accepts_local_date l (sym (is_valid-date d) ∙ guard-ok _ (invalid_date_value t) h)
  local-Accepts l no_zone _ h = cc

  zoned-Accepts :
      {t : SerializerType}
      → IsZonedType t
      → is_zoned t ≡ true
      → (v : Native) → assert_temporal luxon t v ≡ ok tt
      → Accepts t v
  unfolding assert_temporal
  zoned-Accepts {t} z zone' (text s) h =
      let (d, e) = parse_outcome-ok _ (
        subst (λ b. parse_outcome luxon (parse_input luxon (date_text s) (with_zone b)) ≡ ok tt)
          zone' h) in
      accepts_zoned d z e
  zoned-Accepts {t} z zone' (date_value d) h =
      accepts_zoned_date z (sym (is_valid-date d) ∙ guard-ok _ (invalid_date_value t) h)
  zoned-Accepts z zone' _ h = cc

  pub assert_native_value-Accepts :
      (t : SerializerType) (v : Native) → assert_native_value luxon t v ≡ ok tt → Accepts t v
  unfolding assert_native_value is_temporal is_zoned is_supported
  assert_native_value-Accepts date_type v h = local-Accepts local_date refl v h
  assert_native_value-Accepts timestamp_type v h = local-Accepts local_timestamp refl v h
  assert_native_value-Accepts timestamp_tz_type v h = zoned-Accepts zoned_tz refl v h
  assert_native_value-Accepts timestamp_ltz_type v h = zoned-Accepts zoned_ltz refl v h
  assert_native_value-Accepts boolean_type v h =
      boolean-Accepts v (guard-ok _ (unsupported_native_value boolean_type) h)
  assert_native_value-Accepts char_type v h =
      characters-Accepts character_char v (guard-ok _ (unsupported_native_value char_type) h)
  assert_native_value-Accepts varchar_type v h =
      characters-Accepts character_varchar v (guard-ok _ (unsupported_native_value varchar_type) h)
  assert_native_value-Accepts xml_type v h =
      characters-Accepts character_xml v (guard-ok _ (unsupported_native_value xml_type) h)
  assert_native_value-Accepts binary_type v h =
      binary-Accepts v (guard-ok _ (unsupported_native_value binary_type) h)
  assert_native_value-Accepts json_type v h =
      json-Accepts v (guard-ok _ (unsupported_native_value json_type) h)
