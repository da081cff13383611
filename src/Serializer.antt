-- ===== src/Serializer.antt =====
-- src/adapters/abstract/database-serializer.ts: the registry of serializers and what they are given.
pub mod Registered
pub mod Accepted
pub mod Returned
mod Tests
use typeorm_procedure_kit.Common.{
  ℕ, ◌≡◌, refl, arith, ◌↔◌, Bool, true, false, not, ◌||◌, ◌&&◌, Option, none, some, List, [], ◌∷◌,
  ◌++◌, nat_beq, if◌then◌else◌, is_some, Eq, Result, ok, err, ◌>>=◌, ◌>>◌, guard,
}
use typeorm_procedure_kit.Common.Text.{Text}
use typeorm_procedure_kit.DateFormatter.{
  DateError, ZoneOptions, Luxon, DateInput, date_text, date_object, parse_input, is_valid,
}

pub data SerializerType : Type 0 where
  date_type timestamp_type timestamp_tz_type timestamp_ltz_type boolean_type : SerializerType
  char_type varchar_type json_type binary_type xml_type : SerializerType

-- A strategy is the address of a function of the caller.
pub record Registry : Type 0 where
  pub date : Option ℕ
  pub timestamp : Option ℕ
  pub timestamp_tz : Option ℕ
  pub timestamp_ltz : Option ℕ
  pub boolean : Option ℕ
  pub char : Option ℕ
  pub varchar : Option ℕ
  pub json : Option ℕ
  pub binary : Option ℕ
  pub xml : Option ℕ

unfoldable pub entry : SerializerType → Registry → Option ℕ
entry date_type r = r.date
entry timestamp_type r = r.timestamp
entry timestamp_tz_type r = r.timestamp_tz
entry timestamp_ltz_type r = r.timestamp_ltz
entry boolean_type r = r.boolean
entry char_type r = r.char
entry varchar_type r = r.varchar
entry json_type r = r.json
entry binary_type r = r.binary
entry xml_type r = r.xml

unfoldable pub register_serializer : SerializerType → ℕ → Registry → Registry
register_serializer date_type s r = record r { date = some s }
register_serializer timestamp_type s r = record r { timestamp = some s }
register_serializer timestamp_tz_type s r = record r { timestamp_tz = some s }
register_serializer timestamp_ltz_type s r = record r { timestamp_ltz = some s }
register_serializer boolean_type s r = record r { boolean = some s }
register_serializer char_type s r = record r { char = some s }
register_serializer varchar_type s r = record r { varchar = some s }
register_serializer json_type s r = record r { json = some s }
register_serializer binary_type s r = record r { binary = some s }
register_serializer xml_type s r = record r { xml = some s }

unfoldable pub unregister_serializer : SerializerType → Registry → Registry
unregister_serializer date_type r = record r { date = none }
unregister_serializer timestamp_type r = record r { timestamp = none }
unregister_serializer timestamp_tz_type r = record r { timestamp_tz = none }
unregister_serializer timestamp_ltz_type r = record r { timestamp_ltz = none }
unregister_serializer boolean_type r = record r { boolean = none }
unregister_serializer char_type r = record r { char = none }
unregister_serializer varchar_type r = record r { varchar = none }
unregister_serializer json_type r = record r { json = none }
unregister_serializer binary_type r = record r { binary = none }
unregister_serializer xml_type r = record r { xml = none }

unfoldable pub clear_serializer_registry : Registry → Registry
unfolding unregister_serializer
clear_serializer_registry r = unregister_serializer xml_type (
    unregister_serializer binary_type (
      unregister_serializer json_type (
        unregister_serializer varchar_type (
          unregister_serializer char_type (
            unregister_serializer boolean_type (
              unregister_serializer timestamp_ltz_type (
                unregister_serializer timestamp_tz_type (
                  unregister_serializer timestamp_type (unregister_serializer date_type (r))))))))))

unfoldable pub has_serializer : SerializerType → Registry → Bool
unfolding entry
has_serializer t r = is_some (entry t r)

abbrev pub all_types : List SerializerType
all_types =
    date_type ∷ timestamp_type ∷ timestamp_tz_type ∷ timestamp_ltz_type ∷ boolean_type ∷ char_type
    ∷ varchar_type ∷ json_type ∷ binary_type ∷ xml_type ∷ []

unfoldable pub keep_registered : Registry → List SerializerType → List SerializerType
unfolding has_serializer
keep_registered r [] = []
keep_registered r (t ∷ more) =
    let rest = keep_registered r more in if has_serializer t r then t ∷ rest else rest

unfoldable pub registered_serializer_types : Registry → List SerializerType
unfolding keep_registered
registered_serializer_types r = keep_registered r all_types

unfoldable pub snapshot : Registry → List SerializerType → List (SerializerType × ℕ)
unfolding entry
snapshot r [] = []
snapshot r (t ∷ more) = elim (entry t r) [
  | none ↦ snapshot r more
  | some s ↦ (t, s) ∷ snapshot r more
]

unfoldable pub serializer_mapping : Registry → List (SerializerType × ℕ)
unfolding snapshot
serializer_mapping r = snapshot r all_types

unfoldable pub type_index : SerializerType → ℕ
type_index date_type = 0
type_index timestamp_type = 1
type_index timestamp_tz_type = 2
type_index timestamp_ltz_type = 3
type_index boolean_type = 4
type_index char_type = 5
type_index varchar_type = 6
type_index json_type = 7
type_index binary_type = 8
type_index xml_type = 9

unfoldable pub type_beq : SerializerType → SerializerType → Bool
unfolding type_index
type_beq t u = nat_beq (type_index t) (type_index u)

-- What a driver or a caller hands over; the numbers stand for the identity of an object or number.
pub data Native : Type 0 where
  undefined null symbol callable : Native
  text : Text → Native
  boolean_value : Bool → Native
  number_value bigint_value : ℕ → Native
  date_value : Option Text → Native
  buffer array_buffer array plain_record instance_value : ℕ → Native

pub data SerializerError : Type 0 where
  unsupported_native_value : SerializerType → SerializerError
  invalid_date_value : SerializerType → SerializerError
  date_failed : DateError → SerializerError
  strategy_failed : ℕ → SerializerError

unfoldable pub is_zoned : SerializerType → Bool
is_zoned timestamp_tz_type = true
is_zoned timestamp_ltz_type = true
is_zoned _ = false

unfoldable pub is_temporal : SerializerType → Bool
is_temporal date_type = true
is_temporal timestamp_type = true
is_temporal timestamp_tz_type = true
is_temporal timestamp_ltz_type = true
is_temporal _ = false

unfoldable pub is_boolean_native : Native → Bool
is_boolean_native (text s) = true
is_boolean_native (boolean_value b) = true
is_boolean_native _ = false

unfoldable pub is_text_native : Native → Bool
is_text_native (text s) = true
is_text_native (buffer a) = true
is_text_native _ = false

unfoldable pub is_binary_native : Native → Bool
is_binary_native (text s) = true
is_binary_native (buffer a) = true
is_binary_native (array_buffer a) = true
is_binary_native _ = false

unfoldable pub is_json_native : Native → Bool
is_json_native (text s) = true
is_json_native (number_value n) = true
is_json_native (boolean_value b) = true
is_json_native (buffer a) = true
is_json_native (array a) = true
is_json_native (plain_record a) = true
is_json_native _ = false

-- the second `switch`; a temporal type does not reach it
unfoldable pub is_supported : SerializerType → Native → Bool
unfolding is_boolean_native is_text_native is_binary_native is_json_native
is_supported boolean_type v = is_boolean_native v
is_supported char_type v = is_text_native v
is_supported varchar_type v = is_text_native v
is_supported xml_type v = is_text_native v
is_supported binary_type v = is_binary_native v
is_supported json_type v = is_json_native v
is_supported _ v = false

unfoldable pub strategy_outcome : Result ℕ Native → Result SerializerError Native
strategy_outcome (ok v) = ok v
strategy_outcome (err e) = err (strategy_failed e)

module _ (luxon : Luxon) where
  abbrev zone_required : SerializerType → ZoneOptions
  zone_required t = record { source_zone = none; target_zone = none; require_zone = is_zoned t }

  unfoldable pub parse_outcome :
      {A : Type 0} → Result DateError A → Result SerializerError (Unit {0})
  parse_outcome (ok d) = ok tt
  parse_outcome (err e) = err (date_failed e)

  unfoldable pub assert_temporal : SerializerType → Native → Result SerializerError (Unit {0})
  unfolding parse_outcome is_zoned
  assert_temporal t (text s) = parse_outcome (parse_input luxon (date_text s) (zone_required t))
  assert_temporal t (date_value d) = guard (is_valid luxon (date_object d)) (invalid_date_value t)
  assert_temporal t _ = err (unsupported_native_value t)

  unfoldable pub assert_native_value : SerializerType → Native → Result SerializerError (Unit {0})
  unfolding is_temporal assert_temporal is_supported
  assert_native_value t v =
      if is_temporal t
      then assert_temporal t v
      else guard (is_supported t v) (unsupported_native_value t)

  -- `strategies` says what the caller's function at an address returns or throws.
  unfoldable pub apply_serializer :
      (ℕ → SerializerType → Native → Result ℕ Native)
      → Option ℕ
      → SerializerType
      → Native
      → Result SerializerError Native
  unfolding assert_native_value strategy_outcome
  apply_serializer strategies none t v = ok v
  apply_serializer strategies (some s) t v = do
    assert_native_value t v
    strategy_outcome (strategies s t v)

  unfoldable pub serialize_value :
      (ℕ → SerializerType → Native → Result ℕ Native)
      → Registry
      → SerializerType
      → Native
      → Result SerializerError Native
  unfolding apply_serializer entry
  serialize_value strategies r t null = ok null
  serialize_value strategies r t undefined = ok null
  serialize_value strategies r t v = apply_serializer strategies (entry t r) t v
