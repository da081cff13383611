-- ===== src/Outputs/Tests.antt =====
-- A composite output with a renamed field.
use typeorm_procedure_kit.Common.{
  ℕ, ◌≡◌, ◌↔◌, refl, none, some, List, [], ◌∷◌, ◌++◌, Bool, false, Result, ok, err, ◌>>=◌,
}
use typeorm_procedure_kit.Common.Text.{Text, codes}
use typeorm_procedure_kit.Value.{Value, null, string}
use typeorm_procedure_kit.ErrorHandler.{Fault}
use typeorm_procedure_kit.Metadata.{StructuredField, StructuredType, postgres_composite}
use typeorm_procedure_kit.Serializer.{SerializerType, timestamp_tz_type, char_type}
use typeorm_procedure_kit.Materializer.{OutBinding, object_type, Row}
use typeorm_procedure_kit.Payload.{
  Properties, plain_object, PayloadValue, json_text, or_error, bad_json, index_composite_input_keys,
  normalize_composite_input,
}
use typeorm_procedure_kit.Outputs.{
  get_serializer_type, transform_composite_record, unknown_output_field, load_composite_outputs,
}
use typeorm_procedure_kit.Outputs.Source.{AllNamed}
use typeorm_procedure_kit.Outputs.Transformed.{Delivers, transform_composite_record-ok_iff}
use typeorm_procedure_kit.Outputs.RoundTrip.{
  bound_fields, normalize_composite_input-transform_composite_record,
}

zoned : get_serializer_type (codes " TIMESTAMP(6) with time zone") ≡ some timestamp_tz_type
unfolding get_serializer_type
zoned = refl

padded : get_serializer_type (codes "character(3)") ≡ some char_type
unfolding get_serializer_type
padded = refl

other : get_serializer_type (codes "int4") ≡ none
unfolding get_serializer_type
other = refl

-- a strategy that puts a text before each name
abbrev renamed : Text → Text
renamed s = codes "my_" ++ s

abbrev kept_value : SerializerType → Value → Text → Text → Result Fault Value
kept_value t v name type = ok v

abbrev one_text : Properties → Result Fault Text
one_text p = ok (codes "{}")

abbrev field : Text → Text → StructuredField
field name type = record {
  name = name;
  argument_type = type;
  order = 1;
  owner = none;
  schema = none;
  package_name = none;
  type_name = none;
  type_oid = none;
}

abbrev person : StructuredType
person = record {
  kind = postgres_composite;
  type_name = codes "person";
  fields = field (codes "name") (codes "varchar") ∷ field (codes "age") (codes "int4") ∷ [];
  owner = none;
  schema = some (codes "app");
  package_name = none;
  type_oid = none;
}

abbrev returned_person : Properties
returned_person = (codes "NAME", string (codes "Ann")) ∷ []

abbrev delivered_person : Properties
delivered_person = (codes "my_name", string (codes "Ann")) ∷ (codes "my_age", null) ∷ []

transformed :
    transform_composite_record renamed kept_value returned_person person.fields
    ≡ ok delivered_person
unfolding transform_composite_record
transformed = refl

unknown :
    transform_composite_record renamed kept_value ((codes "size", null) ∷ []) person.fields
    ≡ err (unknown_output_field (codes "size"))
unfolding transform_composite_record
unknown = refl

accepted :
    index_composite_input_keys renamed one_text person.fields []
    ≡ ok (codes "my_age" ∷ codes "age" ∷ codes "my_name" ∷ codes "name" ∷ [])
unfolding index_composite_input_keys
accepted = refl

transform_composite_record-ok_iff_example :
    (transform_composite_record renamed kept_value returned_person person.fields
      ≡ ok delivered_person)
    ↔ (AllNamed person.fields returned_person
        × Delivers renamed kept_value returned_person [] person.fields delivered_person)
transform_composite_record-ok_iff_example =
    transform_composite_record-ok_iff renamed kept_value returned_person delivered_person
      person.fields

normalize_composite_input-transform_composite_record_example :
    normalize_composite_input renamed one_text (plain_object delivered_person) person ≡ (
      or_error bad_json (one_text (bound_fields person.fields delivered_person)) >>= λ text.
      ok (json_text text))
normalize_composite_input-transform_composite_record_example =
    normalize_composite_input-transform_composite_record renamed kept_value one_text returned_person
      delivered_person person (codes "my_age" ∷ codes "age" ∷ codes "my_name" ∷ codes "name" ∷ [])
      transformed accepted

abbrev no_arrays : ℕ → Bool
no_arrays a = false

abbrev parsed : Text → Result Fault PayloadValue
parsed s = ok (plain_object returned_person)

abbrev answered : Text → List Value → Result Fault (List Row)
answered statement values = ok (((codes "tpk_composite_0", string (codes "…")) ∷ []) ∷ [])

abbrev person_output : OutBinding
person_output = record {
  name = codes "p_person";
  type = object_type;
  database_type = some (codes "app.person");
  structured_type = some person;
}

loaded :
    load_composite_outputs renamed kept_value [] no_arrays parsed answered
      ((codes "p_person", string (codes "(Ann,)")) ∷ [])
      (person_output ∷ [])
    ≡ ok ((codes "p_person", some delivered_person) ∷ [])
unfolding load_composite_outputs
loaded = refl
