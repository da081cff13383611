-- ===== src/Outputs.antt =====
-- src/adapters/postgres/postgre-result-materializer.ts: the composite outputs. The naming strategy, the
-- serializer, `JSON.parse`, which objects are arrays, and what the server answers to the query are arguments.
pub mod Source
pub mod Transformed
pub mod Keys
pub mod RoundTrip
mod Tests
use typeorm_procedure_kit.Common.{
  ℕ, zero, suc, ◌≡◌, Bool, true, false, not, ◌&&◌, ◌||◌, Option, none, some, List, [], ◌∷◌, ◌++◌,
  length, take, contains, if◌then◌else◌, Result, ok, err, ◌>>=◌, ◌>>◌,
}
use typeorm_procedure_kit.Common.JsMap.{get, has, put}
use typeorm_procedure_kit.Common.Text.{Text, text_eq, codes, trim, join, to_lower_case}
use typeorm_procedure_kit.Regex.{Regex, seq, opt, chr, plus, lit, digit, matches}
use typeorm_procedure_kit.Value.{
  Value, undefined, null, number, int, string, buffer, date, ref, Property, Heap, properties,
}
use typeorm_procedure_kit.Common.Int.{pos}
use typeorm_procedure_kit.ErrorHandler.{Fault, server_fault, wrapped_fault}
use typeorm_procedure_kit.Tracker.{Tracker}
use typeorm_procedure_kit.Metadata.{StructuredField, StructuredType}
use typeorm_procedure_kit.Serializer.{
  SerializerType, date_type, timestamp_type, timestamp_tz_type, boolean_type, char_type,
  varchar_type, json_type, binary_type, xml_type,
}
use typeorm_procedure_kit.Composite.{
  CompositeError, quote_composite_type, assert_supported_composite,
}
use typeorm_procedure_kit.Materializer.{
  OutBinding, Row, ProcedureResult, index_output_keys, read_output_value, materialize,
}
use typeorm_procedure_kit.PortalFetch.{Server, PortalEvent, MaterializeError, composite_error}
use typeorm_procedure_kit.Bindings.{decimal}
use typeorm_procedure_kit.Payload.{
  Properties, PayloadValue, plain_object, other_value, or_error, or_else,
}

pub data OutputError : Type 0 where
  bad_composite : CompositeError → OutputError
  query_failed invalid_json serializer_failed : Fault → OutputError
  no_conversion_row : OutputError
  no_conversion_column not_an_object unknown_output_field conflicting_output : Text → OutputError

-- Whatever an error of this kind is, it is a server error, or what the query or the serializer threw.
unfoldable pub output_fault : OutputError → Fault
output_fault (query_failed f) = f
output_fault (serializer_failed f) = f
output_fault (invalid_json f) = wrapped_fault f
output_fault _ = server_fault []

-- `^timestamp(?:\(\d+\))?` with an ending
abbrev timestamp_pattern : Text → Regex
timestamp_pattern ending =
    seq (lit (codes "timestamp"))
      (seq (opt (seq (chr b'(') (seq (plus digit) (chr b')')))) (lit ending))

-- `startsWith`
abbrev starts_with : Text → Text → Bool
starts_with prefix s = text_eq.beq (take (length prefix) s) prefix

-- The first test that holds.
abbrev first_of : List (Bool × SerializerType) → Option SerializerType
first_of [] = none
first_of ((test, t) ∷ rest) = if test then some t else first_of rest

-- getSerializerType
unfoldable pub get_serializer_type : Text → Option SerializerType
unfolding matches to_lower_case trim
get_serializer_type database_type =
    let normalized_type = to_lower_case (trim database_type) in
    let is = λ (s : Text). text_eq.beq normalized_type s in
    first_of (
      (is (codes "date"), date_type)
      ∷ (matches (timestamp_pattern (codes " with time zone")) normalized_type, timestamp_tz_type)
      ∷ (matches (timestamp_pattern (codes " without time zone")) normalized_type, timestamp_type)
      ∷ (matches (timestamp_pattern []) normalized_type, timestamp_type)
      ∷ (is (codes "boolean") || is (codes "bool"), boolean_type)
      ∷ (starts_with (codes "character varying") normalized_type, varchar_type)
      ∷ (is (codes "varchar"), varchar_type)
      ∷ (starts_with (codes "character(") normalized_type, char_type)
      ∷ (is (codes "character") || is (codes "char"), char_type)
      ∷ (is (codes "json") || is (codes "jsonb"), json_type)
      ∷ (is (codes "bytea"), binary_type)
      ∷ (is (codes "xml"), xml_type)
      ∷ [])

-- the own properties of an object of the heap, and those of a buffer: its bytes by their index
unfoldable pub own_properties : List Property → Properties
own_properties [] = []
own_properties (p ∷ ps) =
    let rest = own_properties ps in if p.is_own then (p.key, p.value) ∷ rest else rest

unfoldable pub byte_properties : ℕ → List ℕ → Properties
unfolding decimal
byte_properties index [] = []
byte_properties index (b ∷ bytes) =
    (decimal index, number (int (pos b))) ∷ byte_properties (suc index) bytes

-- what `Object.keys` and an index see of a value
unfoldable pub read_object : Heap → (ℕ → Bool) → Value → PayloadValue
unfolding own_properties byte_properties
read_object heap is_array (ref a) =
    if is_array a then other_value (ref a) else plain_object (own_properties (properties heap a))
read_object heap is_array (buffer bytes) = plain_object (byte_properties 0 bytes)
read_object heap is_array (date d) = plain_object []
read_object heap is_array v = other_value v

-- `value ?? null`
abbrev pub or_null : Value → Value
or_null undefined = null
or_null v = v

-- the first key that is no field's name up to case
unfoldable pub unknown_key : List Text → Properties → Option Text
unknown_key field_names [] = none
unknown_key field_names ((key, value) ∷ rest) =
    let later = unknown_key field_names rest in
    if contains (to_lower_case key) field_names then later else some key

unfoldable pub lowered_names : List StructuredField → List Text
lowered_names [] = []
lowered_names (f ∷ fields) = to_lower_case f.name ∷ lowered_names fields

-- the bindings that have a structured type
unfoldable pub composite_bindings : List OutBinding → List (OutBinding × StructuredType)
composite_bindings [] = []
composite_bindings (b ∷ bindings) = elim b.structured_type [
  | none ↦ composite_bindings bindings
  | some t ↦ (b, t) ∷ composite_bindings bindings
]

unfoldable pub alias : ℕ → Text
unfolding decimal
alias index = codes "tpk_composite_" ++ decimal index

-- one expression of the conversion query
unfoldable pub select_expression : ℕ → Text → Text
unfolding decimal alias
select_expression index qualified_type =
    codes "to_jsonb($"
    ++ decimal (suc index)
    ++ codes "::"
    ++ qualified_type
    ++ codes ")::text AS "
    ++ (b'"' ∷ alias index)
    ++ (b'"' ∷ [])

-- the value of a field in the object that the server returned
unfoldable pub source_value : StructuredField → Properties → Value
unfolding index_output_keys get
source_value f value = elim (get (index_output_keys value []) (to_lower_case f.name)) [
  | none ↦ null
  | some source_key ↦ or_else (get value source_key) undefined
]

module _ (transform_column_name : Text → Text)
    (serialize_value : SerializerType → Value → Text → Text → Result Fault Value) where
  -- serializeCompositeField
  unfoldable pub serialize_composite_field :
      StructuredField → Value → Text → Result OutputError Value
  unfolding get_serializer_type
  serialize_composite_field f value output_name = elim (get_serializer_type f.argument_type) [
    | none ↦ ok (or_null value)
    | some t ↦ or_error serializer_failed (serialize_value t value output_name f.argument_type)
  ]

  -- the loop over the fields
  unfoldable pub transform_fields :
      List StructuredField → Properties → Properties → Result OutputError Properties
  unfolding serialize_composite_field source_value has put
  transform_fields [] value result = ok result
  transform_fields (f ∷ fields) value result =
      let output_name = transform_column_name f.name in
      let rest = serialize_composite_field f (source_value f value) output_name >>= λ v.
      transform_fields fields value (put result output_name v) in
      if has result output_name then err (conflicting_output output_name) else rest

  -- transformCompositeRecord
  unfoldable pub transform_composite_record :
      Properties → List StructuredField → Result OutputError Properties
  unfolding unknown_key lowered_names transform_fields
  transform_composite_record value fields = elim (unknown_key (lowered_names fields) value) [
    | some key ↦ err (unknown_output_field key)
    | none ↦ transform_fields fields value []
  ]

  module _ (heap : Heap) (is_array : ℕ → Bool) (parse_json : Text → Result Fault PayloadValue) where
    abbrev parsed_value : Value → Result OutputError PayloadValue
    parsed_value (string s) = or_error invalid_json (parse_json s)
    parsed_value v = ok (read_object heap is_array v)

    abbrev transformed_object :
        StructuredType → Text → PayloadValue → Result OutputError (Option Properties)
    transformed_object t binding_name (other_value v) = err (not_an_object binding_name)
    transformed_object t binding_name (plain_object value) = do
      result ← transform_composite_record value t.fields
      ok (some result)

    -- materializeCompositeValue: null, or an object
    unfoldable pub materialize_composite_value :
        Value → StructuredType → Text → Result OutputError (Option Properties)
    unfolding read_object transform_composite_record
    materialize_composite_value undefined t binding_name = ok none
    materialize_composite_value null t binding_name = ok none
    materialize_composite_value v t binding_name =
        parsed_value v >>= transformed_object t binding_name

    abbrev some_column : Text → Value → Result OutputError Value
    some_column name undefined = err (no_conversion_column name)
    some_column name v = ok v

    -- the loop over the columns of the row
    unfoldable pub read_outputs :
        ℕ
        → List (OutBinding × StructuredType)
        → Row
        → List (Text × Option Properties)
        → Result OutputError (List (Text × Option Properties))
    unfolding alias read_output_value materialize_composite_value put
    read_outputs index [] conversion_row outputs = ok outputs
    read_outputs index ((b, t) ∷ rest) conversion_row outputs = do
      value ←
          some_column (alias index)
            (read_output_value conversion_row (alias index) (transform_column_name (alias index)))
      output ← materialize_composite_value value t b.name
      read_outputs (suc index) rest conversion_row (put outputs b.name output)

    module _ (query : Text → List Value → Result Fault (List Row)) (output_record : Row) where
      -- the expressions of the query, each with its value
      unfoldable pub conversions :
          ℕ → List (OutBinding × StructuredType) → Result OutputError (List (Text × Value))
      unfolding assert_supported_composite quote_composite_type read_output_value select_expression
      conversions index [] = ok []
      conversions index ((b, t) ∷ rest) = do
        or_error bad_composite (assert_supported_composite b.database_type t)
        qualified_type ← or_error bad_composite (quote_composite_type t)
        others ← conversions (suc index) rest
        ok (
            (
              select_expression index qualified_type,
              or_null (read_output_value output_record b.name (transform_column_name b.name)),
            )
            ∷ others)

      abbrev first_row : List Row → Result OutputError Row
      first_row [] = err no_conversion_row
      first_row (row ∷ rows) = ok row

      abbrev firsts : List (Text × Value) → List Text
      firsts [] = []
      firsts ((expression, value) ∷ rest) = expression ∷ firsts rest

      abbrev seconds : List (Text × Value) → List Value
      seconds [] = []
      seconds ((expression, value) ∷ rest) = value ∷ seconds rest

      abbrev converted :
          List (OutBinding × StructuredType) → Result OutputError (List (Text × Option Properties))
      converted [] = ok []
      converted (c ∷ rest) = do
        selected ← conversions 0 (c ∷ rest)
        rows ←
            or_error query_failed
              (query (codes "SELECT " ++ join (codes ", ") (firsts selected)) (seconds selected))
        row ← first_row rows
        read_outputs 0 (c ∷ rest) row []

      -- loadCompositeOutputs
      unfoldable pub load_composite_outputs :
          List OutBinding → Result OutputError (List (Text × Option Properties))
      unfolding composite_bindings conversions read_outputs
      load_composite_outputs out_bindings = converted (composite_bindings out_bindings)

abbrev own : Properties → List Property
own [] = []
own ((key, value) ∷ rest) = record { key = key; is_own = true; value = value } ∷ own rest

-- the objects of the outputs are new in the heap
unfoldable pub allocate : Heap → List (Text × Option Properties) → Heap × List (Text × Value)
allocate heap [] = (heap, [])
allocate heap ((name, none) ∷ outputs) =
    let (heap', values) = allocate heap outputs in (heap', (name, null) ∷ values)
allocate heap ((name, some result) ∷ outputs) =
    let (heap', values) = allocate (heap ++ (own result ∷ [])) outputs in
    (heap', (name, ref (length heap)) ∷ values)

module _ (transform_column_name : Text → Text) (cursors_names : List Text) (output_record : Row)
    (server : Server) where
  -- materialize, behind what loadCompositeOutputs returned or threw
  unfoldable pub materialize_loaded :
      Heap
      → Result OutputError (List (Text × Option Properties))
      → List OutBinding
      → Tracker
      → List PortalEvent × Result MaterializeError ProcedureResult
  unfolding output_fault allocate materialize
  materialize_loaded heap (err e) bindings t = ([], err (composite_error (output_fault e)))
  materialize_loaded heap (ok outputs) bindings t =
      let (heap', values) = allocate heap outputs in
      materialize transform_column_name cursors_names output_record heap' server (ok values)
        bindings t
