-- ===== src/Payload.antt =====
-- src/adapters/postgres/postgre-bindings.ts: the values of a payload and of composite inputs. The naming
-- strategy and `JSON.stringify` are arguments; a payload is read through its own properties.
use typeorm_procedure_kit.Common.{
  ℕ, ◌+◌, ◌/◌, ◌%◌, Bool, true, false, not, ◌&&◌, Option, none, some, List, [], ◌∷◌, take, drop,
  get_elem?, ltb, contains, if◌then◌else◌, Result, ok, err, ◌>>=◌, ◌>>◌,
}
use typeorm_procedure_kit.Common.JsMap.{get, has, put}
use typeorm_procedure_kit.Common.Text.{Text, text_eq, codes, trim, to_lower_case}
use typeorm_procedure_kit.Value.{Value, undefined, null, string, buffer}
use typeorm_procedure_kit.ErrorHandler.{Fault}
use typeorm_procedure_kit.Portal.{PortalError}
use typeorm_procedure_kit.Identifier.{IdentifierError}
use typeorm_procedure_kit.Metadata.{StructuredField, StructuredType}
use typeorm_procedure_kit.Composite.{CompositeError}

abbrev pub Properties : Type 0
Properties = List (Text × Value)

-- a value of a payload: a plain object with its properties, or any other value
pub data PayloadValue : Type 0 where
  plain_object : Properties → PayloadValue
  other_value : Value → PayloadValue

-- a payload: none, a text or a number, an array, or an object
pub data Payload : Type 0 where
  absent unsupported_payload : Payload
  positional : List PayloadValue → Payload
  named : List (Text × PayloadValue) → Payload

-- what is bound: a value, a portal name, or the JSON text of a composite
pub data Binding : Type 0 where
  bound : PayloadValue → Binding
  portal_name json_text : Text → Binding

abbrev pub null_binding : Binding
null_binding = bound (other_value null)

pub data BindingError : Type 0 where
  procedure_not_found bad_payload not_a_plain_object : BindingError
  conflicting_keys unknown_field conflicting_fields conflicting_metadata : Text → BindingError
  bad_portal : PortalError → BindingError
  bad_composite : CompositeError → BindingError
  bad_name : IdentifierError → BindingError
  bad_json : Fault → BindingError

abbrev pub or_error {ℓ κ μ} :
    {E : Type ℓ} {F : Type κ} {A : Type μ} → (E → F) → Result E A → Result F A
or_error f (ok a) = ok a
or_error f (err e) = err (f e)

-- `value ?? null`, and whether `??` takes the right side
abbrev pub is_nullish : PayloadValue → Bool
is_nullish (other_value undefined) = true
is_nullish (other_value null) = true
is_nullish _ = false

abbrev pub present : Option PayloadValue → Option PayloadValue
present none = none
present (some v) = if is_nullish v then none else some v

abbrev pub or_else {ℓ} : {A : Type ℓ} → Option A → A → A
or_else none a = a
or_else (some b) a = b

abbrev pub null_value : PayloadValue
null_value = other_value null

-- `argumentName.replace(/^p_/, '')`
unfoldable pub strip_prefix : Text → Text
strip_prefix s = if text_eq.beq (take 2 s) (codes "p_") then drop 2 s else s

-- readPayloadValue
unfoldable pub read_payload_value : Payload → ℕ → Text → PayloadValue
unfolding strip_prefix get
read_payload_value (positional values) index argument_name =
    or_else (present (get_elem? values index)) null_value
read_payload_value (named record') index argument_name =
    or_else (present (get record' (strip_prefix argument_name)))
      (or_else (present (get record' argument_name)) null_value)
read_payload_value _ index argument_name = null_value

-- readPayloadValue with `shouldRejectAliasConflict`
unfoldable pub read_composite_value : Payload → ℕ → Text → Result BindingError PayloadValue
unfolding strip_prefix get has
read_composite_value (named record') index argument_name =
    let normalized_name = strip_prefix argument_name in
    let has_normalized_name = has record' normalized_name in
    let has_argument_name = has record' argument_name in
    if not (text_eq.beq normalized_name argument_name) && (has_normalized_name && has_argument_name)
    then err (conflicting_keys argument_name)
    else ok (
        if has_normalized_name
        then or_else (get record' normalized_name) null_value
        else or_else (get record' argument_name) null_value)
read_composite_value (positional values) index argument_name =
    ok (or_else (present (get_elem? values index)) null_value)
read_composite_value _ index argument_name = ok null_value

-- a hexadecimal digit, and the bytes of a buffer in hexadecimal
abbrev pub hex_digit : ℕ → ℕ
hex_digit n = if ltb n 10 then n + 48 else n + 87

unfoldable pub to_hex : List ℕ → Text
to_hex [] = []
to_hex (b ∷ bytes) = hex_digit (b / 16) ∷ hex_digit (b % 16) ∷ to_hex bytes

abbrev pub is_bytea : StructuredField → Bool
is_bytea f = text_eq.beq (to_lower_case (trim f.argument_type)) (codes "bytea")

-- normalizeCompositeFieldValue
unfoldable pub normalize_composite_field_value : StructuredField → Value → Value
unfolding to_hex
normalize_composite_field_value f undefined = null
normalize_composite_field_value f (buffer bytes) =
    if is_bytea f then string (92 ∷ b'x' ∷ to_hex bytes) else buffer bytes
normalize_composite_field_value f v = v

-- the keys of `new Set([field.name, transformedName])`, put into those accepted so far
unfoldable pub add_keys : List Text → List Text → Result BindingError (List Text)
add_keys [] keys = ok keys
add_keys (key ∷ rest) keys =
    let added = add_keys rest (key ∷ keys) in
    if contains key keys then err (conflicting_metadata key) else added

-- the first key that no field has
unfoldable pub check_known : List Text → Properties → Result BindingError (Unit {0})
check_known accepted_keys [] = ok tt
check_known accepted_keys ((key, value) ∷ input) =
    let rest = check_known accepted_keys input in
    if contains key accepted_keys then rest else err (unknown_field key)

module _ (transform_column_name : Text → Text) (to_json : Properties → Result Fault Text) where
  abbrev pub field_keys : StructuredField → List Text
  field_keys f =
      let transformed_name = transform_column_name f.name in
      if text_eq.beq f.name transformed_name then f.name ∷ [] else f.name ∷ transformed_name ∷ []

  unfoldable pub index_composite_input_keys :
      List StructuredField → List Text → Result BindingError (List Text)
  unfolding add_keys
  index_composite_input_keys [] keys = ok keys
  index_composite_input_keys (f ∷ fields) keys = do
    added ← add_keys (field_keys f) keys
    index_composite_input_keys fields added

  abbrev pub field_value : StructuredField → Properties → Value
  field_value f input =
      if has input f.name
      then or_else (get input f.name) undefined
      else if has input (transform_column_name f.name)
      then or_else (get input (transform_column_name f.name)) undefined
      else null

  -- the loop over the fields
  unfoldable pub normalize_fields :
      List StructuredField → Properties → Properties → Result BindingError Properties
  unfolding normalize_composite_field_value has get put
  normalize_fields [] input normalized = ok normalized
  normalize_fields (f ∷ fields) input normalized =
      let transformed_name = transform_column_name f.name in
      let rest =
        normalize_fields fields input
          (put normalized f.name (normalize_composite_field_value f (field_value f input))) in
      if not (text_eq.beq transformed_name f.name)
        && (has input f.name && has input transformed_name)
      then err (conflicting_fields f.name)
      else rest

  -- normalizeCompositeInput
  unfoldable pub normalize_composite_input :
      PayloadValue → StructuredType → Result BindingError Binding
  unfolding index_composite_input_keys check_known normalize_fields
  normalize_composite_input (other_value undefined) t = ok null_binding
  normalize_composite_input (other_value null) t = ok null_binding
  normalize_composite_input (other_value v) t = err not_a_plain_object
  normalize_composite_input (plain_object input) t = do
    accepted_keys ← index_composite_input_keys t.fields []
    check_known accepted_keys input
    normalized ← normalize_fields t.fields input []
    text ← or_error bad_json (to_json normalized)
    ok (json_text text)
