-- ===== src/Bindings.antt =====
-- src/adapters/postgres/postgre-bindings.ts: the CALL statement of a procedure with its bindings. The naming
-- strategy, `randomUUID` and `JSON.stringify` are arguments; a payload is read through its own properties.
pub mod Numbered
mod Tests
use typeorm_procedure_kit.Common.{
  ℕ, zero, suc, ◌+◌, ◌*◌, ◌/◌, ◌%◌, ◌≡◌, Bool, true, false, not, ◌&&◌, ◌||◌, Option, none, some,
  List, [], ◌∷◌, ◌++◌, map, length, take, drop, get_elem?, ltb, leb, contains, nat_beq,
  if◌then◌else◌, Result, ok, err, guard, ◌>>=◌, ◌>>◌,
}
use typeorm_procedure_kit.Common.JsMap.{get, has, put}
use typeorm_procedure_kit.Common.Text.{Text, text_eq, codes, trim, join, to_lower_case}
use typeorm_procedure_kit.Value.{Value, undefined, null, string, buffer, ref}
use typeorm_procedure_kit.ErrorHandler.{Fault}
use typeorm_procedure_kit.Portal.{PortalError, normalize_input}
use typeorm_procedure_kit.Identifier.{IdentifierError, quote_postgres_qualified_identifier}
use typeorm_procedure_kit.Metadata.{
  Mode, in_mode, out_mode, in_out_mode, StructuredField, StructuredType,
}
use typeorm_procedure_kit.Normalizer.{ProcedureArgument, ProcedureList}
use typeorm_procedure_kit.Materializer.{OutBinding, OutType, cursor_type, scalar_type, object_type}
use typeorm_procedure_kit.Composite.{
  CompositeError, quote_composite_type, assert_supported_composite,
}
use typeorm_procedure_kit.Payload.{
  Binding, BindingError, Payload, PayloadValue, Properties, bad_composite, bad_name, bad_payload,
  bad_portal, bound, named, normalize_composite_input, null_binding, null_value, or_error,
  other_value, plain_object, portal_name, procedure_not_found, read_composite_value,
  read_payload_value, unsupported_payload,
}

-- an expression in the list of the arguments, with the numbers of its placeholders
pub data Expression : Type 0 where
  placeholder : ℕ → Expression
  null_composite : Text → Expression
  composite : Text → ℕ → Expression

unfoldable pub decimal_from : ℕ → ℕ → Text
decimal_from zero n = []
decimal_from (suc fuel) n =
    let rest = decimal_from fuel (n / 10) in
    if ltb n 10 then (n + 48) ∷ [] else rest ++ ((n % 10 + 48) ∷ [])

-- String(n)
unfoldable pub decimal : ℕ → Text
unfolding decimal_from
decimal n = decimal_from (suc n) n

unfoldable pub render : Expression → Text
unfolding decimal
render (placeholder n) = b'$' ∷ decimal n
render (null_composite qualified_type) = codes "NULL::" ++ qualified_type
render (composite qualified_type n) =
    let p = (b'$' ∷ decimal n) ++ codes "::jsonb" in
    codes "CASE WHEN "
    ++ p
    ++ codes " IS NULL OR "
    ++ p
    ++ codes " = 'null'::jsonb THEN NULL::"
    ++ qualified_type
    ++ codes " ELSE jsonb_populate_record(NULL::"
    ++ qualified_type
    ++ codes ", "
    ++ p
    ++ codes ") END"

-- what the loop over the arguments has gathered
pub record Built : Type 0 where
  pub bindings : List Binding
  pub cursors_names : List Text
  pub out_bindings : List OutBinding
  pub expressions : List Expression

abbrev pub nothing_built : Built
nothing_built = record { bindings = []; cursors_names = []; out_bindings = []; expressions = [] }

abbrev pub is_in : Mode → Bool
is_in in_mode = true
is_in _ = false

abbrev pub is_out : Mode → Bool
is_out out_mode = true
is_out _ = false

abbrev pub out_binding : ProcedureArgument → OutType → OutBinding
out_binding a type = record {
  name = a.argument_name;
  type = type;
  database_type = some a.argument_type;
  structured_type = a.structured_type;
}

abbrev pub noted_out : ProcedureArgument → OutType → Built → Built
noted_out a type b =
    if is_in a.mode
    then b
    else record b { out_bindings = b.out_bindings ++ (out_binding a type ∷ []) }

-- `bindings.push(…)` and the expression with the new length
abbrev pub bind : Binding → (ℕ → Expression) → Built → Built
bind v expression b = record b {
  bindings = b.bindings ++ (v ∷ []);
  expressions = b.expressions ++ (expression (suc (length b.bindings)) ∷ []);
}

abbrev pub is_cursor : ProcedureArgument → Bool
is_cursor a = text_eq.beq (to_lower_case a.argument_type) (codes "refcursor")

abbrev pub as_value : PayloadValue → Value
as_value (plain_object properties) = ref 0
as_value (other_value v) = v

abbrev pub noted_cursor : ProcedureArgument → Built → Built
noted_cursor a b =
    if is_in a.mode
    then b
    else record b { cursors_names = b.cursors_names ++ (a.argument_name ∷ []) }

-- IBindingsObjectReturn
pub record BindingsObject : Type 0 where
  pub param_execute_string : Text
  pub built : Built
  pub open built use *
  pub out_names : List Text

abbrev pub is_unsupported : Payload → Bool
is_unsupported unsupported_payload = true
is_unsupported _ = false

unfoldable pub call_statement : Text → List Expression → Text
unfolding render
call_statement procedure expressions =
    codes "CALL " ++ procedure ++ b'(' ∷ join (codes ",") (map render expressions) ++ b')' ∷ []

abbrev pub found_arguments :
    Option (List ProcedureArgument) → Result BindingError (List ProcedureArgument)
found_arguments none = err procedure_not_found
found_arguments (some arguments') = ok arguments'

unfoldable pub arguments_of :
    Option ProcedureList → Text → Result BindingError (List ProcedureArgument)
unfolding get
arguments_of none process_name = err procedure_not_found
arguments_of (some procedures) process_name = found_arguments (get procedures process_name)

module _ (transform_column_name : Text → Text) (random_uuid : ℕ → Text)
    (to_json : Properties → Result Fault Text) where
  -- createCompositeExpression, with the value read
  unfoldable pub create_composite_expression :
      Mode → StructuredType → Text → PayloadValue → Built → Result BindingError Built
  unfolding normalize_composite_input
  create_composite_expression mode t qualified_type value b =
      let normalized_value = normalize_composite_input transform_column_name to_json value t in
      if is_out mode
      then ok (record b { expressions = b.expressions ++ (null_composite qualified_type ∷ []) })
      else (normalized_value >>= λ v. ok (bind v (composite qualified_type) b))

  unfoldable pub add_composite :
      Payload → ℕ → ProcedureArgument → StructuredType → Built → Result BindingError Built
  unfolding assert_supported_composite quote_composite_type read_composite_value
      create_composite_expression
  add_composite payload index a t b = do
    or_error bad_composite (assert_supported_composite (some a.argument_type) t)
    value ←
        if is_out a.mode then ok null_value else read_composite_value payload index a.argument_name
    qualified_type ← or_error bad_composite (quote_composite_type t)
    create_composite_expression a.mode t qualified_type value (noted_out a object_type b)

  unfoldable pub add_cursor : Payload → ℕ → ProcedureArgument → Built → Result BindingError Built
  unfolding normalize_input read_payload_value
  add_cursor payload index a b =
      let named = noted_cursor a (noted_out a cursor_type b) in
      if is_out a.mode
      then ok (bind null_binding placeholder named)
      else (or_error bad_portal (
            normalize_input (random_uuid index)
              (as_value (read_payload_value payload index a.argument_name)))
          >>= λ name. ok (bind (portal_name name) placeholder named))

  -- one round of the loop, by the structured type of the argument
  unfoldable pub add_typed :
      Option StructuredType → Payload → ℕ → ProcedureArgument → Built → Result BindingError Built
  unfolding add_composite add_cursor read_payload_value
  add_typed (some t) payload index a b = add_composite payload index a t b
  add_typed none payload index a b =
      let with_portal = add_cursor payload index a b in
      if is_cursor a
      then with_portal
      else ok (
          bind (bound (read_payload_value payload index a.argument_name)) placeholder
            (noted_out a scalar_type b))

  unfoldable pub add_argument : Payload → ℕ → ProcedureArgument → Built → Result BindingError Built
  unfolding add_typed
  add_argument payload index a b = add_typed a.structured_type payload index a b

  unfoldable pub build_arguments :
      Payload → ℕ → List ProcedureArgument → Built → Result BindingError Built
  unfolding add_argument
  build_arguments payload index [] b = ok b
  build_arguments payload index (a ∷ rest) b = do
    added ← add_argument payload index a b
    build_arguments payload (suc index) rest added

  unfoldable pub build :
      Text → Text → Option ProcedureList → Payload → Result BindingError BindingsObject
  unfolding build_arguments quote_postgres_qualified_identifier call_statement arguments_of
  build package_name process_name procedures payload = do
    procedure_arguments ← arguments_of procedures process_name
    guard (not (is_unsupported payload)) bad_payload
    b ← build_arguments payload 0 procedure_arguments nothing_built
    procedure ←
        or_error bad_name (quote_postgres_qualified_identifier (package_name ∷ process_name ∷ []))
    ok (record {
      param_execute_string = call_statement procedure b.expressions;
      built = b;
      out_names = map (λ o. o.name) b.out_bindings;
    })
