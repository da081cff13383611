-- ===== src/Composite.antt =====
-- src/adapters/postgres/postgre-composite.ts: which composite types are supported, and their quoted names.
use typeorm_procedure_kit.Common.{
  ◌-◌, drop, length, Bool, false, Option, none, some, List, [], ◌∷◌, if◌then◌else◌, Result, ok, err,
  ◌>>=◌,
}
use typeorm_procedure_kit.Common.Text.{Text, text_eq, codes, trim}
use typeorm_procedure_kit.Identifier.{
  IdentifierError, quote_postgres_identifier, quote_postgres_qualified_identifier,
}
use typeorm_procedure_kit.Metadata.{
  postgres_composite, oracle_record, StructuredField, StructuredType,
}

pub data CompositeError : Type 0 where
  unsupported_kind missing_schema unsupported_array unsupported_nesting : CompositeError
  bad_identifier : IdentifierError → CompositeError

abbrev pub identifier_result : Result IdentifierError Text → Result CompositeError Text
identifier_result (ok s) = ok s
identifier_result (err e) = err (bad_identifier e)

abbrev quoted_type : Option Text → Text → Result CompositeError Text
quoted_type none type_name = err missing_schema
quoted_type (some schema) type_name =
    identifier_result (quote_postgres_qualified_identifier (schema ∷ type_name ∷ []))

-- quotePostgreCompositeType
unfoldable pub quote_composite_type : StructuredType → Result CompositeError Text
unfolding quote_postgres_qualified_identifier
quote_composite_type t = elim t.kind [
  | oracle_record ↦ err unsupported_kind
  | postgres_composite ↦ quoted_type t.schema t.type_name
]

-- `endsWith('[]')`
unfoldable pub is_array_type : Text → Bool
is_array_type s = text_eq.beq (drop (length s - 2) s) (codes "[]")

abbrev is_array : Option Text → Bool
is_array none = false
is_array (some s) = is_array_type (trim s)

-- the first field with a type name
unfoldable pub nested_field : List StructuredField → Option Text
nested_field [] = none
nested_field (f ∷ fields) = elim f.type_name [ none ↦ nested_field fields | some t ↦ some f.name ]

-- its error, in whose message the name of the field is quoted
abbrev nesting_error : Option Text → Result CompositeError (Unit {0})
nesting_error none = ok tt
nesting_error (some name) = do
  quoted ← identifier_result (quote_postgres_identifier name)
  err unsupported_nesting

-- assertSupportedPostgreComposite
unfoldable pub assert_supported_composite :
    Option Text → StructuredType → Result CompositeError (Unit {0})
unfolding quote_composite_type is_array_type nested_field quote_postgres_identifier
assert_supported_composite argument_type t = do
  qualified_type ← quote_composite_type t
  if is_array argument_type then err unsupported_array else nesting_error (nested_field t.fields)
