-- ===== src/Metadata.antt =====
-- src/core/procedure-list-base.ts: the metadata rows of procedure arguments, decoded and checked. The row
-- numbers and paths, which only messages show, are left out; `Number` on a text is an argument.
pub mod Structured
pub mod Decoded
mod Tests
use typeorm_procedure_kit.Common.{
  ℕ, zero, suc, ◌+◌, ◌≡◌, Bool, true, false, not, ◌||◌, ◌&&◌, Option, none, some, List, [], ◌∷◌,
  nat_beq, nat_eq, ltb, leb, length, contains, if◌then◌else◌, Result, ok, err, guard, ◌>>=◌, ◌>>◌,
  Eq,
}
use typeorm_procedure_kit.Common.Int.{ℤ, pos, negsuc}
use typeorm_procedure_kit.Common.Text.{Text, text_eq, codes, trim, to_lower_case, to_upper_case}
use typeorm_procedure_kit.Value.{Number, int, float, is_safe_integer}

mutual
  -- what a driver returns in a column; `other` is a boolean, bigint, symbol or function
  pub data Json : Type 0 where
    undefined null other : Json
    text : Text → Json
    number : Number → Json
    array : Jsons → Json
    object : Fields → Json

  pub data Jsons : Type 0 where
    no_items : Jsons
    item : Json → Jsons → Jsons

  pub data Fields : Type 0 where
    no_fields : Fields
    field : Text → Json → Fields → Fields

-- `record[key]`
unfoldable pub lookup : Text → Fields → Json
lookup key no_fields = undefined
lookup key (field k v rest) = if text_eq.beq k key then v else lookup key rest

unfoldable pub count_items : Jsons → ℕ
count_items no_items = 0
count_items (item v vs) = suc (count_items vs)

pub data Mode : Type 0 where
  in_mode out_mode in_out_mode : Mode

pub data Kind : Type 0 where
  oracle_record postgres_composite : Kind

-- which check failed, with the key that was read
pub data MetadataError : Type 0 where
  not_an_object unsupported_mode unsupported_kind bad_fields too_many_fields duplicate_field :
      MetadataError
  bad_text bad_integer missing : Text → MetadataError

-- a text that is not blank, trimmed
unfoldable pub non_blank : Text → Text → Result MetadataError Text
non_blank key s =
    let trimmed = trim s in if nat_beq (length trimmed) 0 then err (bad_text key) else ok trimmed

unfoldable pub required_text : Text → Json → Result MetadataError Text
unfolding non_blank
required_text key (text s) = non_blank key s
required_text key _ = err (bad_text key)

-- readString
unfoldable pub read_string : Text → Fields → Result MetadataError Text
unfolding required_text lookup
read_string key row = required_text key (lookup key row)

-- a text, or none where the value is undefined or null
unfoldable pub optional_text : Text → Json → Result MetadataError (Option Text)
unfolding required_text
optional_text key undefined = ok none
optional_text key null = ok none
optional_text key v = do ok (some (← required_text key v))

-- readOptionalString and readStructuredString
unfoldable pub read_optional_string : Text → Fields → Result MetadataError (Option Text)
unfolding optional_text lookup
read_optional_string key row = optional_text key (lookup key row)

unfoldable pub require {ℓ} : {A : Type ℓ} → Text → Option A → Result MetadataError A
require key none = err (missing key)
require key (some a) = ok a

-- readRequiredStructuredString
unfoldable pub read_required_string : Text → Fields → Result MetadataError Text
unfolding read_optional_string require
read_required_string key row = do value ← read_optional_string key row; require key value

-- replaceAll(' ', '')
unfoldable pub without_blanks : Text → Text
without_blanks [] = []
without_blanks (c ∷ s) = let rest = without_blanks s in if nat_beq c 32 then rest else c ∷ rest

unfoldable pub mode_of : Text → Result MetadataError Mode
mode_of s =
    if text_eq.beq s (codes "IN")
    then ok in_mode
    else if text_eq.beq s (codes "OUT")
    then ok out_mode
    else if text_eq.beq s (codes "INOUT") || text_eq.beq s (codes "IN/OUT")
    then ok in_out_mode
    else err unsupported_mode

unfoldable pub kind_of : Json → Result MetadataError Kind
kind_of (text s) =
    if text_eq.beq s (codes "oracle-record")
    then ok oracle_record
    else if text_eq.beq s (codes "postgres-composite")
    then ok postgres_composite
    else err unsupported_kind
kind_of _ = err unsupported_kind

-- IProcedureStructuredField
pub record StructuredField : Type 0 where
  pub name : Text
  pub argument_type : Text
  pub order : ℕ
  pub owner : Option Text
  pub schema : Option Text
  pub package_name : Option Text
  pub type_name : Option Text
  pub type_oid : Option ℕ

-- IProcedureStructuredType
pub record StructuredType : Type 0 where
  pub kind : Kind
  pub type_name : Text
  pub fields : List StructuredField
  pub owner : Option Text
  pub schema : Option Text
  pub package_name : Option Text
  pub type_oid : Option ℕ

-- IProcedureArgumentBase
pub record Argument : Type 0 where
  pub procedure_name : Text
  pub argument_name : Text
  pub argument_type : Text
  pub order : ℕ
  pub mode : Mode
  pub size : Option ℕ
  pub specific_name : Option Text
  pub owner : Option Text
  pub subprogram_id : Option ℕ
  pub overload : Option Text
  pub structured_type : Option StructuredType

unfoldable pub fields_of : Json → Result MetadataError Fields
fields_of (object row) = ok row
fields_of _ = err not_an_object

unfoldable pub items_of : Json → Result MetadataError Jsons
items_of (array no_items) = err bad_fields
items_of (array (item v vs)) = ok (item v vs)
items_of _ = err bad_fields

-- the loop over `names` and `orders`
unfoldable pub has_unique_fields : List Text → List ℕ → List StructuredField → Bool
has_unique_fields names orders [] = true
has_unique_fields names orders (f ∷ fs) =
    let rest = has_unique_fields (to_lower_case f.name ∷ names) (f.order ∷ orders) fs in
    not (contains (to_lower_case f.name) names || contains f.order orders) && rest

-- `fields.sort((left, right) => left.order - right.order)`, which is stable
unfoldable pub insert_field : StructuredField → List StructuredField → List StructuredField
insert_field f [] = f ∷ []
insert_field f (g ∷ gs) =
    let rest = insert_field f gs in if leb f.order g.order then f ∷ g ∷ gs else g ∷ rest

unfoldable pub sort_fields : List StructuredField → List StructuredField
unfolding insert_field
sort_fields [] = []
sort_fields (f ∷ fs) = insert_field f (sort_fields fs)

module _ (to_number : Text → Number) (max_metadata_rows : ℕ) where
  -- `Number(value)` for a number or text, and NaN for the rest, if it is a safe integer
  unfoldable pub safe_integer : Text → Number → Result MetadataError ℕ
  safe_integer key (int (pos n)) = if is_safe_integer (pos n) then ok n else err (bad_integer key)
  safe_integer key _ = err (bad_integer key)

  unfoldable pub required_integer : Text → Json → Result MetadataError ℕ
  unfolding safe_integer
  required_integer key (number x) = safe_integer key x
  required_integer key (text s) = safe_integer key (to_number s)
  required_integer key _ = err (bad_integer key)

  -- readStructuredInteger
  unfoldable pub optional_integer : Text → Json → Result MetadataError (Option ℕ)
  unfolding required_integer
  optional_integer key undefined = ok none
  optional_integer key null = ok none
  optional_integer key v = do ok (some (← required_integer key v))

  unfoldable pub read_integer : Text → Fields → Result MetadataError (Option ℕ)
  unfolding optional_integer lookup
  read_integer key row = optional_integer key (lookup key row)

  -- readRequiredStructuredInteger
  unfoldable pub read_required_integer : Text → Fields → Result MetadataError ℕ
  unfolding read_integer require
  read_required_integer key row = do value ← read_integer key row; require key value

  -- the order of an argument: a text must not be blank
  unfoldable pub order_of : Json → Result MetadataError ℕ
  unfolding required_integer
  order_of (text s) =
      if nat_beq (length (trim s)) 0
      then err (bad_integer (codes "order"))
      else required_integer (codes "order") (text s)
  order_of v = required_integer (codes "order") v

  unfoldable pub positive : Text → Option ℕ → Result MetadataError (Option ℕ)
  positive key none = ok none
  positive key (some n) = if nat_beq n 0 then err (bad_integer key) else ok (some n)

  -- the size and the subprogram id: positive where they are given
  unfoldable pub read_positive : Text → Fields → Result MetadataError (Option ℕ)
  unfolding read_integer positive
  read_positive key row = do value ← read_integer key row; positive key value

  unfoldable pub decode_structured_field : Json → Result MetadataError StructuredField
  unfolding fields_of read_required_integer read_integer read_optional_string read_required_string
  decode_structured_field v = do
    row ← fields_of v
    order ← read_required_integer (codes "order") row
    type_oid ← read_integer (codes "typeOid") row
    type_name ← read_optional_string (codes "typeName") row
    name ← read_required_string (codes "name") row
    argument_type ← read_required_string (codes "argumentType") row
    owner ← read_optional_string (codes "owner") row
    schema ← read_optional_string (codes "schema") row
    package_name ← read_optional_string (codes "packageName") row
    ok (record {
      name = name;
      argument_type = argument_type;
      order = order;
      owner = owner;
      schema = schema;
      package_name = package_name;
      type_name = type_name;
      type_oid = type_oid;
    })

  unfoldable pub decode_fields : Jsons → Result MetadataError (List StructuredField)
  unfolding decode_structured_field
  decode_fields no_items = ok []
  decode_fields (item v vs) = do ok ((← decode_structured_field v) ∷ (← decode_fields vs))

  unfoldable pub checked_fields : Jsons → Result MetadataError (List StructuredField)
  unfolding decode_fields has_unique_fields sort_fields count_items
  checked_fields items = do
    guard (leb (count_items items) max_metadata_rows) too_many_fields
    fields ← decode_fields items
    guard (has_unique_fields [] [] fields) duplicate_field
    ok (sort_fields fields)

  unfoldable pub decode_record : Fields → Result MetadataError StructuredType
  unfolding kind_of items_of checked_fields read_required_string read_integer read_optional_string
      lookup
  decode_record row = do
    kind ← kind_of (lookup (codes "kind") row)
    type_name ← read_required_string (codes "typeName") row
    items ← items_of (lookup (codes "fields") row)
    fields ← checked_fields items
    type_oid ← read_integer (codes "typeOid") row
    owner ← read_optional_string (codes "owner") row
    schema ← read_optional_string (codes "schema") row
    package_name ← read_optional_string (codes "packageName") row
    ok (record {
      kind = kind;
      type_name = type_name;
      fields = fields;
      owner = owner;
      schema = schema;
      package_name = package_name;
      type_oid = type_oid;
    })

  unfoldable pub decode_structured_type : Json → Result MetadataError (Option StructuredType)
  unfolding decode_record
  decode_structured_type undefined = ok none
  decode_structured_type null = ok none
  decode_structured_type (object row) = do ok (some (← decode_record row))
  decode_structured_type _ = err not_an_object

  unfoldable pub decode_procedure_argument : Json → Result MetadataError Argument
  unfolding fields_of read_string mode_of without_blanks order_of read_positive read_optional_string
      decode_structured_type lookup
  decode_procedure_argument v = do
    row ← fields_of v
    raw_mode ← read_string (codes "mode") row
    mode ← mode_of (without_blanks (to_upper_case raw_mode))
    order ← order_of (lookup (codes "order") row)
    size ← read_positive (codes "size") row
    subprogram_id ← read_positive (codes "subprogramId") row
    specific_name ← read_optional_string (codes "specificName") row
    owner ← read_optional_string (codes "owner") row
    overload ← read_optional_string (codes "overload") row
    structured_type ← decode_structured_type (lookup (codes "structuredType") row)
    procedure_name ← read_string (codes "procedureName") row
    argument_name ← read_string (codes "argumentName") row
    argument_type ← read_string (codes "argumentType") row
    ok (record {
      procedure_name = procedure_name;
      argument_name = argument_name;
      argument_type = argument_type;
      order = order;
      mode = mode;
      size = size;
      specific_name = specific_name;
      owner = owner;
      subprogram_id = subprogram_id;
      overload = overload;
      structured_type = structured_type;
    })
