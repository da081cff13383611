-- ===== src/Metadata/Tests.antt =====
-- A row with a structured type of two fields, and the theorems on it.
use typeorm_procedure_kit.Common.{ℕ, ◌≡◌, ◌≤◌, refl, none, [], ◌∷◌, length, ok, err}
use typeorm_procedure_kit.Common.Int.{pos}
use typeorm_procedure_kit.Common.Text.{
  Text, codes, trim, trim_start, is_space, to_lower_case, to_upper_case, lower, upper,
}
use typeorm_procedure_kit.Value.{Number, int, float}
use typeorm_procedure_kit.Metadata.{
  Json, Jsons, text, number, object, no_items, item, no_fields, field, in_mode, StructuredField,
  Argument, duplicate_field, checked_fields, count_items, decode_fields, decode_structured_field,
  decode_procedure_argument, decode_structured_type, has_unique_fields, insert_field, sort_fields,
  lookup, non_blank, required_text, read_string, optional_text, read_optional_string, require,
  read_required_string, without_blanks, mode_of, fields_of, safe_integer, required_integer,
  optional_integer, read_integer, read_required_integer, order_of, positive, read_positive,
}
use typeorm_procedure_kit.Metadata.Structured.{Ascending, PairwiseApart, checked_fields-Ascending}

-- a conversion that reads no text as a number
abbrev nan : Text → Number
nan s = float (codes "NaN")

abbrev named_field : Text → ℕ → Json
named_field name order = object (
    field (codes "name") (text name) (
      field (codes "argumentType") (text (codes "int4"))
        (field (codes "order") (number (int (pos order))) no_fields)))

abbrev two_fields : Jsons
two_fields = item (named_field (codes "b") 2) (item (named_field (codes "a") 1) no_items)

abbrev decoded : Text → ℕ → StructuredField
decoded name order = record {
  name = name;
  argument_type = codes "int4";
  order = order;
  owner = none;
  schema = none;
  package_name = none;
  type_name = none;
  type_oid = none;
}

sorted : checked_fields nan 10 two_fields ≡ ok (decoded (codes "a") 1 ∷ decoded (codes "b") 2 ∷ [])
unfolding checked_fields decode_fields decode_structured_field fields_of read_required_integer
    read_integer read_optional_string read_required_string optional_text required_text non_blank
    require optional_integer required_integer safe_integer lookup has_unique_fields insert_field
    sort_fields count_items trim trim_start is_space to_lower_case lower
sorted = refl

same_name :
    checked_fields nan 10
      (item (named_field (codes "b") 2) (item (named_field (codes "B") 1) no_items))
    ≡ err duplicate_field
unfolding checked_fields decode_fields decode_structured_field fields_of read_required_integer
    read_integer read_optional_string read_required_string optional_text required_text non_blank
    require optional_integer required_integer safe_integer lookup has_unique_fields insert_field
    sort_fields count_items trim trim_start is_space to_lower_case lower
same_name = refl

checked_fields-Ascending_example :
    Ascending (decoded (codes "a") 1 ∷ decoded (codes "b") 2 ∷ [])
    × PairwiseApart (decoded (codes "a") 1 ∷ decoded (codes "b") 2 ∷ [])
    × (length (decoded (codes "a") 1 ∷ decoded (codes "b") 2 ∷ []) ≡ count_items two_fields)
    × (length (decoded (codes "a") 1 ∷ decoded (codes "b") 2 ∷ []) ≤ 10)
checked_fields-Ascending_example =
    checked_fields-Ascending nan 10 two_fields (decoded (codes "a") 1 ∷ decoded (codes "b") 2 ∷ [])
      sorted

abbrev row : Json
row = object (
    field (codes "procedureName") (text (codes "p")) (
      field (codes "argumentName") (text (codes "a")) (
        field (codes "argumentType") (text (codes "int4")) (
          field (codes "order") (number (int (pos 1)))
            (field (codes "mode") (text (codes " in ")) no_fields)))))

abbrev argument : Argument
argument = record {
  procedure_name = codes "p";
  argument_name = codes "a";
  argument_type = codes "int4";
  order = 1;
  mode = in_mode;
  size = none;
  specific_name = none;
  owner = none;
  subprogram_id = none;
  overload = none;
  structured_type = none;
}

accepted : decode_procedure_argument nan 10 row ≡ ok argument
unfolding decode_procedure_argument fields_of read_string mode_of without_blanks order_of
    read_positive read_optional_string decode_structured_type lookup required_text non_blank
    optional_text optional_integer required_integer safe_integer read_integer positive trim
    trim_start is_space to_upper_case upper
accepted = refl
