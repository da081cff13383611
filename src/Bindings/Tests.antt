-- ===== src/Bindings/Tests.antt =====
-- A procedure with a scalar, a composite and a cursor.
use typeorm_procedure_kit.Common.{ℕ, ◌≡◌, refl, none, some, List, [], ◌∷◌, length, Result, ok}
use typeorm_procedure_kit.Common.Int.{pos}
use typeorm_procedure_kit.Common.Text.{Text, codes, to_lower_case, trim, join}
use typeorm_procedure_kit.Regex.{matches}
use typeorm_procedure_kit.Value.{number, int}
use typeorm_procedure_kit.ErrorHandler.{Fault}
use typeorm_procedure_kit.Metadata.{
  Mode, in_mode, out_mode, in_out_mode, StructuredType, postgres_composite,
}
use typeorm_procedure_kit.Normalizer.{ProcedureArgument, ProcedureList}
use typeorm_procedure_kit.Materializer.{cursor_type, object_type}
use typeorm_procedure_kit.Bindings.{placeholder, composite, BindingsObject, arguments_of, build}
use typeorm_procedure_kit.Payload.{
  Properties, plain_object, other_value, Payload, named, bound, json_text, null_binding,
}
use typeorm_procedure_kit.Bindings.Numbered.{numbers, count_to, output_names, build-numbered}

abbrev same_name : Text → Text
same_name s = s

abbrev no_uuid : ℕ → Text
no_uuid n = []

abbrev one_text : Properties → Result Fault Text
one_text p = ok (codes "{}")

abbrev argument : Text → Text → Mode → ProcedureArgument
argument name type mode = record {
  argument_name = name;
  argument_type = type;
  order = 1;
  mode = mode;
  size = none;
  specific_name = none;
  owner = none;
  subprogram_id = none;
  overload = none;
  structured_type = none;
}

abbrev point : StructuredType
point = record {
  kind = postgres_composite;
  type_name = codes "point2";
  fields =
      record {
        name = codes "x";
        argument_type = codes "int4";
        order = 1;
        owner = none;
        schema = none;
        package_name = none;
        type_name = none;
        type_oid = none;
      }
      ∷ [];
  owner = none;
  schema = some (codes "app");
  package_name = none;
  type_oid = none;
}

abbrev arguments : List ProcedureArgument
arguments =
    argument (codes "p_id") (codes "int4") in_mode
    ∷ record (argument (codes "p_at") (codes "point2") in_out_mode) { structured_type = some point }
    ∷ argument (codes "c") (codes "refcursor") out_mode
    ∷ []

abbrev procedures : ProcedureList
procedures = (codes "f", arguments) ∷ []

abbrev payload : Payload
payload = named (
    (codes "id", other_value (number (int (pos 7))))
    ∷ (codes "at", plain_object ((codes "x", number (int (pos 1))) ∷ []))
    ∷ [])

abbrev made : BindingsObject
made = record {
  param_execute_string =
      codes
        "CALL \"app\".\"f\"($1,CASE WHEN $2::jsonb IS NULL OR $2::jsonb = 'null'::jsonb THEN NULL::\"app\".\"point2\" ELSE jsonb_populate_record(NULL::\"app\".\"point2\", $2::jsonb) END,$3)";
  built = record {
    bindings =
        bound (other_value (number (int (pos 7)))) ∷ json_text (codes "{}") ∷ null_binding ∷ [];
    cursors_names = codes "c" ∷ [];
    out_bindings =
        record {
          name = codes "p_at";
          type = object_type;
          database_type = some (codes "point2");
          structured_type = some point;
        }
        ∷ record {
          name = codes "c";
          type = cursor_type;
          database_type = some (codes "refcursor");
          structured_type = none;
        }
        ∷ [];
    expressions = placeholder 1 ∷ composite (codes "\"app\".\"point2\"") 2 ∷ placeholder 3 ∷ [];
  };
  out_names = codes "p_at" ∷ codes "c" ∷ [];
}

built :
    build same_name no_uuid one_text (codes "app") (codes "f") (some procedures) payload ≡ ok made
unfolding build to_lower_case matches trim join
built = refl

build-numbered_example :
    (numbers made.expressions ≡ count_to (length made.bindings))
    × (found : List ProcedureArgument) × (arguments_of (some procedures) (codes "f") ≡ ok found)
    × (length made.expressions ≡ length found)
    × (made.out_names ≡ output_names found)
build-numbered_example =
    build-numbered same_name no_uuid one_text (codes "app") (codes "f") (some procedures) payload
      made built
