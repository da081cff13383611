-- ===== src/Snapshot/Tests.antt =====
-- The snapshot of a package with one procedure of one argument.
use typeorm_procedure_kit.Common.{◌≡◌, ◌≤◌, refl, none, some, List, [], ◌∷◌, Result, ok}
use typeorm_procedure_kit.Common.Int.{pos}
use typeorm_procedure_kit.Common.JsMap.{get, put}
use typeorm_procedure_kit.Common.Text.{Text, codes, split, trim, to_lower_case, to_upper_case}
use typeorm_procedure_kit.Value.{Number, int, float}
use typeorm_procedure_kit.ErrorHandler.{Fault}
use typeorm_procedure_kit.Metadata.{Json, Fields, text, number, object, no_fields, field, in_mode}
use typeorm_procedure_kit.Normalizer.{
  ProcedureArgument, ProcedureList, MetadataOptions, postgres_options,
}
use typeorm_procedure_kit.Snapshot.{
  PackagesSettings, not_found, fetch_package_snapshot, check_existing_procedures,
}
use typeorm_procedure_kit.Snapshot.Bounded.{fetch_package_snapshot-bounded}

abbrev nan : Text → Number
nan s = float (codes "NaN")

abbrev row : Json
row = object (
    field (codes "procedureName") (text (codes "f")) (
      field (codes "argumentName") (text (codes "a")) (
        field (codes "argumentType") (text (codes "int4")) (
          field (codes "mode") (text (codes "IN"))
            (field (codes "order") (number (int (pos 1))) no_fields)))))

abbrev same_keys : Text → Text
same_keys s = s

abbrev same_rows : List Fields → Result Fault (List Fields)
same_rows rows = ok rows

abbrev options : MetadataOptions
options = postgres_options (codes "NO_ARGS")

abbrev settings : PackagesSettings
settings = record {
  packages = codes "p" ∷ [];
  procedure_object_list = codes "p.f" ∷ codes "p.g" ∷ [];
}

abbrev argument : ProcedureArgument
argument = record {
  argument_name = codes "a";
  argument_type = codes "int4";
  order = 1;
  mode = in_mode;
  size = none;
  specific_name = none;
  owner = none;
  subprogram_id = none;
  overload = none;
  structured_type = none;
}

abbrev snapshot : ProcedureList
snapshot = (codes "f", argument ∷ []) ∷ []

fetched :
    fetch_package_snapshot nan 2 same_keys same_rows options
      (some settings)
      (codes "p")
      (ok (row ∷ []))
    ≡ ok snapshot
unfolding fetch_package_snapshot trim to_upper_case to_lower_case put get
fetched = refl

fetch_package_snapshot-bounded_example : 1 ≤ 2
fetch_package_snapshot-bounded_example =
    (fetch_package_snapshot-bounded nan 2 same_keys same_rows options (some settings) (codes "p")
      (ok (row ∷ [])) snapshot fetched).0

missing_procedure :
    check_existing_procedures (some settings) (codes "p") snapshot ≡ not_found (codes "g" ∷ [])
unfolding check_existing_procedures split to_lower_case trim
missing_procedure = refl
