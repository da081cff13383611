-- ===== src/Snapshot.antt =====
-- src/core/procedure-list-base.ts: `fetchPackageSnapshot` and `checkExistingProcedures`. What the query and
-- the adapter's `prepareProcedureMetadataRows` return, and the camel case of lodash, are arguments.
pub mod Bounded
mod Tests
use typeorm_procedure_kit.Common.{
  ℕ, suc, ◌+◌, ◌≡◌, Bool, true, false, not, ◌&&◌, ◌||◌, Option, none, some, List, [], ◌∷◌, map,
  length, nat_beq, ltb, contains, any, if◌then◌else◌, Result, ok, err, guard, ◌>>=◌, ◌>>◌,
}
use typeorm_procedure_kit.Common.JsMap.{has, keys}
use typeorm_procedure_kit.Common.Text.{Text, text_eq, to_lower_case}
use typeorm_procedure_kit.Value.{Number}
use typeorm_procedure_kit.ErrorHandler.{Fault}
use typeorm_procedure_kit.NameParser.{extract_package_name, extract_procedure_name}
use typeorm_procedure_kit.Metadata.{
  Json, Fields, object, no_fields, field, MetadataError, StructuredType, Argument, fields_of,
  decode_procedure_argument,
}
use typeorm_procedure_kit.Normalizer.{
  ProcedureArgument, ProcedureList, NormalizeError, MetadataOptions, normalize,
}

-- TDbConfig['packagesSettings']: the packages, and the values of `procedureObjectList`
pub record PackagesSettings : Type 0 where
  pub packages : List Text
  pub procedure_object_list : List Text

pub data SnapshotError : Type 0 where
  not_configured too_many_rows too_many_prepared no_arguments : SnapshotError
  query_failed prepare_failed : Fault → SnapshotError
  bad_row bad_argument : MetadataError → SnapshotError
  bad_procedure : NormalizeError → SnapshotError

-- an error of a callee, as one of this function
abbrev pub rethrow {ℓ κ μ} :
    {E : Type ℓ} {F : Type κ} {A : Type μ} → (E → F) → Result E A → Result F A
rethrow f (ok a) = ok a
rethrow f (err e) = err (f e)

-- a property of an object that is built from entries: a later entry replaces the value of an earlier one
unfoldable pub set_field : Fields → Text → Json → Fields
set_field no_fields key value = field key value no_fields
set_field (field k v rest) key value =
    let others = set_field rest key value in
    if text_eq.beq k key then field k value rest else field k v others

-- one argument, with the fields of its structured type
abbrev pub argument_count : Option StructuredType → ℕ
argument_count none = 1
argument_count (some t) = suc (length t.fields)

-- preparedMetadataCount
unfoldable pub metadata_count : List Argument → ℕ
metadata_count [] = 0
metadata_count (item ∷ items) = argument_count item.structured_type + metadata_count items

module _ (to_camel_case : Text → Text) where
  -- the entries of an object with their keys in camel case, put into the object `made`
  unfoldable pub rename_fields : Fields → Fields → Fields
  unfolding set_field
  rename_fields no_fields made = made
  rename_fields (field key value rest) made =
      rename_fields rest (set_field made (to_camel_case key) value)

  unfoldable pub normalize_row : Json → Result MetadataError Fields
  unfolding fields_of rename_fields
  normalize_row item = do row ← fields_of item; ok (rename_fields row no_fields)

  unfoldable pub normalize_rows : List Json → Result MetadataError (List Fields)
  unfolding normalize_row
  normalize_rows [] = ok []
  normalize_rows (item ∷ items) = do ok ((← normalize_row item) ∷ (← normalize_rows items))

module _ (to_number : Text → Number) (max_metadata_rows : ℕ) where
  unfoldable pub decode_rows : List Fields → Result MetadataError (List Argument)
  unfolding decode_procedure_argument
  decode_rows [] = ok []
  decode_rows (row ∷ rows) = do
    item ← decode_procedure_argument to_number max_metadata_rows (object row)
    items ← decode_rows rows
    ok (item ∷ items)

  abbrev within : ℕ → Bool
  within n = not (ltb max_metadata_rows n)

  -- the arguments that the prepared rows give
  unfoldable pub read_arguments : List Fields → Result SnapshotError (List Argument)
  unfolding decode_rows metadata_count
  read_arguments prepared_rows = do
    guard (within (length prepared_rows)) too_many_prepared
    raw_arguments ← rethrow bad_argument (decode_rows prepared_rows)
    guard (within (metadata_count raw_arguments)) too_many_prepared
    guard (not (ltb (length raw_arguments) 1)) no_arguments
    ok raw_arguments

  module _ (to_camel_case : Text → Text) (prepare : List Fields → Result Fault (List Fields))
      (options : MetadataOptions) where
    -- with the rows that the query returned
    unfoldable pub snapshot_of_rows :
        PackagesSettings → Text → List Json → Result SnapshotError ProcedureList
    unfolding normalize_rows read_arguments normalize
    snapshot_of_rows settings package_name metadata_rows = do
      guard (within (length metadata_rows)) too_many_rows
      normalized_rows ← rethrow bad_row (normalize_rows to_camel_case metadata_rows)
      prepared_rows ← rethrow prepare_failed (prepare normalized_rows)
      raw_arguments ← read_arguments prepared_rows
      rethrow bad_procedure (
          normalize (map to_lower_case settings.procedure_object_list) package_name
            (length settings.packages) options raw_arguments)

    unfoldable pub fetch_package_snapshot :
        Option PackagesSettings
        → Text
        → Result Fault (List Json)
        → Result SnapshotError ProcedureList
    unfolding snapshot_of_rows
    fetch_package_snapshot none package_name rows = err not_configured
    fetch_package_snapshot (some settings) package_name rows = do
      metadata_rows ← rethrow query_failed rows
      snapshot_of_rows settings package_name metadata_rows

-- what checkExistingProcedures logs
pub data ProcedureCheck : Type 0 where
  nothing : ProcedureCheck
  no_procedure_list : ProcedureCheck
  not_found : List Text → ProcedureCheck

abbrev only_package : List Text → Option Text
only_package (p ∷ []) = some p
only_package _ = none

-- the package that a configured text names, or the only one
unfoldable pub package_of : List Text → Text → Option Text
unfolding extract_package_name
package_of packages sql_string = elim (extract_package_name sql_string) [
  | some p ↦ some p
  | none ↦ only_package packages
]

abbrev is_package : Option Text → Text → Bool
is_package none searched = false
is_package (some p) searched = text_eq.beq p searched

unfoldable pub not_found_procedures : List Text → Text → ProcedureList → List Text → List Text
unfolding package_of extract_procedure_name has
not_found_procedures packages searched procedures [] = []
not_found_procedures packages searched procedures (sql_string ∷ rest) =
    let others = not_found_procedures packages searched procedures rest in
    let process_name = extract_procedure_name sql_string in
    if is_package (package_of packages sql_string) searched && not (has procedures process_name)
    then process_name ∷ others
    else others

abbrev report : List Text → ProcedureCheck
report [] = nothing
report (name ∷ names) = not_found (name ∷ names)

-- An empty list of procedures ends the check, so that the second test on it, for a warning, never holds.
unfoldable pub check_existing_procedures :
    Option PackagesSettings → Text → ProcedureList → ProcedureCheck
unfolding not_found_procedures
check_existing_procedures settings searched [] = no_procedure_list
check_existing_procedures none searched (p ∷ procedures) = nothing
check_existing_procedures (some settings) searched (p ∷ procedures) = report (
    not_found_procedures settings.packages searched (p ∷ procedures) settings.procedure_object_list)
