-- ===== src/Normalizer/Tests.antt =====
-- Two arguments of one procedure, and a second signature of it.
use typeorm_procedure_kit.Common.{ℕ, ◌≡◌, refl, false, none, some, List, [], ◌∷◌, ok, err}
use typeorm_procedure_kit.Common.JsMap.{get, put}
use typeorm_procedure_kit.Common.Sorting.{sort_by}
use typeorm_procedure_kit.Common.Text.{Text, text_eq, codes, to_lower_case, lower}
use typeorm_procedure_kit.Metadata.{Argument, in_mode}
use typeorm_procedure_kit.Normalizer.{
  ProcedureArgument, MetadataOptions, postgres_options, to_argument, overloaded, normalize,
}
use typeorm_procedure_kit.Normalizer.Grouped.{get-normalize}
use typeorm_procedure_kit.Normalizer.Overloads.{is_ok, is_ok-normalize}

abbrev row : Text → ℕ → Text → Argument
row name order specific_name = record {
  procedure_name = codes "F";
  argument_name = name;
  argument_type = codes "int4";
  order = order;
  mode = in_mode;
  size = none;
  specific_name = some specific_name;
  owner = none;
  subprogram_id = none;
  overload = none;
  structured_type = none;
}

abbrev two_rows : List Argument
two_rows = row (codes "b") 2 (codes "f_1") ∷ row (codes "a") 1 (codes "f_1") ∷ []

abbrev clashing_rows : List Argument
clashing_rows = row (codes "b") 2 (codes "f_1") ∷ row (codes "a") 1 (codes "f_2") ∷ []

abbrev options : MetadataOptions
options = postgres_options (codes "NO_ARGS")

abbrev sorted_rows : List ProcedureArgument
sorted_rows =
    to_argument (row (codes "a") 1 (codes "f_1"))
    ∷ to_argument (row (codes "b") 2 (codes "f_1"))
    ∷ []

two_rows_normalized :
    normalize (codes "p.f" ∷ []) (codes "P") 2 options two_rows ≡ ok ((codes "f", sorted_rows) ∷ [])
unfolding normalize to_lower_case get put
two_rows_normalized = refl

clashing_rows_refused :
    normalize (codes "p.f" ∷ []) (codes "P") 2 options clashing_rows ≡ err (overloaded (codes "f"))
unfolding normalize to_lower_case get put
clashing_rows_refused = refl

get-normalize_example : get ((codes "f", sorted_rows) ∷ []) (codes "f") ≡ some sorted_rows
unfolding sort_by lower to_lower_case
get-normalize_example =
    get-normalize (codes "p.f" ∷ []) (codes "P") 2 options two_rows ((codes "f", sorted_rows) ∷ [])
      (codes "f") two_rows_normalized

is_ok-normalize_example :
    is_ok (normalize (codes "p.f" ∷ []) (codes "P") 2 options clashing_rows) ≡ false
unfolding to_lower_case
is_ok-normalize_example = is_ok-normalize (codes "p.f" ∷ []) (codes "P") 2 options clashing_rows
