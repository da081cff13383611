-- ===== src/Normalizer.antt =====
-- src/adapters/abstract/procedure-metadata-normalizer.ts, and the options that the two adapters give it.
-- The vendor, which only the message shows, is left out.
pub mod Grouped
pub mod Overloads
mod Tests
use typeorm_procedure_kit.Common.{
  ℕ, ◌≡◌, Bool, true, false, not, ◌&&◌, ◌||◌, Option, none, some, List, [], ◌∷◌, ◌++◌, map, length,
  nat_beq, nat_eq, contains, if◌then◌else◌, Result, ok, err, guard, ◌>>=◌, ◌>>◌,
}
use typeorm_procedure_kit.Common.JsMap.{get, has, put}
use typeorm_procedure_kit.Common.Sorting.{sort_by}
use typeorm_procedure_kit.Common.Text.{Text, text_eq, codes, to_lower_case}
use typeorm_procedure_kit.Metadata.{Argument, Mode, StructuredType}

-- an argument without the name of its procedure
pub record ProcedureArgument : Type 0 where
  pub argument_name : Text
  pub argument_type : Text
  pub order : ℕ
  pub mode : Mode
  pub size : Option ℕ
  pub specific_name : Option Text
  pub owner : Option Text
  pub subprogram_id : Option ℕ
  pub overload : Option Text
  pub structured_type : Option StructuredType

-- TProcedureArgumentList
abbrev pub ProcedureList : Type 0
ProcedureList = List (Text × List ProcedureArgument)

-- what tells two overloads apart: a text or a number
pub data Identity : Type 0 where
  text_identity : Text → Identity
  number_identity : ℕ → Identity

-- `===` on identities
abbrev pub same_identity : Identity → Identity → Bool
same_identity (text_identity s) (text_identity t) = text_eq.beq s t
same_identity (number_identity n) (number_identity m) = nat_beq n m
same_identity _ _ = false

-- the name of the procedure that is overloaded
pub data NormalizeError : Type 0 where
  overloaded : Text → NormalizeError

-- IProcedureMetadataOptions
pub record MetadataOptions : Type 0 where
  pub no_argument_sentinel : Option Text
  pub get_overload_identity : Argument → Option Identity

abbrev text_or_number : Option Text → Option ℕ → Option Identity
text_or_number (some s) n = some (text_identity s)
text_or_number none (some n) = some (number_identity n)
text_or_number none none = none

abbrev pub postgres_options : Text → MetadataOptions
postgres_options sentinel = record {
  no_argument_sentinel = some sentinel;
  get_overload_identity = λ item. text_or_number item.specific_name none;
}

abbrev pub oracle_options : Text → MetadataOptions
oracle_options sentinel = record {
  no_argument_sentinel = some sentinel;
  get_overload_identity = λ item. text_or_number item.overload item.subprogram_id;
}

abbrev pub to_argument : Argument → ProcedureArgument
to_argument item = record {
  argument_name = to_lower_case item.argument_name;
  argument_type = item.argument_type;
  order = item.order;
  mode = item.mode;
  size = item.size;
  specific_name = item.specific_name;
  owner = item.owner;
  subprogram_id = item.subprogram_id;
  overload = item.overload;
  structured_type = item.structured_type;
}

abbrev pub is_sentinel : Option Text → Text → Bool
is_sentinel none name = false
is_sentinel (some s) name = text_eq.beq name (to_lower_case s)

abbrev pub or_empty : Option (List ProcedureArgument) → List ProcedureArgument
or_empty none = []
or_empty (some xs) = xs

abbrev pub Overloads : Type 0
Overloads = List (Text × Identity)

unfoldable pub agrees : Option Identity → Identity → Bool
agrees none identity = true
agrees (some previous) identity = same_identity previous identity

unfoldable pub note_overload : Text → Option Identity → Overloads → Result NormalizeError Overloads
unfolding agrees
note_overload name none overloads = ok overloads
note_overload name (some identity) overloads = do
  guard (agrees (get overloads name) identity) (overloaded name)
  ok (put overloads name identity)

-- the end of the loop's body: the argument joins the list of its procedure
unfoldable pub add_argument : Option Text → Text → Argument → ProcedureList → ProcedureList
add_argument sentinel name item procedures =
    let arguments_list = or_empty (get procedures name) in
    let found = put procedures name arguments_list in
    let extended = put procedures name (arguments_list ++ (to_argument item ∷ [])) in
    if nat_beq (length item.argument_name) 0
    then procedures
    else if is_sentinel sentinel (to_lower_case item.argument_name)
    then found
    else extended

module _ (procedure_list_base : List Text) (package_name : Text) (packages_length : ℕ)
    (options : MetadataOptions) where
  abbrev pub is_configured : Text → Bool
  is_configured name =
      contains (to_lower_case package_name ++ b'.' ∷ name) procedure_list_base
      || (nat_beq packages_length 1 && contains name procedure_list_base)

  -- the loop over the rows
  unfoldable pub collect :
      List Argument → Overloads → ProcedureList → Result NormalizeError ProcedureList
  unfolding note_overload add_argument
  collect [] overloads procedures = ok procedures
  collect (item ∷ items) overloads procedures =
      let name = to_lower_case item.procedure_name in
      let rest = collect items in
      if is_configured name
      then (note_overload name (options.get_overload_identity item) overloads >>= λ noted.
          rest noted (add_argument options.no_argument_sentinel name item procedures))
      else rest overloads procedures

  unfoldable pub sort_lists : ProcedureList → ProcedureList
  unfolding sort_by
  sort_lists [] = []
  sort_lists ((name, arguments_list) ∷ procedures) =
      (name, sort_by (λ a. a.order) arguments_list) ∷ sort_lists procedures

  unfoldable pub normalize : List Argument → Result NormalizeError ProcedureList
  unfolding collect sort_lists
  normalize raw_arguments = do procedures ← collect raw_arguments [] []; ok (sort_lists procedures)
