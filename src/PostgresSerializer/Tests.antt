-- ===== src/PostgresSerializer/Tests.antt =====
-- The serializer with a driver whose type overrides are an association list.
use typeorm_procedure_kit.Common.{
  arith, ℕ, ◌≡◌, refl, Option, none, some, List, [], ◌∷◌, nat_eq, nat_beq, if◌then◌else◌,
}
use typeorm_procedure_kit.Common.JsMap.{get, put, get-put}
use typeorm_procedure_kit.Serializer.{timestamp_tz_type, timestamp_ltz_type}
use typeorm_procedure_kit.PostgresSerializer.{
  Builtins, TypeOverrides, Parser, default_parser, Command, set_command, delete_command,
}
use typeorm_procedure_kit.PostgresSerializer.Consistent.{IsConsistent}
use typeorm_procedure_kit.PostgresSerializer.Runs.{
  run_commands, run_commands-IsConsistent, new_state,
}

abbrev numbers : Builtins
numbers = record {
  bytea = 17;
  bool = 16;
  char = 18;
  date = 1082;
  varchar = 1043;
  json = 114;
  jsonb = 3802;
  timestamp = 1114;
  timestamptz = 1184;
  xml = 142;
}

abbrev parser_or_default : Option Parser → Parser
parser_or_default none = default_parser
parser_or_default (some p) = p

get-set_driver :
    (s : List (ℕ × Parser)) (oid : ℕ) (p : Parser) (other : ℕ)
    → parser_or_default (get (put s oid p) other)
      ≡ (if nat_beq oid other then p else parser_or_default (get s other))
get-set_driver s oid p other = rw (get-put s oid p other) (ground arith)

get-empty_driver : (oid : ℕ) → parser_or_default (get [] oid) ≡ default_parser
unfolding get
get-empty_driver oid = refl

abbrev driver : TypeOverrides
driver = record {
  Store = List (ℕ × Parser);
  empty_store = [];
  set_type_parser = put;
  get_type_parser = λ s oid. parser_or_default (get s oid);
  get-empty = get-empty_driver;
  get-set = get-set_driver;
}

abbrev shared_number : List Command
shared_number =
    set_command timestamp_tz_type 1
    ∷ set_command timestamp_ltz_type 2
    ∷ delete_command timestamp_ltz_type
    ∷ []

run_commands-IsConsistent_example :
    IsConsistent numbers driver
      (run_commands numbers driver shared_number (new_state numbers driver))
run_commands-IsConsistent_example = run_commands-IsConsistent numbers driver shared_number
