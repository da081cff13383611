-- ===== src/Options.antt =====
-- src/utils/database-options-executor.ts: which setup commands are accepted. Log messages are left out.
pub mod Session
pub mod OracleSession
pub mod Restore
pub mod Accepts
mod Tests
use typeorm_procedure_kit.Common.{
  ℕ, ◌+◌, Bool, true, false, not, ◌||◌, ◌&&◌, Option, none, some, List, [], ◌∷◌, ◌++◌, nat_beq, ltb,
  length, any, all, if◌then◌else◌, Result, ok, err, guard, ◌>>=◌, ◌>>◌, Eq,
}
use typeorm_procedure_kit.Common.Text.{Text, codes, trim}
use typeorm_procedure_kit.Regex.{
  Regex, empty, nothing, one, seq, alt, star, plus, opt, chr, lit_i, space, matches, is_letter,
  is_digit,
}
use typeorm_procedure_kit.ErrorHandler.{Fault, server_fault}

pub data Dialect : Type 0 where
  postgres oracle : Dialect

-- IValidatedOptionCommand; `oracleParameter` is `none` for PostgreSQL
pub record ValidatedCommand : Type 0 where
  pub command : Text
  pub dialect : Dialect
  pub oracle_parameter : Option Text

abbrev all_of : List Regex → Regex
all_of [] = empty
all_of (r ∷ rs) = seq r (all_of rs)

abbrev any_of : List Regex → Regex
any_of [] = nothing
any_of (r ∷ rs) = alt r (any_of rs)

-- words with `\s+` between them
abbrev words : List Text → Regex
words [] = empty
words (w ∷ []) = lit_i w
words (w ∷ v ∷ ws) = seq (lit_i w) (seq (plus space) (words (v ∷ ws)))

abbrev quote_mark : Regex
quote_mark = chr b'\''

-- SQL_STRING_LITERAL
abbrev sql_string_literal : Regex
sql_string_literal = all_of (
    quote_mark
    ∷ star (alt (one (λ c. not (nat_beq c b'\''))) (seq quote_mark quote_mark))
    ∷ quote_mark
    ∷ [])

abbrev name_start : Regex
name_start = one (λ c. is_letter c || nat_beq c b'_')

abbrev name_part : Regex
name_part = one (λ c. is_letter c || is_digit c || nat_beq c b'_' || nat_beq c b'$')

abbrev quoted_start : Regex
quoted_start = one (λ c. is_letter c || nat_beq c b'_' || nat_beq c b'$')

-- POSTGRES_IDENTIFIER
abbrev postgres_identifier : Regex
postgres_identifier =
    alt (seq name_start (star name_part))
      (all_of (chr b'"' ∷ quoted_start ∷ star name_part ∷ chr b'"' ∷ []))

abbrev set_local : Regex → Regex
set_local r = all_of (words (codes "SET" ∷ codes "LOCAL" ∷ []) ∷ plus space ∷ r ∷ [])

abbrev set_role : Regex
set_role = set_local (all_of (lit_i (codes "ROLE") ∷ plus space ∷ postgres_identifier ∷ []))

abbrev set_search_path : Regex
set_search_path = set_local (
    all_of (
      lit_i (codes "search_path")
      ∷ plus space
      ∷ alt (lit_i (codes "TO")) (chr b'=')
      ∷ plus space
      ∷ postgres_identifier
      ∷ star (all_of (star space ∷ chr b',' ∷ star space ∷ postgres_identifier ∷ []))
      ∷ []))

abbrev set_time_zone : Regex
set_time_zone = set_local (
    all_of (
      words (codes "TIME" ∷ codes "ZONE" ∷ [])
      ∷ plus space
      ∷ alt (lit_i (codes "UTC")) sql_string_literal
      ∷ []))

abbrev is_plain_value : ℕ → Bool
is_plain_value c =
    is_letter c
    || is_digit c
    || nat_beq c b'_'
    || nat_beq c b'.'
    || nat_beq c b'$'
    || nat_beq c b':'
    || nat_beq c b'+'
    || nat_beq c b'-'

abbrev set_app_setting : Regex
set_app_setting = set_local (
    all_of (
      lit_i (codes "app.")
      ∷ name_start
      ∷ star (one (λ c. is_letter c || is_digit c || nat_beq c b'_'))
      ∷ star space
      ∷ chr b'='
      ∷ star space
      ∷ alt sql_string_literal (plus (one is_plain_value))
      ∷ []))

abbrev isolation_levels : Regex
isolation_levels = any_of (
    words (codes "READ" ∷ codes "UNCOMMITTED" ∷ [])
    ∷ words (codes "READ" ∷ codes "COMMITTED" ∷ [])
    ∷ words (codes "REPEATABLE" ∷ codes "READ" ∷ [])
    ∷ lit_i (codes "SERIALIZABLE")
    ∷ [])

abbrev set_transaction : Regex
set_transaction = all_of (
    words (codes "SET" ∷ codes "TRANSACTION" ∷ [])
    ∷ plus space
    ∷ any_of (
        all_of (words (codes "ISOLATION" ∷ codes "LEVEL" ∷ []) ∷ plus space ∷ isolation_levels ∷ [])
        ∷ words (codes "READ" ∷ codes "ONLY" ∷ [])
        ∷ words (codes "READ" ∷ codes "WRITE" ∷ [])
        ∷ lit_i (codes "DEFERRABLE")
        ∷ words (codes "NOT" ∷ codes "DEFERRABLE" ∷ [])
        ∷ [])
    ∷ [])

abbrev pub safe_postgres_commands : List Regex
safe_postgres_commands =
    set_role ∷ set_search_path ∷ set_time_zone ∷ set_app_setting ∷ set_transaction ∷ []

abbrev pub oracle_parameters : List Text
oracle_parameters =
    codes "NLS_DATE_FORMAT"
    ∷ codes "NLS_TIMESTAMP_FORMAT"
    ∷ codes "NLS_TIMESTAMP_TZ_FORMAT"
    ∷ codes "NLS_NUMERIC_CHARACTERS"
    ∷ []

-- the Oracle command of one parameter
abbrev oracle_command : Text → Regex
oracle_command parameter = all_of (
    words (codes "ALTER" ∷ codes "SESSION" ∷ codes "SET" ∷ parameter ∷ [])
    ∷ star space
    ∷ chr b'='
    ∷ star space
    ∷ sql_string_literal
    ∷ [])

-- the second group: from the first quote to the end
abbrev literal_of : Text → Text
literal_of [] = []
literal_of (c ∷ s) = if nat_beq c b'\'' then c ∷ s else literal_of s

-- safeOracleCommand.exec: the parameter in upper case, and the literal
unfoldable pub oracle_match : List Text → Text → Option (Text × Text)
oracle_match [] s = none
oracle_match (p ∷ ps) s =
    let other = oracle_match ps s in
    if matches (oracle_command p) s then some (p, literal_of s) else other

-- includes(…) for two code units
unfoldable pub includes_two : ℕ → ℕ → Text → Bool
includes_two a b [] = false
includes_two a b (c ∷ []) = false
includes_two a b (c ∷ d ∷ s) = (nat_beq c a && nat_beq d b) || includes_two a b (d ∷ s)

abbrev pub has_separator : Text → Bool
has_separator s =
    any (nat_beq b';') s
    || includes_two b'-' b'-' s
    || includes_two b'/' b'*' s
    || includes_two b'*' b'/' s

abbrev pub unsafe_command : Fault
unsafe_command = server_fault (codes "Unsafe database option command")

abbrev pub oracle_validated : Text → Option (Text × Text) → Result Fault ValidatedCommand
oracle_validated s none = err unsafe_command
oracle_validated s (some (parameter, value)) =
    if ltb 258 (length value)
    then err unsafe_command
    else ok (record { command = s; dialect = oracle; oracle_parameter = some parameter })

unfoldable pub validate_trimmed : Text → Result Fault ValidatedCommand
unfolding includes_two oracle_match
validate_trimmed s =
    if nat_beq (length s) 0 || has_separator s
    then err unsafe_command
    else if any (λ r. matches r s) safe_postgres_commands
    then ok (record { command = s; dialect = postgres; oracle_parameter = none })
    else oracle_validated s (oracle_match oracle_parameters s)

unfoldable pub validate_command : Text → Result Fault ValidatedCommand
unfolding validate_trimmed
validate_command command = validate_trimmed (trim command)

unfoldable pub validate_each : List Text → Result Fault (List ValidatedCommand)
unfolding validate_command
validate_each [] = ok []
validate_each (c ∷ cs) = do ok ((← validate_command c) ∷ (← validate_each cs))

unfoldable pub dialect_beq : Dialect → Dialect → Bool
dialect_beq postgres postgres = true
dialect_beq oracle oracle = true
dialect_beq _ _ = false

unfoldable pub is_mixed : List ValidatedCommand → Bool
unfolding dialect_beq
is_mixed [] = false
is_mixed (c ∷ cs) = any (λ d. not (dialect_beq d.dialect c.dialect)) cs

unfoldable pub validate_commands : List Text → Result Fault (List ValidatedCommand)
unfolding validate_each is_mixed
validate_commands commands = do
  validated ← validate_each commands
  guard (not (is_mixed validated)) (server_fault (codes "Different dialects cannot be mixed"))
  ok validated
