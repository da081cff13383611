-- ===== src/Options/Tests.antt =====
-- A session with one parameter, which the setup commands change.
use typeorm_procedure_kit.Common.{
  ◌≢◌, ℕ, ◌≡◌, refl, sym, true, false, Option, none, some, List, [], ◌∷◌, ◌++◌, nat_beq,
  if◌then◌else◌, Result, ok, err, inl, inr, Bool-cases, nat_eq,
}
use typeorm_procedure_kit.Common.Text.{Text, text_eq, codes, trim, trim_start, is_space, lower}
use typeorm_procedure_kit.Value.{undefined, string}
use typeorm_procedure_kit.ErrorHandler.{Fault, error_fault}
use typeorm_procedure_kit.Common.JsMap.{has, put}
use typeorm_procedure_kit.Retry.{as_error}
use typeorm_procedure_kit.Options.{
  ValidatedCommand, oracle, postgres, validate_command, validate_trimmed, includes_two,
  unsafe_command,
}
use typeorm_procedure_kit.Options.Accepts.{IsPlain, validate_command-IsPlain}
use typeorm_procedure_kit.Regex.{matches}
use typeorm_procedure_kit.Options.Session.{
  Database, SettingRow, restore_statement, escape_literal, select_statement, first_value,
  execute_with_restored_oracle_session, after_capture, run_and_restore, capture, restore, reversed,
  settle, set_up_and_run, execute_validated_commands, parameter_to_read, captured, read_setting,
}
use typeorm_procedure_kit.Options.OracleSession.{OracleSession}
use typeorm_procedure_kit.Options.Restore.{IsReusable, execute_with_restored_oracle_session-setting}

abbrev date_format : Text
date_format = codes "NLS_DATE_FORMAT"

abbrev push_unit : ℕ → Option Text → Option Text
push_unit c none = none
push_unit c (some s) = some (c ∷ s)

-- a literal behind its opening quote, up to the end of the statement
unfoldable read_literal : Text → Option Text
read_literal [] = none
read_literal (c ∷ []) = if nat_beq c b'\'' then some [] else none
read_literal (c ∷ d ∷ s) =
    let doubled = push_unit c (read_literal s) in
    let next = push_unit c (read_literal (d ∷ s)) in
    if nat_beq c b'\'' then (if nat_beq d b'\'' then doubled else none) else next

read_literal-plain :
    (c : ℕ) (s v : Text)
    → nat_beq c b'\'' ≡ false
    → read_literal s ≡ some v
    → read_literal (c ∷ s) ≡ some (c ∷ v)
unfolding read_literal
read_literal-plain c [] v h e = cc
read_literal-plain c (d ∷ s) v h e = rw (h, e) refl

read_literal-doubled :
    (c : ℕ) (s v : Text)
    → nat_beq c b'\'' ≡ true
    → read_literal s ≡ some v
    → read_literal (c ∷ c ∷ s) ≡ some (c ∷ v)
unfolding read_literal
read_literal-doubled c s v h e = rw (h, e) refl

read_literal-escape_literal : (v : Text) → read_literal (escape_literal v ++ b'\'' ∷ []) ≡ some v
unfolding escape_literal
read_literal-escape_literal [] = unfold read_literal in refl
read_literal-escape_literal (c ∷ v) = elim (Bool-cases (nat_beq c b'\'')) [
  | inl yes' ↦ rw yes' (
      read_literal-doubled c (escape_literal v ++ b'\'' ∷ []) v yes'
        (read_literal-escape_literal v))
  | inr no' ↦
      rw no' (
        read_literal-plain c (escape_literal v ++ b'\'' ∷ []) v no' (read_literal-escape_literal v))
]

-- the text behind a prefix
unfoldable without_prefix : Text → Text → Option Text
without_prefix [] s = some s
without_prefix (c ∷ p) [] = none
without_prefix (c ∷ p) (d ∷ s) = let rest = without_prefix p s in if nat_beq c d then rest else none

abbrev altered : Text → Option Text → Text × Result Fault (List SettingRow)
altered q none = (q, err (error_fault 1))
altered q (some v) = (v, ok [])

abbrev parse_literal : Option Text → Option Text
parse_literal none = none
parse_literal (some s) = read_literal s

abbrev selected : Text → List Text → List SettingRow
selected q (p ∷ []) =
    if text_eq.beq p date_format
    then record { value = string q; upper_value = undefined } ∷ []
    else []
selected q _ = []

-- The state is the value of the only parameter.
abbrev session_database : Database
session_database = record {
  State = Text;
  query = λ q statement bindings.
      if text_eq.beq statement select_statement
      then (q, ok (selected q bindings))
      else altered q (
          parse_literal
            (without_prefix (codes "ALTER SESSION SET " ++ date_format ++ codes " = '") statement));
}

abbrev setting_of : Text → Text → Text
setting_of q p = if text_eq.beq p date_format then q else []

session-select_value :
    (q p : Text) (rows : List SettingRow) (v : Text)
    → (session_database.query q select_statement (p ∷ [])).1 ≡ ok rows
    → first_value rows ≡ string v
    → (text_eq.beq p date_format ≡ true) × (v ≡ setting_of q p)
session-select_value q p rows v got is_v = elim (Bool-cases (text_eq.beq p date_format)) [
  | inl yes' ↦
      let got' : ok (record { value = string q; upper_value = undefined } ∷ []) ≡ ok rows =
        rw yes' at got in
      let same : record { value = string q; upper_value = undefined } ∷ [] ≡ rows = cc in
      let value_is : string q ≡ string v = unfold first_value in (rw (sym same) at is_v) in
      (yes', rw yes' cc)
  | inr no' ↦
      let got' : ok [] ≡ ok rows = rw no' at got in
      let same : [] ≡ rows = cc in
      let bad : undefined ≡ string v = unfold first_value in (rw (sym same) at is_v) in cc
]

restored : (q v : Text) → session_database.query q (restore_statement date_format v) [] ≡ (v, ok [])
unfolding restore_statement without_prefix
restored q v = rw (read_literal-escape_literal v) refl

setting_of-altered :
    (q v r : Text) → setting_of v r ≡ (if text_eq.beq date_format r then v else setting_of q r)
setting_of-altered q v r = elim (Bool-cases (text_eq.beq r date_format)) [
  | inl yes' ↦ let same : r ≡ date_format = (text_eq.beq_iff r date_format).0 yes' in rw same refl
  | inr no' ↦ elim (Bool-cases (text_eq.beq date_format r)) [
    | inl same ↦
        let again : text_eq.beq r date_format ≡ true =
          (text_eq.beq_iff r date_format).1 (sym ((text_eq.beq_iff date_format r).0 same)) in
        cc
    | inr other ↦ rw (no', other) refl
  ]
]

session-alter :
    (q p v r : Text) (rows : List SettingRow)
    → text_eq.beq p date_format ≡ true
    → (session_database.query q (restore_statement p v) []).1 ≡ ok rows
    → setting_of (session_database.query q (restore_statement p v) []).0 r
      ≡ (if text_eq.beq p r then v else setting_of q r)
session-alter q p v r rows known done =
    let same : p ≡ date_format = (text_eq.beq_iff p date_format).0 known in
    rw (same, restored q v) (setting_of-altered q v r)

abbrev session : OracleSession session_database
session = record {
  is_parameter = λ p. text_eq.beq p date_format;
  setting = setting_of;
  select-value = session-select_value;
  select-setting = λ q p r. refl;
  alter-setting = session-alter;
}

abbrev set_format : List ValidatedCommand
set_format =
    record {
      command = codes "ALTER SESSION SET NLS_DATE_FORMAT = 'MM'";
      dialect = oracle;
      oracle_parameter = some date_format;
    }
    ∷ []

abbrev failing : Text → Text × Result Fault ℕ
failing q = (codes "changed", err (error_fault 5))

reusable :
    IsReusable session_database session
      (execute_with_restored_oracle_session session_database failing set_format (codes "DD")).1
unfolding execute_with_restored_oracle_session after_capture run_and_restore capture restore
    reversed settle set_up_and_run execute_validated_commands parameter_to_read captured first_value
    read_setting restore_statement escape_literal without_prefix read_literal as_error has put
reusable = refl

execute_with_restored_oracle_session-setting_example :
    setting_of
      (execute_with_restored_oracle_session session_database failing set_format (codes "DD")).0
      date_format
    ≡ setting_of (codes "DD") date_format
execute_with_restored_oracle_session-setting_example =
    execute_with_restored_oracle_session-setting session_database session failing set_format
      (codes "DD") date_format refl reusable

accepted :
    validate_command (codes " set local role app ")
    ≡ ok (record {
      command = codes "set local role app";
      dialect = postgres;
      oracle_parameter = none;
    })
unfolding validate_command validate_trimmed includes_two trim trim_start is_space matches lower
accepted = refl

two_statements : validate_command (codes "SET LOCAL ROLE a; DROP TABLE b") ≡ err unsafe_command
unfolding validate_command validate_trimmed trim trim_start is_space
two_statements = refl

validate_command-IsPlain_example :
    (codes "set local role app" ≡ trim (codes " set local role app "))
    × (trim (codes " set local role app ") ≢ [])
    × IsPlain (trim (codes " set local role app "))
validate_command-IsPlain_example =
    validate_command-IsPlain (codes " set local role app ")
      (record { command = codes "set local role app"; dialect = postgres; oracle_parameter = none })
      accepted
