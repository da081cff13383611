-- ===== src/Options/Session.antt =====
-- src/utils/database-options-executor.ts: running an operation between setup commands and the restoration
-- of the Oracle session. The database is the record `Database`.
use typeorm_procedure_kit.Common.{
  Bool, true, false, Option, none, some, List, [], ◌∷◌, ◌++◌, nat_beq, if◌then◌else◌, Result, ok,
  err,
}
use typeorm_procedure_kit.Common.JsMap.{has, put}
use typeorm_procedure_kit.Common.Text.{Text, text_eq, codes}
use typeorm_procedure_kit.ErrorHandler.{Fault, server_fault, aggregate_fault, ensure_server_error}
use typeorm_procedure_kit.Retry.{as_error}
use typeorm_procedure_kit.Options.{postgres, oracle, ValidatedCommand, validate_commands}
use typeorm_procedure_kit.Value.{Value, undefined, null, string}

-- A row of the session view, under the two spellings of its column.
pub record SettingRow : Type 0 where
  pub value : Value
  pub upper_value : Value

-- `connection.query`: a statement and its bindings change the database and return rows or throw.
pub record Database : Type 1 where
  pub State : Type 0
  pub query : State → Text → List Text → State × Result Fault (List SettingRow)

-- An error, and whether it is marked so that the connection is not used again.
pub record Failure : Type 0 where
  pub fault : Fault
  pub invalidates : Bool

-- replaceAll("'", "''")
unfoldable pub escape_literal : Text → Text
escape_literal [] = []
escape_literal (c ∷ s) = if nat_beq c b'\'' then c ∷ c ∷ escape_literal s else c ∷ escape_literal s

unfoldable pub restore_statement : Text → Text → Text
unfolding escape_literal
restore_statement parameter value =
    codes "ALTER SESSION SET " ++ parameter ++ codes " = '" ++ escape_literal value ++ codes "'"

abbrev pub select_statement : Text
select_statement = codes "SELECT value FROM nls_session_parameters WHERE parameter = :1"

-- the operator `??`
abbrev coalesce : Value → Value → Value
coalesce undefined w = w
coalesce null w = w
coalesce v w = v

-- rows[0]?.value ?? rows[0]?.VALUE
unfoldable pub first_value : List SettingRow → Value
first_value [] = undefined
first_value (r ∷ rs) = coalesce r.value r.upper_value

unfoldable pub read_setting : Text → Value → Result Fault Text
read_setting parameter (string v) = ok v
read_setting parameter _ = err (server_fault (codes "Unable to capture Oracle session value"))

unfoldable pub captured : Text → Result Fault (List SettingRow) → Result Fault Text
unfolding first_value read_setting
captured parameter (ok rows) = read_setting parameter (first_value rows)
captured parameter (err e) = err e

-- the parameter whose value is still to be read
unfoldable pub parameter_to_read : Option Text → List (Text × Text) → Option Text
parameter_to_read none original = none
parameter_to_read (some p) original = if has original p then none else some p

-- [...originalValues].reverse()
unfoldable pub reversed {ℓ} : {A : Type ℓ} → List A → List A
reversed [] = []
reversed (x ∷ xs) = reversed xs ++ x ∷ []

-- The outcome of the operation, with that of the restoration.
unfoldable pub settle {ℓ} :
    {A : Type ℓ} → Result Fault A → Result Fault (Unit {0}) → Result Failure A
unfolding as_error
settle (ok a) (ok u) = ok a
settle (ok a) (err e) = err (record { fault = ensure_server_error e; invalidates = true })
settle (err p) (ok u) = err (record { fault = as_error p; invalidates = false })
settle (err p) (err e) = err (record { fault = aggregate_fault p e; invalidates = true })

abbrev pub not_invalidating {ℓ} : {A : Type ℓ} → Result Fault A → Result Failure A
not_invalidating (ok a) = ok a
not_invalidating (err e) = err (record { fault = e; invalidates = false })

module _ (db : Database) where
  unfoldable pub execute_validated_commands :
      List ValidatedCommand → db.State → db.State × Result Fault (Unit {0})
  execute_validated_commands [] q = (q, ok tt)
  execute_validated_commands (c ∷ cs) q =
      let (s, r) = db.query q c.command [] in
      elim r [ ok rows ↦ execute_validated_commands cs s | err e ↦ (s, err e) ]

  unfoldable pub capture :
      List ValidatedCommand
      → List (Text × Text)
      → db.State
      → db.State × Result Fault (List (Text × Text))
  unfolding parameter_to_read captured
  capture [] original q = (q, ok original)
  capture (c ∷ cs) original q = elim (parameter_to_read c.oracle_parameter original) [
    | none ↦ capture cs original q
    | some p ↦
        let (s, r) = db.query q select_statement (p ∷ []) in
        elim (captured p r) [ ok v ↦ capture cs (put original p v) s | err e ↦ (s, err e) ]
  ]

  unfoldable pub restore : List (Text × Text) → db.State → db.State × Result Fault (Unit {0})
  unfolding restore_statement
  restore [] q = (q, ok tt)
  restore ((p, v) ∷ more) q =
      let (s, r) = db.query q (restore_statement p v) [] in
      elim r [ ok rows ↦ restore more s | err e ↦ (s, err e) ]

  module _ {A : Type 0} (operation : db.State → db.State × Result Fault A) where
    unfoldable pub set_up_and_run : List ValidatedCommand → db.State → db.State × Result Fault A
    unfolding execute_validated_commands
    set_up_and_run commands q =
        let (s, r) = execute_validated_commands commands q in
        elim r [ ok u ↦ operation s | err e ↦ (s, err e) ]

    unfoldable pub run_and_restore :
        List ValidatedCommand → List (Text × Text) → db.State → db.State × Result Failure A
    unfolding set_up_and_run restore reversed settle
    run_and_restore commands original q =
        let (s, r) = set_up_and_run commands q in
        let (t, restored) = restore (reversed original) s in (t, settle r restored)

    unfoldable pub after_capture :
        List ValidatedCommand
        → db.State × Result Fault (List (Text × Text))
        → db.State × Result Failure A
    unfolding run_and_restore
    after_capture commands (s, ok original) = run_and_restore commands original s
    after_capture commands (s, err e) = (s, err (record { fault = e; invalidates = false }))

    unfoldable pub execute_with_restored_oracle_session :
        List ValidatedCommand → db.State → db.State × Result Failure A
    unfolding after_capture capture
    execute_with_restored_oracle_session commands q = after_capture commands (capture commands [] q)

    unfoldable pub dispatch :
        Result Fault (List ValidatedCommand) → db.State → db.State × Result Failure A
    unfolding execute_with_restored_oracle_session set_up_and_run
    dispatch (err e) q = (q, err (record { fault = e; invalidates = false }))
    dispatch (ok []) q = execute_with_restored_oracle_session [] q
    dispatch (ok (c ∷ cs)) q = elim c.dialect [
      | postgres ↦ let (s, r) = set_up_and_run (c ∷ cs) q in (s, not_invalidating r)
      | oracle ↦ execute_with_restored_oracle_session (c ∷ cs) q
    ]

    unfoldable pub execute_with_commands : List Text → db.State → db.State × Result Failure A
    unfolding dispatch validate_commands
    execute_with_commands [] q = let (s, r) = operation q in (s, not_invalidating r)
    execute_with_commands (c ∷ cs) q = dispatch (validate_commands (c ∷ cs)) q

  unfoldable pub run_unrestored :
      Result Fault (List ValidatedCommand) → db.State → db.State × Result Fault (Unit {0})
  unfolding execute_validated_commands
  run_unrestored (err e) q = (q, err e)
  run_unrestored (ok []) q = (q, ok tt)
  run_unrestored (ok (c ∷ cs)) q = elim c.dialect [
    | postgres ↦ execute_validated_commands (c ∷ cs) q
    | oracle ↦
        (q, err (server_fault (codes "Oracle session commands require executeWithCommands()")))
  ]

  unfoldable pub execute_commands : List Text → db.State → db.State × Result Fault (Unit {0})
  unfolding run_unrestored validate_commands
  execute_commands commands q = run_unrestored (validate_commands commands) q
