-- ===== src/ErrorHandler.antt =====
-- src/utils/server-error.ts (`ENSURE_SERVER_ERROR`) and src/utils/database-error-handler.ts: what is
-- thrown, and which responses are errors. Messages, ids and stacks are left out.
pub mod Envelope
mod Tests
use typeorm_procedure_kit.Common.{
  ℕ, ◌≡◌, Bool, true, false, not, ◌||◌, ◌&&◌, Option, none, some, List, [], ◌∷◌, nat_beq,
  if◌then◌else◌, all, is_some, Result, ok, err,
}
use typeorm_procedure_kit.Common.Int.{ℤ, magnitude}
use typeorm_procedure_kit.Common.JsMap.{get, has}
use typeorm_procedure_kit.Common.Text.{Text, text_eq, codes, trim}
use typeorm_procedure_kit.Value.{
  Number, int, float, Value, undefined, null, symbol, callable, boolean, number, bigint, string,
  buffer, date, ref,
}

-- A thrown value: a ServerError that the program made, one around another value, an AggregateError,
-- another Error, or a value that is no Error.
pub data Fault : Type 0 where
  server_fault : Text → Fault
  database_fault : Value → Value → Fault
  wrapped_fault : Fault → Fault
  aggregate_fault : Fault → Fault → Fault
  error_fault value_fault : ℕ → Fault

unfoldable pub is_server_error : Fault → Bool
is_server_error (server_fault m) = true
is_server_error (database_fault c t) = true
is_server_error (wrapped_fault f) = true
is_server_error _ = false

unfoldable pub ensure_server_error : Fault → Fault
unfolding is_server_error
ensure_server_error f = if is_server_error f then f else wrapped_fault f

-- `Boolean(value)`
unfoldable pub truthy : Value → Bool
truthy undefined = false
truthy null = false
truthy (boolean b) = b
truthy (number (int z)) = not (nat_beq (magnitude z) 0)
truthy (number (float s)) = not (text_eq.beq s (codes "NaN"))
truthy (bigint z) = not (nat_beq (magnitude z) 0)
truthy (string s) = not (text_eq.beq s [])
truthy _ = true

-- `/^0+$/`, or no text at all
abbrev is_zero_text : Text → Bool
is_zero_text s = all (nat_beq b'0') s

-- the outcome of the nested conditional on the code
unfoldable pub is_failure : Value → Bool
unfolding truthy
is_failure (number (int z)) = not (nat_beq (magnitude z) 0)
is_failure (number (float s)) = true
is_failure (string s) = not (is_zero_text (trim s))
is_failure v = truthy v

mutual
  -- a response: no object (or a buffer, or null), an array, or an object with its properties
  pub data Response : Type 0 where
    plain : Response
    array : Responses → Response
    object : List (Text × Value) → Response

  pub data Responses : Type 0 where
    no_rows : Responses
    row : Response → Responses → Responses

abbrev pub error_code_keys : List Text
error_code_keys = codes "error_code" ∷ codes "err_code" ∷ codes "errorCode" ∷ codes "errCode" ∷ []

abbrev pub error_text_keys : List Text
error_text_keys = codes "error_text" ∷ codes "err_text" ∷ codes "errorText" ∷ codes "errText" ∷ []

-- the value at the first of the keys that is `in` the object
unfoldable pub find_value : List Text → List (Text × Value) → Option Value
find_value [] o = none
find_value (k ∷ ks) o = elim (get o k) [ some v ↦ some v | none ↦ find_value ks o ]

abbrev outcome : Bool → Value → Value → Result Fault (Unit {0})
outcome true code text = err (database_fault code text)
outcome false code text = ok tt

abbrev checked : Option Value → Option Value → Result Fault (Unit {0})
checked (some code) (some text) = outcome (is_failure code) code text
checked _ _ = ok tt

-- An array of one is the envelope's array; a longer one is business rows.
unfoldable pub check_for_database_error : Response → Result Fault (Unit {0})
unfolding find_value is_failure
check_for_database_error plain = ok tt
check_for_database_error (array no_rows) = ok tt
check_for_database_error (array (row r no_rows)) = check_for_database_error r
check_for_database_error (array (row r (row q rs))) = ok tt
check_for_database_error (object o) =
    checked (find_value error_code_keys o) (find_value error_text_keys o)
