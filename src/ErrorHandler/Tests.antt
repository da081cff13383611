-- ===== src/ErrorHandler/Tests.antt =====
-- Runs of the error handler, and its theorem at a concrete response.
use typeorm_procedure_kit.Common.{◌≡◌, ◌↔◌, refl, [], ◌∷◌, ok, err}
use typeorm_procedure_kit.Common.JsMap.{get}
use typeorm_procedure_kit.Common.Text.{codes, trim, trim_start, is_space}
use typeorm_procedure_kit.Common.Int.{pos}
use typeorm_procedure_kit.Value.{Value, string, number, int}
use typeorm_procedure_kit.ErrorHandler.{
  Response, array, object, row, no_rows, database_fault, find_value, is_failure,
  check_for_database_error,
}
use typeorm_procedure_kit.ErrorHandler.Envelope.{Fails, check_for_database_error_iff}

abbrev envelope : Value → Response
envelope code = object ((codes "err_code", code) ∷ (codes "errorText", string (codes "no")) ∷ [])

abbrev code_7 : Value
code_7 = number (int (pos 7))

raises :
    check_for_database_error (array (row (envelope code_7) no_rows))
    ≡ err (database_fault code_7 (string (codes "no")))
unfolding check_for_database_error find_value is_failure get
raises = refl

zeros_pass : check_for_database_error (envelope (string (codes " 000 "))) ≡ ok tt
unfolding check_for_database_error find_value is_failure get trim trim_start is_space
zeros_pass = refl

check_for_database_error_iff_example :
    (check_for_database_error (envelope code_7) ≡ err (database_fault code_7 (string (codes "no"))))
    ↔ Fails (envelope code_7) code_7 (string (codes "no"))
check_for_database_error_iff_example =
    check_for_database_error_iff (envelope code_7) code_7 (string (codes "no"))
