-- ===== src/Identifier/Tests.antt =====
-- Runs of the identifier functions, and their theorems at concrete inputs.
use typeorm_procedure_kit.Common.{◌≡◌, ◌↔◌, refl, [], ◌++◌, ok, err, some}
use typeorm_procedure_kit.Common.Text.{codes, trim, trim_start, is_space, split, split_from}
use typeorm_procedure_kit.Identifier.{
  validate_identifier, quote_postgres_identifier, validate_qualified_identifier, traverse,
  unsafe_identifier, wrap,
}
use typeorm_procedure_kit.Regex.{matches}
use typeorm_procedure_kit.Identifier.Accepts.{IsIdentifier, validate_identifier_iff}
use typeorm_procedure_kit.Identifier.Quoting.{read_quoted, read_quoted-quote_postgres_identifier}

trimmed : validate_identifier (codes " emp_id ") ≡ ok (codes "emp_id")
unfolding validate_identifier trim trim_start is_space matches
trimmed = refl

refused : validate_identifier (codes "1a") ≡ err (unsafe_identifier (codes "1a"))
unfolding validate_identifier trim trim_start is_space matches
refused = refl

empty_part : validate_qualified_identifier (codes "a..b") ≡ err (unsafe_identifier [])
unfolding validate_qualified_identifier traverse validate_identifier split split_from trim
    trim_start is_space matches
empty_part = refl

validate_identifier_iff_example :
    (validate_identifier (codes " id") ≡ ok (codes "id"))
    ↔ ((codes "id" ≡ trim (codes " id")) × IsIdentifier (trim (codes " id")))
validate_identifier_iff_example = validate_identifier_iff (codes " id") (codes "id")

quoted_id : quote_postgres_identifier (codes " id") ≡ ok (wrap (codes "id"))
unfolding quote_postgres_identifier validate_identifier trim trim_start is_space matches
quoted_id = refl

read_quoted-quote_postgres_identifier_example :
    read_quoted (wrap (codes "id") ++ codes ";") ≡ some (trim (codes " id"), codes ";")
read_quoted-quote_postgres_identifier_example =
    read_quoted-quote_postgres_identifier (codes " id") (wrap (codes "id")) (codes ";") quoted_id
      (λ e. cc)
