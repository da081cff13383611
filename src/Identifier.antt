-- ===== src/Identifier.antt =====
-- src/utils/sql-identifier.ts: identifiers that may stand in generated SQL. The labels, which only the
-- messages show, are left out.
pub mod Accepts
pub mod Quoting
mod Tests
use typeorm_procedure_kit.Common.{
  ℕ, Bool, ◌||◌, List, [], ◌∷◌, ◌++◌, nat_beq, if◌then◌else◌, Result, ok, err, ◌>>=◌,
}
use typeorm_procedure_kit.Common.Text.{Text, codes, trim, split, join, to_upper_case}
use typeorm_procedure_kit.Regex.{Regex, one, seq, star, plus, matches, is_letter, is_digit}

abbrev pub is_identifier_start : ℕ → Bool
is_identifier_start c = is_letter c || nat_beq c b'_'

abbrev pub is_identifier_part : ℕ → Bool
is_identifier_part c =
    is_letter c || is_digit c || nat_beq c b'_' || nat_beq c b'$' || nat_beq c b'#'

abbrev pub is_row_id_part : ℕ → Bool
is_row_id_part c =
    is_letter c
    || is_digit c
    || nat_beq c b'+'
    || nat_beq c b'/'
    || nat_beq c b'='
    || nat_beq c b'.'
    || nat_beq c b'_'
    || nat_beq c b'-'

-- /^[A-Za-z_][A-Za-z0-9_$#]*$/
abbrev pub identifier_pattern : Regex
identifier_pattern = seq (one is_identifier_start) (star (one is_identifier_part))

-- /^[A-Za-z0-9+/=._-]+$/
abbrev pub row_id_pattern : Regex
row_id_pattern = plus (one is_row_id_part)

pub data IdentifierError : Type 0 where
  unsafe_identifier unsafe_row_id : Text → IdentifierError

unfoldable pub validate_identifier : Text → Result IdentifierError Text
validate_identifier value =
    let normalized = trim value in
    if matches identifier_pattern normalized then ok normalized else err (unsafe_identifier value)

unfoldable pub validate_row_id : Text → Result IdentifierError Text
validate_row_id value =
    let normalized = trim value in
    if matches row_id_pattern normalized then ok normalized else err (unsafe_row_id value)

-- `map` with a callback that may throw
unfoldable pub traverse :
    (Text → Result IdentifierError Text) → List Text → Result IdentifierError (List Text)
traverse f [] = ok []
traverse f (x ∷ xs) = do ok ((← f x) ∷ (← traverse f xs))

unfoldable pub validate_qualified_identifier : Text → Result IdentifierError Text
unfolding traverse validate_identifier
validate_qualified_identifier value = do
  parts ← traverse validate_identifier (split b'.' value)
  ok (join (codes ".") parts)

abbrev pub wrap : Text → Text
wrap s = b'"' ∷ s ++ b'"' ∷ []

unfoldable pub quote_postgres_identifier : Text → Result IdentifierError Text
unfolding validate_identifier
quote_postgres_identifier value = do name ← validate_identifier value; ok (wrap name)

unfoldable pub quote_postgres_qualified_identifier : List Text → Result IdentifierError Text
unfolding traverse quote_postgres_identifier
quote_postgres_qualified_identifier parts = do
  quoted ← traverse quote_postgres_identifier parts
  ok (join (codes ".") quoted)

upper_identifier : Text → Result IdentifierError Text
unfolding validate_identifier
upper_identifier part = do name ← validate_identifier part; ok (to_upper_case name)

unfoldable pub format_oracle_qualified_identifier : List Text → Result IdentifierError Text
unfolding traverse upper_identifier
format_oracle_qualified_identifier parts = do
  names ← traverse upper_identifier parts
  ok (join (codes ".") names)
