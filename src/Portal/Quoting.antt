-- ===== src/Portal/Quoting.antt =====
-- src/adapters/postgres/postgre-portal-name.ts: a quoted portal name, as a SQL lexer reads it.
use typeorm_procedure_kit.Common.{
  ◌≡◌, refl, arith, inl, inr, Bool-cases, some, [], ◌∷◌, ◌++◌, nat_beq,
}
use typeorm_procedure_kit.Common.Text.{Text}
use typeorm_procedure_kit.Identifier.Quoting.{
  read_quoted, read_body, EndsName, read_body_end, read_body_plain, read_body_doubled, wrap-append,
}
use typeorm_procedure_kit.Portal.{double_quotes, quote}
use typeorm_procedure_kit.Identifier.{wrap}

read_body-double_quotes :
    (name rest : Text)
    → EndsName rest
    → read_body (double_quotes name ++ b'"' ∷ rest) ≡ some (name, rest)
unfolding double_quotes
read_body-double_quotes [] rest e = read_body_end rest e
read_body-double_quotes (c ∷ name) rest e = elim (Bool-cases (nat_beq c b'"')) [
  | inl same ↦
      let q : c ≡ b'"' = ground arith in
      rw q (
        read_body_doubled (double_quotes name ++ b'"' ∷ rest) name rest
          (read_body-double_quotes name rest e))
  | inr other ↦ rw other (
      read_body_plain c (double_quotes name ++ b'"' ∷ rest) name rest (ground arith)
        (read_body-double_quotes name rest e))
]

quote-eq-wrap : (name : Text) → quote name ≡ wrap (double_quotes name)
unfolding quote
quote-eq-wrap name = refl

-- If no quote follows, a lexer reads any portal name back from its quotes, quotes inside it included, and
-- stops there.
pub read_quoted-quote :
    (name rest : Text) → EndsName rest → read_quoted (quote name ++ rest) ≡ some (name, rest)
read_quoted-quote name rest e =
    rw (quote-eq-wrap name, wrap-append (double_quotes name) rest)
      (unfold read_quoted in read_body-double_quotes name rest e)
