-- ===== src/Identifier/Quoting.antt =====
-- How a SQL lexer reads a quoted identifier: `""` inside is one quote, a single quote ends it.
use typeorm_procedure_kit.Common.{
  ℕ, ◌≡◌, ◌≢◌, refl, arith, ap, true, false, Option, none, some, [], ◌∷◌, ◌++◌, append_assoc, All,
  if◌then◌else◌, ok, >>=-eq-ok, nat_beq,
}
use typeorm_procedure_kit.Common.Text.{Text, trim}
use typeorm_procedure_kit.Identifier.{
  is_identifier_start, is_identifier_part, validate_identifier, quote_postgres_identifier, wrap,
}
use typeorm_procedure_kit.Identifier.Accepts.{IsIdentifier, validate_identifier_iff}

abbrev push_unit : ℕ → Option (Text × Text) → Option (Text × Text)
push_unit c none = none
push_unit c (some (s, rest)) = some (c ∷ s, rest)

-- behind the opening quote: the name and the text after the closing quote
unfoldable pub read_body : Text → Option (Text × Text)
read_body [] = none
read_body (c ∷ []) = if nat_beq c b'"' then some ([], []) else none
read_body (c ∷ d ∷ s) =
    let doubled = push_unit c (read_body s) in
    let next = push_unit c (read_body (d ∷ s)) in
    if nat_beq c b'"' then (if nat_beq d b'"' then doubled else some ([], d ∷ s)) else next

unfoldable pub read_quoted : Text → Option (Text × Text)
unfolding read_body
read_quoted [] = none
read_quoted (c ∷ s) = if nat_beq c b'"' then read_body s else none

-- The text that follows does not go on with a quote.
abbrev pub EndsName : Text → Type 0
EndsName [] = Unit
EndsName (c ∷ s) = c ≢ b'"'

pub read_body_end : (rest : Text) → EndsName rest → read_body (b'"' ∷ rest) ≡ some ([], rest)
unfolding read_body
read_body_end [] h = refl
read_body_end (c ∷ s) h = ground arith

read_body-cons :
    (c d : ℕ) (s : Text)
    → nat_beq c b'"' ≡ false
    → read_body (c ∷ d ∷ s) ≡ push_unit c (read_body (d ∷ s))
unfolding read_body
read_body-cons c d s e = rw e refl

not_quote : (c : ℕ) → c ≢ b'"' → nat_beq c b'"' ≡ false
not_quote c h = ground arith

pub read_body_plain :
    (c : ℕ) (s name rest : Text)
    → c ≢ b'"'
    → read_body s ≡ some (name, rest)
    → read_body (c ∷ s) ≡ some (c ∷ name, rest)
read_body_plain c [] name rest h e = unfold read_body in cc
read_body_plain c (d ∷ s) name rest h e = rw (read_body-cons c d s (not_quote c h), e) refl

pub read_body_doubled :
    (s name rest : Text)
    → read_body s ≡ some (name, rest)
    → read_body (b'"' ∷ b'"' ∷ s) ≡ some (b'"' ∷ name, rest)
read_body_doubled s name rest e = unfold read_body in rw e refl

-- a name without quotes, in its quotes
read_body_wrap :
    (name rest : Text)
    → All (λ c. c ≢ b'"') name
    → EndsName rest
    → read_body (name ++ b'"' ∷ rest) ≡ some (name, rest)
read_body_wrap [] rest h e = read_body_end rest e
read_body_wrap (c ∷ name) rest (h, hs) e =
    read_body_plain c (name ++ b'"' ∷ rest) name rest h (read_body_wrap name rest hs e)

start_ne_quote : (c : ℕ) → is_identifier_start c ≡ true → c ≢ b'"'
start_ne_quote c h e = let bad : is_identifier_start b'"' ≡ true = rw e at h in cc

part_ne_quote : (c : ℕ) → is_identifier_part c ≡ true → c ≢ b'"'
part_ne_quote c h e = let bad : is_identifier_part b'"' ≡ true = rw e at h in cc

parts_ne_quote : (s : Text) → All (λ c. is_identifier_part c ≡ true) s → All (λ c. c ≢ b'"') s
parts_ne_quote [] h = tt
parts_ne_quote (c ∷ s) (h, hs) = (part_ne_quote c h, parts_ne_quote s hs)

name_ne_quote : (s : Text) → IsIdentifier s → All (λ c. c ≢ b'"') s
name_ne_quote [] h = absurd h
name_ne_quote (c ∷ s) (h, hs) = (start_ne_quote c h, parts_ne_quote s hs)

pub wrap-append : (name rest : Text) → wrap name ++ rest ≡ b'"' ∷ name ++ b'"' ∷ rest
wrap-append name rest = ap (λ u. b'"' ∷ u) (append_assoc name (b'"' ∷ []) rest)

-- Whatever follows, if it is no quote, a lexer reads an accepted identifier back from its quotes as
-- the trimmed input, and nothing more.
pub read_quoted-quote_postgres_identifier :
    (value quoted rest : Text)
    → quote_postgres_identifier value ≡ ok quoted
    → EndsName rest
    → read_quoted (quoted ++ rest) ≡ some (trim value, rest)
unfolding quote_postgres_identifier
read_quoted-quote_postgres_identifier value quoted rest h e =
    let (name, valid, wrapped) = >>=-eq-ok (validate_identifier value) (λ n. ok (wrap n)) h in
    let (same, is_name) = (validate_identifier_iff value name).0 valid in
    let q : quoted ≡ wrap (trim value) = cc in
    rw (q, wrap-append (trim value) rest)
      (unfold read_quoted in
        read_body_wrap (trim value) rest (name_ne_quote (trim value) is_name) e)
