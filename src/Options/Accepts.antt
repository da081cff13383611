-- ===== src/Options/Accepts.antt =====
-- src/utils/database-options-executor.ts: accepted setup commands.
use typeorm_procedure_kit.Common.{
  ℕ, ◌≡◌, ◌≢◌, ◌∙◌, ap, arith, refl, sym, ◌++◌, Bool, true, false, Option, none, some, Bool-cases,
  inl, inr, [], ◌∷◌, any, nat_beq, length, ltb, if◌then◌else◌, ok,
}
use typeorm_procedure_kit.Common.Text.{Text, codes, trim}
use typeorm_procedure_kit.Regex.{matches}
use typeorm_procedure_kit.Options.{
  postgres, oracle, ValidatedCommand, has_separator, includes_two, validate_trimmed,
  validate_command, oracle_match, oracle_parameters, oracle_validated, safe_postgres_commands,
}

-- a text in which these code units stand nowhere together
abbrev pub Lacks : Text → Text → Type 0
Lacks mark s = (front back : Text) → s ≢ front ++ (mark ++ back)

-- one line of code: no semicolon, and no mark at which a comment begins or ends
pub record IsPlain (s : Text) : Type 0 where
  pub no_semicolon : Lacks (codes ";") s
  pub no_dashes : Lacks (codes "--") s
  pub no_opening : Lacks (codes "/*") s
  pub no_closing : Lacks (codes "*/") s

-- the text itself, without a separator or a comment mark
abbrev IsAccepted : Text → ValidatedCommand → Type 0
IsAccepted s v = (v.command ≡ s) × (has_separator s ≡ false) × (s ≢ [])

any-append : (c : ℕ) (front back : Text) → any (nat_beq c) (front ++ (c ∷ back)) ≡ true
any-append c [] back = ground arith
any-append c (d ∷ front) back = ground (arith, any-append c front back)

includes_two-append :
    (a b : ℕ) (front back : Text) → includes_two a b (front ++ (a ∷ b ∷ back)) ≡ true
unfolding includes_two
includes_two-append a b [] back = ground arith
includes_two-append a b (c ∷ []) back = ground (arith, includes_two-append a b [] back)
includes_two-append a b (c ∷ d ∷ front) back =
    ground (arith, includes_two-append a b (d ∷ front) back)

any-Lacks : (c : ℕ) (s : Text) → any (nat_beq c) s ≡ false → Lacks (c ∷ []) s
any-Lacks c s h front back e =
    let found = ap (any (nat_beq c)) e ∙ any-append c front back in ground arith

includes_two-Lacks : (a b : ℕ) (s : Text) → includes_two a b s ≡ false → Lacks (a ∷ b ∷ []) s
includes_two-Lacks a b s h front back e =
    let found = ap (includes_two a b) e ∙ includes_two-append a b front back in ground arith

has_separator-IsPlain : (s : Text) → has_separator s ≡ false → IsPlain s
has_separator-IsPlain s h = record {
  no_semicolon = any-Lacks b';' s (ground arith);
  no_dashes = includes_two-Lacks b'-' b'-' s (ground arith);
  no_opening = includes_two-Lacks b'/' b'*' s (ground arith);
  no_closing = includes_two-Lacks b'*' b'/' s (ground arith);
}

oracle_validated-command :
    (s : Text) (o : Option (Text × Text)) (v : ValidatedCommand)
    → oracle_validated s o ≡ ok v
    → v.command ≡ s
oracle_validated-command s none v h = cc
oracle_validated-command s (some (p, value)) v h = elim (Bool-cases (ltb 258 (length value))) [
  | inl yes' ↦ let bad = rw yes' at h in cc
  | inr no' ↦
      let e = rw no' at h in
      let same : record { command = s; dialect = oracle; oracle_parameter = some p } ≡ v = cc in
      rw (sym same) refl
]

-- the choice among the dialects, after the first test
validated-command :
    (s : Text) (b : Bool) (v : ValidatedCommand)
    → (if b
        then ok (record { command = s; dialect = postgres; oracle_parameter = none })
        else oracle_validated s (oracle_match oracle_parameters s))
      ≡ ok v
    → v.command ≡ s
validated-command s true v h =
    let same : record { command = s; dialect = postgres; oracle_parameter = none } ≡ v = cc in
    rw (sym same) refl
validated-command s false v h = oracle_validated-command s (oracle_match oracle_parameters s) v h

empty-length : (s : Text) → nat_beq (length s) 0 ≡ false → s ≢ []
empty-length [] h e = cc
empty-length (c ∷ s) h e = cc

validate_trimmed-IsAccepted :
    (s : Text) (v : ValidatedCommand) → validate_trimmed s ≡ ok v → IsAccepted s v
unfolding validate_trimmed
validate_trimmed-IsAccepted s v h = elim (Bool-cases (nat_beq (length s) 0)) [
  | inl yes' ↦ let bad = rw yes' at h in cc
  | inr no' ↦ elim (Bool-cases (has_separator s)) [
    | inl bad' ↦ let bad = rw (no', bad') at h in cc
    | inr good ↦ (
      validated-command s (any (λ r. matches r s) safe_postgres_commands) v (rw (no', good) at h),
      good,
      empty-length s no',
    )
  ]
]

-- An accepted command is the trimmed input; it is not empty, and `;`, `--`, `/*` and `*/` stand nowhere
-- in it.
pub validate_command-IsPlain :
    (command : Text) (v : ValidatedCommand)
    → validate_command command ≡ ok v
    → (v.command ≡ trim command) × (trim command ≢ []) × IsPlain (trim command)
unfolding validate_command
validate_command-IsPlain command v h =
    let (same, plain, full) = validate_trimmed-IsAccepted (trim command) v h in
    (same, full, has_separator-IsPlain (trim command) plain)
