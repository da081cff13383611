-- ===== src/Identifier/Accepts.antt =====
-- What `validateIdentifier` and `validateRowId` accept, without the regular expressions.
use typeorm_procedure_kit.Common.{
  ℕ, ◌≡◌, refl, sym, ◌↔◌, Bool, true, inl, inr, Bool-cases, [], ◌∷◌, ◌++◌, All, All-append, ok,
}
use typeorm_procedure_kit.Common.Text.{Text, trim}
use typeorm_procedure_kit.Regex.{one, star, matches, Matches, m_one, m_seq, m_stop, m_more}
use typeorm_procedure_kit.Regex.Complete.{matches_iff}
use typeorm_procedure_kit.Identifier.{
  is_identifier_start, is_identifier_part, identifier_pattern, validate_identifier,
}
use mathlib.Core.Path.{subst}

abbrev pub AllOf : (ℕ → Bool) → Text → Type 0
AllOf p s = All (λ c. p c ≡ true) s

pub one-AllOf : {p : ℕ → Bool} {s : Text} → Matches (one p) s → AllOf p s
one-AllOf (m_one h) = (h, tt)

pub star-AllOf : {p : ℕ → Bool} {s : Text} → Matches (star (one p)) s → AllOf p s
star-AllOf m_stop = tt
star-AllOf {p} (m_more {s = s} {t = t} m n e) =
    subst (λ u. AllOf p u) (sym e) (All-append (λ c. p c ≡ true) s t (one-AllOf m) (star-AllOf n))

pub AllOf-star : (p : ℕ → Bool) (s : Text) → AllOf p s → Matches (star (one p)) s
AllOf-star p [] h = m_stop
AllOf-star p (c ∷ s) (h, hs) = m_more (m_one h) (AllOf-star p s hs) refl

-- A letter or underscore, followed by letters, digits, `_`, `$` and `#`.
abbrev pub IsIdentifier : Text → Type 0
IsIdentifier [] = ⊥
IsIdentifier (c ∷ s) = (is_identifier_start c ≡ true) × AllOf is_identifier_part s

cons-IsIdentifier :
    {p q : ℕ → Bool} {s t u : Text}
    → Matches (one p) s
    → Matches (star (one q)) t
    → u ≡ s ++ t
    → (c : ℕ) × (u ≡ c ∷ t) × (p c ≡ true) × AllOf q t
cons-IsIdentifier (m_one {c = c} h) n e = (c, e, h, star-AllOf n)

Matches-IsIdentifier : {u : Text} → Matches identifier_pattern u → IsIdentifier u
Matches-IsIdentifier (m_seq m n e) =
    let (c, same, h, hs) = cons-IsIdentifier m n e in subst IsIdentifier (sym same) (h, hs)

IsIdentifier-Matches : (u : Text) → IsIdentifier u → Matches identifier_pattern u
IsIdentifier-Matches [] h = absurd h
IsIdentifier-Matches (c ∷ s) (h, hs) = m_seq (m_one h) (AllOf-star is_identifier_part s hs) refl

IsIdentifier-matches :
    (value : Text) → IsIdentifier (trim value) → matches identifier_pattern (trim value) ≡ true
IsIdentifier-matches value h =
    (matches_iff identifier_pattern (trim value)).1 (IsIdentifier-Matches (trim value) h)

-- `validateIdentifier` returns the trimmed text exactly if that is an identifier; else it throws.
pub validate_identifier_iff :
    (value name : Text)
    → (validate_identifier value ≡ ok name) ↔ ((name ≡ trim value) × IsIdentifier (trim value))
unfolding validate_identifier
validate_identifier_iff value name = elim (Bool-cases (matches identifier_pattern (trim value))) [
  | inl yes' ↦ rw yes' (
    λ e.
        let same : name ≡ trim value = cc in
        (same, Matches-IsIdentifier ((matches_iff identifier_pattern (trim value)).0 yes')),
    λ h. cc (h.0),
  )
  | inr no' ↦ rw no' (λ e. cc, λ h. cc (IsIdentifier-matches value h.1))
]
