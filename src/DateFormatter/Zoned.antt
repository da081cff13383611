-- ===== src/DateFormatter/Zoned.antt =====
-- src/utils/date-formatter.ts: clock times and numeric UTC offsets, described without the regular expressions.
use typeorm_procedure_kit.Common.{
  ℕ, zero, suc, ◌+◌, ◌*◌, ◌≤◌, ◌<◌, ◌≡◌, ◌⊎◌, refl, arith, true, ◌||◌, [], ◌∷◌, ◌++◌, All, length,
  nat_beq,
}
use typeorm_procedure_kit.Common.Text.{Text, lower}
use typeorm_procedure_kit.Regex.{
  empty, one, seq, alt, star, opt, chr, repeat, up_to, digit, matches, Matches, m_empty, m_one,
  m_seq, m_left, m_right,
}
use typeorm_procedure_kit.Regex.Complete.{matches_iff}
use typeorm_procedure_kit.Identifier.Accepts.{AllOf, AllOf-star}
use typeorm_procedure_kit.DateFormatter.{
  clock, numeric_offset, letter_t_or_blank, explicit_zone_pattern,
}

abbrev pub IsDigit : ℕ → Type 0
IsDigit c = (48 ≤ c) × (c ≤ 57)

-- hh:mm, hh:mm:ss, or hh:mm:ss with a fraction of at most nine digits
pub data IsClock : Text → Type 0 where
  clock_minutes :
      {a b c d : ℕ}
      → IsDigit a
      → IsDigit b
      → IsDigit c
      → IsDigit d
      → IsClock (a ∷ b ∷ 58 ∷ c ∷ d ∷ [])
  clock_seconds :
      {a b c d e f : ℕ}
      → IsDigit a
      → IsDigit b
      → IsDigit c
      → IsDigit d
      → IsDigit e
      → IsDigit f
      → IsClock (a ∷ b ∷ 58 ∷ c ∷ d ∷ 58 ∷ e ∷ f ∷ [])
  clock_fraction :
      {a b c d e f g : ℕ} {s : Text}
      → IsDigit a
      → IsDigit b
      → IsDigit c
      → IsDigit d
      → IsDigit e
      → IsDigit f
      → IsDigit g
      → All IsDigit s
      → length s ≤ 8
      → IsClock (a ∷ b ∷ 58 ∷ c ∷ d ∷ 58 ∷ e ∷ f ∷ 46 ∷ g ∷ s)

abbrev pub IsSign : ℕ → Type 0
IsSign c = (c ≡ 43) ⊎ (c ≡ 45)

-- a sign with two digits of hours and, behind a colon or not, two of minutes or none
pub data IsOffset : Text → ℕ → ℕ → Type 0 where
  offset_hours :
      {sign h k : ℕ}
      → IsSign sign
      → h < 10
      → k < 10
      → IsOffset (sign ∷ (h + 48) ∷ (k + 48) ∷ []) (h * 10 + k) 0
  offset_minutes :
      {sign h k m n : ℕ}
      → IsSign sign
      → h < 10
      → k < 10
      → m < 10
      → n < 10
      → IsOffset (sign ∷ (h + 48) ∷ (k + 48) ∷ (m + 48) ∷ (n + 48) ∷ []) (h * 10 + k) (m * 10 + n)
  offset_colon :
      {sign h k m n : ℕ}
      → IsSign sign
      → h < 10
      → k < 10
      → m < 10
      → n < 10
      → IsOffset
          (sign ∷ (h + 48) ∷ (k + 48) ∷ 58 ∷ (m + 48) ∷ (n + 48) ∷ [])
          (h * 10 + k)
          (m * 10 + n)

-- what stands before the clock: nothing, or a text with `T` or a blank at its end
pub data IsFront : Text → Type 0 where
  no_front : IsFront []
  front_t : (s : Text) → IsFront (s ++ (84 ∷ []))
  front_lower_t : (s : Text) → IsFront (s ++ (116 ∷ []))
  front_blank : (s : Text) → IsFront (s ++ (32 ∷ []))

pub data IsGap : Text → Type 0 where
  no_gap : IsGap []
  blank_gap : IsGap (32 ∷ [])

digit-Matches : (c : ℕ) → IsDigit c → Matches digit (c ∷ [])
digit-Matches c h = m_one (ground arith)

two-Matches : {a b : ℕ} → IsDigit a → IsDigit b → Matches (repeat 2 digit) (a ∷ b ∷ [])
two-Matches {a} {b} h k = m_seq (digit-Matches a h) (m_seq (digit-Matches b k) m_empty refl) refl

up_to-Matches : (n : ℕ) (s : Text) → All IsDigit s → length s ≤ n → Matches (up_to n digit) s
up_to-Matches zero [] h l = m_empty
up_to-Matches zero (c ∷ s) h l = absurd (omega (arith, l))
up_to-Matches (suc n) [] h l = m_right m_empty
up_to-Matches (suc n) (c ∷ s) (h, hs) l =
    m_left (m_seq (digit-Matches c h) (up_to-Matches n s hs (omega arith)) refl)

clock-Matches : {s : Text} → IsClock s → Matches clock s
clock-Matches (clock_minutes a b c d) =
    m_seq (two-Matches a b)
      (m_seq (m_one refl) (m_seq (two-Matches c d) (m_right m_empty) refl) refl) refl
clock-Matches (clock_seconds a b c d e f) =
    m_seq (two-Matches a b)
      (m_seq (m_one refl)
        (m_seq (two-Matches c d)
          (m_left (m_seq (m_one refl) (m_seq (two-Matches e f) (m_right m_empty) refl) refl)) refl)
        refl)
      refl
clock-Matches (clock_fraction {g} {s} a b c d e f g' hs l) =
    let fraction =
      m_seq (m_one refl) (m_seq (digit-Matches g g') (up_to-Matches 8 s hs l) refl) refl in
    m_seq (two-Matches a b)
      (m_seq (m_one refl)
        (m_seq (two-Matches c d)
          (m_left (m_seq (m_one refl) (m_seq (two-Matches e f) (m_left fraction) refl) refl)) refl)
        refl)
      refl

sign-Matches : (c : ℕ) → IsSign c → Matches (one (λ c. nat_beq c b'+' || nat_beq c b'-')) (c ∷ [])
sign-Matches c h = m_one (ground arith)

pub offset-Matches : {s : Text} {h m : ℕ} → IsOffset s h m → Matches numeric_offset s
offset-Matches (offset_hours {sign} s h k) =
    m_seq (sign-Matches sign s)
      (m_seq (two-Matches (ground arith) (ground arith)) (m_right m_empty) refl) refl
offset-Matches (offset_minutes {sign} s h k m n) =
    m_seq (sign-Matches sign s)
      (m_seq (two-Matches (ground arith) (ground arith))
        (m_left (m_seq (m_right m_empty) (two-Matches (ground arith) (ground arith)) refl)) refl)
      refl
offset-Matches (offset_colon {sign} s h k m n) =
    m_seq (sign-Matches sign s)
      (m_seq (two-Matches (ground arith) (ground arith))
        (m_left (m_seq (m_left (m_one refl)) (two-Matches (ground arith) (ground arith)) refl))
        refl)
      refl

any_text : (s : Text) → AllOf (λ c. true) s
any_text [] = tt
any_text (c ∷ s) = (refl, any_text s)

behind-Matches :
    (s : Text) (c : ℕ)
    → Matches letter_t_or_blank (c ∷ [])
    → Matches (alt empty (seq (star (one (λ c. true))) letter_t_or_blank)) (s ++ (c ∷ []))
behind-Matches s c h = m_right (m_seq (AllOf-star _ s (any_text s)) h refl)

front-Matches :
    {s : Text} → IsFront s → Matches (alt empty (seq (star (one (λ c. true))) letter_t_or_blank)) s
unfolding lower
front-Matches no_front = m_left m_empty
front-Matches (front_t s) = behind-Matches s 84 (m_one refl)
front-Matches (front_lower_t s) = behind-Matches s 116 (m_one refl)
front-Matches (front_blank s) = behind-Matches s 32 (m_one refl)

gap-Matches : {gap : Text} → IsGap gap → Matches (opt (chr 32)) gap
gap-Matches no_gap = m_right m_empty
gap-Matches blank_gap = m_left (m_one refl)

pub zoned-matches :
    {front clk gap off : Text} {h m : ℕ}
    → IsFront front
    → IsClock clk
    → IsGap gap
    → IsOffset off h m
    → matches explicit_zone_pattern (front ++ (clk ++ (gap ++ off))) ≡ true
zoned-matches f c g o = (matches_iff explicit_zone_pattern _).1 (
    m_seq (front-Matches f)
      (m_seq (clock-Matches c) (m_seq (gap-Matches g) (m_right (offset-Matches o)) refl) refl) refl)
