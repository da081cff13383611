-- ===== src/DateFormatter/LastOffset.antt =====
-- src/utils/date-formatter.ts: where the numeric offset at the end of a text is found.
use typeorm_procedure_kit.Common.{
  ℕ, ◌+◌, ◌<◌, append_assoc, ◌≡◌, refl, sym, ap, ◌∙◌, arith, inl, inr, Bool, true, false, not, ◌||◌,
  [], ◌∷◌, ◌++◌, All-append, nat_beq, some, Bool-cases,
}
use mathlib.Core.Path.{subst}
use typeorm_procedure_kit.Common.Text.{Text, lower}
use typeorm_procedure_kit.Regex.{
  Regex, nothing, empty, one, seq, alt, star, is_digit, same_letter, matches, Matches, m_empty,
  m_one, m_seq, m_left, m_right, m_stop, m_more,
}
use typeorm_procedure_kit.Regex.Complete.{matches_iff}
use typeorm_procedure_kit.Identifier.Accepts.{AllOf}
use typeorm_procedure_kit.DateFormatter.{numeric_offset, exec_at_end, ends_with_z}
use typeorm_procedure_kit.DateFormatter.Zoned.{
  IsSign, IsOffset, offset_hours, offset_minutes, offset_colon, offset-Matches,
}

-- an expression of code units that pass a test
abbrev Within : (ℕ → Bool) → Regex → Type 0
Within p nothing = Unit
Within p empty = Unit
Within p (one q) = (c : ℕ) → q c ≡ true → p c ≡ true
Within p (seq a b) = Within p a × Within p b
Within p (alt a b) = Within p a × Within p b
Within p (star a) = Within p a

Within-AllOf : (p : ℕ → Bool) {r : Regex} {s : Text} → Matches r s → Within p r → AllOf p s
Within-AllOf p m_empty w = tt
Within-AllOf p (m_one {c} h) w = (w c h, tt)
Within-AllOf p (m_seq {s} {t} m n e) (v, w) =
    subst (AllOf p) (sym e)
      (All-append (λ c. p c ≡ true) s t (Within-AllOf p m v) (Within-AllOf p n w))
Within-AllOf p (m_left m) (v, w) = Within-AllOf p m v
Within-AllOf p (m_right m) (v, w) = Within-AllOf p m w
Within-AllOf p m_stop w = tt
Within-AllOf p (m_more {s} {t} m n e) w =
    subst (AllOf p) (sym e)
      (All-append (λ c. p c ≡ true) s t (Within-AllOf p m w) (Within-AllOf p n w))

abbrev unsigned : ℕ → Bool
unsigned c = not (nat_beq c 43 || nat_beq c 45)

-- behind its first code unit, an offset has no sign
offset-unsigned : {c : ℕ} {s : Text} → Matches numeric_offset (c ∷ s) → AllOf unsigned s
offset-unsigned {c} {s} (m_seq {t} (m_one {c = d} h) n e) =
    let same : t ≡ s = sym (rest_same e) in
    subst (AllOf unsigned) same (
      Within-AllOf unsigned n
        ((digits, (digits, tt)), (((colons, tt), (digits, (digits, tt))), tt)))
  where
    rest_same : {c d : ℕ} {s t : Text} → ◌≡◌ {A = Text} (c ∷ s) (d ∷ t) → s ≡ t
    rest_same e = cc

    digits : (x : ℕ) → is_digit x ≡ true → unsigned x ≡ true
    digits x h = ground arith

    colons : (x : ℕ) → nat_beq 58 x ≡ true → unsigned x ≡ true
    colons x h = ground arith

-- a text with a sign further on is no offset
signed_behind : (s : Text) (sign : ℕ) (t : Text) → IsSign sign → ¬ AllOf unsigned (s ++ (sign ∷ t))
signed_behind [] sign t h (k, ks) = ground arith
signed_behind (c ∷ s) sign t h (k, ks) = signed_behind s sign t h ks

-- an offset begins with its sign
signed :
    {off : Text} {h m : ℕ}
    → IsOffset off h m
    → (sign : ℕ) × (t : Text) × (off ≡ sign ∷ t) × IsSign sign
signed (offset_hours s h k) = (_, _, refl, s)
signed (offset_minutes s h k m n) = (_, _, refl, s)
signed (offset_colon s h k m n) = (_, _, refl, s)

longer-no_match :
    (c : ℕ) (s off : Text) {h m : ℕ}
    → IsOffset off h m
    → matches numeric_offset (c ∷ (s ++ off)) ≡ false
longer-no_match c s off o = elim (Bool-cases (matches numeric_offset (c ∷ (s ++ off)))) [
  | inl yes' ↦
      let (sign, t, e, h) = signed o in
      let free = offset-unsigned ((matches_iff numeric_offset (c ∷ (s ++ off))).0 yes') in
      absurd (signed_behind s sign t h (subst (λ x. AllOf unsigned (s ++ x)) e free))
  | inr no' ↦ no'
]

exec_at_end-here :
    (c : ℕ) (s : Text)
    → matches numeric_offset (c ∷ s) ≡ true
    → exec_at_end numeric_offset (c ∷ s) ≡ some (c ∷ s)
unfolding exec_at_end
exec_at_end-here c s h = rw (exec_at_end, h) refl

-- the offset at the end of a text is what the leftmost match finds
pub exec_at_end-offset :
    (s off : Text) {h m : ℕ} → IsOffset off h m → exec_at_end numeric_offset (s ++ off) ≡ some off
unfolding exec_at_end
exec_at_end-offset [] off o =
    let (sign, t, e, h) = signed o in
    let found = (matches_iff numeric_offset off).1 (offset-Matches o) in
    subst (λ x. exec_at_end numeric_offset x ≡ some x) (sym e)
      (exec_at_end-here sign t (subst (λ x. matches numeric_offset x ≡ true) e found))
exec_at_end-offset (c ∷ s) off o =
    rw (exec_at_end, longer-no_match c s off o) (exec_at_end-offset s off o)

ends_with_z-append : (s : Text) (c : ℕ) → ends_with_z (s ++ (c ∷ [])) ≡ same_letter b'Z' c
unfolding ends_with_z
ends_with_z-append [] c = refl
ends_with_z-append (d ∷ []) c = refl
ends_with_z-append (d ∷ e ∷ s) c = ends_with_z-append (e ∷ s) c

not_z : (k : ℕ) → k < 10 → same_letter b'Z' (k + 48) ≡ false
unfolding lower
not_z k h = ground arith

unlettered : (s : Text) (k : ℕ) → k < 10 → ends_with_z (s ++ ((k + 48) ∷ [])) ≡ false
unlettered s k h = ends_with_z-append s (k + 48) ∙ not_z k h

-- a text that ends in an offset does not end in `Z`
pub ends_with_z-offset :
    (s off : Text) {h m : ℕ} → IsOffset off h m → ends_with_z (s ++ off) ≡ false
ends_with_z-offset s off (offset_hours {sign} {h} {k} _ _ l) =
    ap ends_with_z (sym (append_assoc s (sign ∷ (h + 48) ∷ []) ((k + 48) ∷ [])))
    ∙ unlettered (s ++ (sign ∷ (h + 48) ∷ [])) k l
ends_with_z-offset s off (offset_minutes {sign} {h} {k} {m} {n} _ _ _ _ l) =
    ap ends_with_z
      (sym (append_assoc s (sign ∷ (h + 48) ∷ (k + 48) ∷ (m + 48) ∷ []) ((n + 48) ∷ [])))
    ∙ unlettered (s ++ (sign ∷ (h + 48) ∷ (k + 48) ∷ (m + 48) ∷ [])) n l
ends_with_z-offset s off (offset_colon {sign} {h} {k} {m} {n} _ _ _ _ l) =
    ap ends_with_z
      (sym (append_assoc s (sign ∷ (h + 48) ∷ (k + 48) ∷ 58 ∷ (m + 48) ∷ []) ((n + 48) ∷ [])))
    ∙ unlettered (s ++ (sign ∷ (h + 48) ∷ (k + 48) ∷ 58 ∷ (m + 48) ∷ [])) n l
