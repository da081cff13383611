-- ===== src/Portal/Unnamed.antt =====
-- src/adapters/postgres/postgre-portal-name.ts: the names that stand for an unnamed portal, described without the
-- regular expression.
use typeorm_procedure_kit.Common.{
  ℕ, ◌≡◌, ◌≢◌, ◌↔◌, refl, sym, ap, ◌∙◌, arith, true, not, [], ◌∷◌, ◌++◌, map, nat_beq, All,
}
use mathlib.Core.Path.{subst}
use typeorm_procedure_kit.Common.Text.{Text, codes, is_space, lower, to_lower_case}
use typeorm_procedure_kit.Regex.{
  Regex, one, seq, star, plus, opt, chr, lit_i, space, matches, Matches, m_empty, m_one, m_seq,
  m_left, m_right,
}
use typeorm_procedure_kit.Regex.Complete.{matches_iff}
use typeorm_procedure_kit.Identifier.Accepts.{AllOf, star-AllOf, AllOf-star}
use typeorm_procedure_kit.Portal.{unnamed_portal_pattern}

-- nothing, or a blank and a text without `>`
abbrev pub IsTail : Text → Type 0
IsTail [] = Unit
IsTail (c ∷ s) = (is_space c ≡ true) × All (λ d. d ≢ 62) s

-- `<`, the words `unnamed` and `portal` in any case with blanks between them, and `>`, with blanks behind
-- `<` and a tail before `>`
pub record IsUnnamed (u : Text) : Type 0 where
  pub before : Text
  pub word : Text
  pub between : Text
  pub noun : Text
  pub tail : Text
  pub shape : u ≡ 60 ∷ (before ++ (word ++ (between ++ (noun ++ (tail ++ (62 ∷ []))))))
  pub blank : AllOf is_space before
  pub unnamed : to_lower_case word ≡ codes "unnamed"
  pub apart : between ≢ []
  pub blanks : AllOf is_space between
  pub portal : to_lower_case noun ≡ codes "portal"
  pub tailed : IsTail tail

-- a sequence takes its text apart
pub seq-parts :
    {a b : Regex} {u : Text}
    → Matches (seq a b) u
    → (s : Text) × (t : Text) × Matches a s × Matches b t × (u ≡ s ++ t)
seq-parts (m_seq {s} {t} m n e) = (s, t, m, n, e)

chr-same : (k : ℕ) {s : Text} → Matches (chr k) s → s ≡ k ∷ []
chr-same k (m_one {c} h) = ap {A = ℕ} {B = Text} (λ x. x ∷ []) (ground (arith, h))

lit_i-lower : (w s : Text) → Matches (lit_i w) s → to_lower_case s ≡ to_lower_case w
unfolding to_lower_case
lit_i-lower [] s m_empty = refl
lit_i-lower (k ∷ w) s (m_seq {t} (m_one {c} h) n e) =
    ap to_lower_case e
    ∙ ap {A = ℕ} {B = Text} (λ x. x ∷ map lower t) (ground (arith, h))
    ∙ ap {A = Text} {B = Text} (λ x. lower k ∷ x) (lit_i-lower w t n)

lower-lit_i : (w s : Text) → to_lower_case s ≡ to_lower_case w → Matches (lit_i w) s
unfolding to_lower_case
lower-lit_i [] [] e = m_empty
lower-lit_i [] (c ∷ s) e = cc
lower-lit_i (k ∷ w) [] e = cc
lower-lit_i (k ∷ w) (c ∷ s) e =
    let first : lower c ≡ lower k = cc in
    let rest : to_lower_case s ≡ to_lower_case w = cc in
    m_seq (m_one (ground arith)) (lower-lit_i w s rest) refl

plus-blanks : {s : Text} → Matches (plus space) s → (s ≢ []) × AllOf is_space s
plus-blanks (m_seq {t} (m_one {c} h) n e) = (
  (λ q. let bad : ◌≡◌ {A = Text} (c ∷ t) [] = sym e ∙ q in cc),
  subst (AllOf is_space) (sym e) (h, star-AllOf n),
)

blanks-plus : (s : Text) → s ≢ [] → AllOf is_space s → Matches (plus space) s
blanks-plus [] apart h = absurd (apart refl)
blanks-plus (c ∷ s) apart (h, hs) = m_seq (m_one h) (AllOf-star is_space s hs) refl

AllOf-no_close : (s : Text) → AllOf (λ c. not (nat_beq c 62)) s → All (λ d. d ≢ 62) s
AllOf-no_close [] h = tt
AllOf-no_close (c ∷ s) (h, hs) = (ground arith, AllOf-no_close s hs)

no_close-AllOf : (s : Text) → All (λ d. d ≢ 62) s → AllOf (λ c. not (nat_beq c 62)) s
no_close-AllOf [] h = tt
no_close-AllOf (c ∷ s) (h, hs) = (ground arith, no_close-AllOf s hs)

abbrev tail_pattern : Regex
tail_pattern = opt (seq space (star (one (λ c. not (nat_beq c 62)))))

tail_pattern-IsTail : {s : Text} → Matches tail_pattern s → IsTail s
tail_pattern-IsTail (m_left (m_seq {t} (m_one {c} h) n e)) =
    subst IsTail (sym e) (h, AllOf-no_close t (star-AllOf n))
tail_pattern-IsTail (m_right m_empty) = tt

IsTail-tail_pattern : (s : Text) → IsTail s → Matches tail_pattern s
IsTail-tail_pattern [] h = m_right m_empty
IsTail-tail_pattern (c ∷ s) (h, hs) =
    m_left (m_seq (m_one h) (AllOf-star _ s (no_close-AllOf s hs)) refl)

shape_of :
    (before word between noun tail : Text) {u r1 r2 r3 r4 r5 open' close' : Text}
    → u ≡ open' ++ r1
    → open' ≡ 60 ∷ []
    → r1 ≡ before ++ r2
    → r2 ≡ word ++ r3
    → r3 ≡ between ++ r4
    → r4 ≡ noun ++ r5
    → r5 ≡ tail ++ close'
    → close' ≡ 62 ∷ []
    → u ≡ 60 ∷ (before ++ (word ++ (between ++ (noun ++ (tail ++ (62 ∷ []))))))
shape_of before word between noun tail e1 o e2 e3 e4 e5 e6 c =
    rw (e1, o, e2, e3, e4, e5, e6, c) refl

Matches-IsUnnamed : (u : Text) → Matches unnamed_portal_pattern u → IsUnnamed u
unfolding to_lower_case
Matches-IsUnnamed u m =
    let (open', r1, mo, m1, e1) = seq-parts m in
    let (before, r2, mb, m2, e2) = seq-parts m1 in
    let (word, r3, mw, m3, e3) = seq-parts m2 in
    let (between, r4, ms, m4, e4) = seq-parts m3 in
    let (noun, r5, mn, m5, e5) = seq-parts m4 in
    let (tail, close', mt, mc, e6) = seq-parts m5 in
    let (apart, blanks) = plus-blanks ms in
    record {
      before = before;
      word = word;
      between = between;
      noun = noun;
      tail = tail;
      shape =
          shape_of before word between noun tail e1 (chr-same 60 mo) e2 e3 e4 e5 e6
            (chr-same 62 mc);
      blank = star-AllOf mb;
      unnamed = lit_i-lower (codes "unnamed") word mw;
      apart = apart;
      blanks = blanks;
      portal = lit_i-lower (codes "portal") noun mn;
      tailed = tail_pattern-IsTail mt;
    }

IsUnnamed-Matches : (u : Text) → IsUnnamed u → Matches unnamed_portal_pattern u
unfolding to_lower_case
IsUnnamed-Matches u h = subst (Matches unnamed_portal_pattern) (sym h.shape) (
    m_seq (m_one refl)
      (m_seq (AllOf-star is_space h.before h.blank)
        (m_seq (lower-lit_i (codes "unnamed") h.word h.unnamed)
          (m_seq (blanks-plus h.between h.apart h.blanks)
            (m_seq (lower-lit_i (codes "portal") h.noun h.portal)
              (m_seq (IsTail-tail_pattern h.tail h.tailed) (m_one refl) refl) refl)
            refl)
          refl)
        refl)
      refl)

pub matches-IsUnnamed : (u : Text) → (matches unnamed_portal_pattern u ≡ true) ↔ IsUnnamed u
matches-IsUnnamed u =
    let both = matches_iff unnamed_portal_pattern u in
    ((λ h. Matches-IsUnnamed u (both.0 h)), (λ h. both.1 (IsUnnamed-Matches u h)))
