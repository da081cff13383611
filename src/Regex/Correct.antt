-- ===== src/Regex/Correct.antt =====
-- The matcher of regular expressions, and the texts that its derivatives describe.
use mathlib.Core.Path.{subst}
use typeorm_procedure_kit.Common.{
  ℕ, ◌≡◌, refl, sym, ap, arith, Bool, true, inl, inr, Bool-cases, [], ◌∷◌, ◌++◌,
}
use typeorm_procedure_kit.Common.Text.{Text}
use typeorm_procedure_kit.Regex.{
  Regex, nothing, empty, one, seq, alt, star, Matches, m_empty, m_one, m_seq, m_left, m_right,
  m_stop, m_more, nullable, mk_seq, mk_alt, deriv, matches,
}

nullable_sound : (r : Regex) → nullable r ≡ true → Matches r []
unfolding nullable
nullable_sound nothing h = cc
nullable_sound empty h = m_empty
nullable_sound (one p) h = cc
nullable_sound (seq a b) h =
    m_seq (nullable_sound a (ground arith)) (nullable_sound b (ground arith)) refl
nullable_sound (alt a b) h = elim (Bool-cases (nullable a)) [
  | inl e ↦ m_left (nullable_sound a e)
  | inr e ↦ m_right (nullable_sound b (ground arith))
]
nullable_sound (star a) h = m_stop

not-Matches-nothing : {s : Text} → ¬ Matches nothing s
not-Matches-nothing m = elim m [ ]

mk_seq_sound : (a b : Regex) (s : Text) → Matches (mk_seq a b) s → Matches (seq a b) s
unfolding mk_seq
mk_seq_sound nothing b s m = absurd (not-Matches-nothing m)
mk_seq_sound empty b s m = m_seq m_empty m refl
mk_seq_sound (one p) b s m = m
mk_seq_sound (seq a a') b s m = m
mk_seq_sound (alt a a') b s m = m
mk_seq_sound (star a) b s m = m

seq_empty : {b : Regex} {s t u : Text} → Matches empty s → Matches b t → u ≡ s ++ t → Matches b u
seq_empty {b} m_empty n e = subst (λ x. Matches b x) (sym e) n

pub mk_seq_complete :
    (a b : Regex) (s t : Text) → Matches a s → Matches b t → Matches (mk_seq a b) (s ++ t)
unfolding mk_seq
mk_seq_complete nothing b s t m n = absurd (not-Matches-nothing m)
mk_seq_complete empty b s t m n = seq_empty m n refl
mk_seq_complete (one p) b s t m n = m_seq m n refl
mk_seq_complete (seq a a') b s t m n = m_seq m n refl
mk_seq_complete (alt a a') b s t m n = m_seq m n refl
mk_seq_complete (star a) b s t m n = m_seq m n refl

mk_alt_sound : (a b : Regex) (s : Text) → Matches (mk_alt a b) s → Matches (alt a b) s
unfolding mk_alt
mk_alt_sound nothing b s m = m_right m
mk_alt_sound a nothing s m = m_left m
mk_alt_sound a b s m = m

pub mk_alt_left : (a b : Regex) (s : Text) → Matches a s → Matches (mk_alt a b) s
unfolding mk_alt
mk_alt_left nothing b s m = absurd (not-Matches-nothing m)
mk_alt_left a nothing s m = m
mk_alt_left a b s m = m_left m

pub mk_alt_right : (a b : Regex) (s : Text) → Matches b s → Matches (mk_alt a b) s
unfolding mk_alt
mk_alt_right nothing b s m = m
mk_alt_right a nothing s m = absurd (not-Matches-nothing m)
mk_alt_right a b s m = m_right m

-- a first part that starts with `c`
seq_cons :
    (c : ℕ) (a b r : Regex) (s : Text)
    → ((t : Text) → Matches r t → Matches a (c ∷ t))
    → Matches (seq r b) s
    → Matches (seq a b) (c ∷ s)
seq_cons c a b r s f (m_seq {s = x} m n e) = m_seq (f x m) n (ap (λ u. c ∷ u) e)

star_cons :
    (c : ℕ) (a r : Regex) (s : Text)
    → ((t : Text) → Matches r t → Matches a (c ∷ t))
    → Matches (seq r (star a)) s
    → Matches (star a) (c ∷ s)
star_cons c a r s f (m_seq {s = x} m n e) = m_more (f x m) n (ap (λ u. c ∷ u) e)

one_cons :
    (p : ℕ → Bool) (c : ℕ) (s : Text) → p c ≡ true → Matches empty s → Matches (one p) (c ∷ s)
one_cons p c s e m_empty = m_one e

alt_cons :
    (c : ℕ) (a b r q : Regex) (s : Text)
    → (Matches r s → Matches a (c ∷ s))
    → (Matches q s → Matches b (c ∷ s))
    → Matches (alt r q) s
    → Matches (alt a b) (c ∷ s)
alt_cons c a b r q s f g (m_left m) = m_left (f m)
alt_cons c a b r q s f g (m_right m) = m_right (g m)

alt_same :
    {r : Regex} {u : Text} (a b : Regex) (s : Text)
    → (Matches a s → Matches r u)
    → (Matches b s → Matches r u)
    → Matches (alt a b) s
    → Matches r u
alt_same a b s f g (m_left m) = f m
alt_same a b s f g (m_right m) = g m

deriv_sound : (c : ℕ) (r : Regex) (s : Text) → Matches (deriv c r) s → Matches r (c ∷ s)
unfolding deriv
deriv_sound c nothing s m = absurd (not-Matches-nothing m)
deriv_sound c empty s m = absurd (not-Matches-nothing m)
deriv_sound c (one p) s m = elim (Bool-cases (p c)) [
  | inl e ↦ one_cons p c s e (rw (deriv, e) at m)
  | inr e ↦ absurd (not-Matches-nothing (rw (deriv, e) at m))
]
deriv_sound c (seq a b) s m =
    let first = λ (h : Matches (mk_seq (deriv c a) b) s).
      seq_cons c a b (deriv c a) s (deriv_sound c a) (mk_seq_sound (deriv c a) b s h) in
    elim (Bool-cases (nullable a)) [
      | inl e ↦
          alt_same (mk_seq (deriv c a) b) (deriv c b) s first
            (λ h. m_seq (nullable_sound a e) (deriv_sound c b s h) refl)
            (mk_alt_sound (mk_seq (deriv c a) b) (deriv c b) s (rw (deriv, e) at m))
      | inr e ↦ first (rw (deriv, e) at m)
    ]
deriv_sound c (alt a b) s m =
    alt_cons c a b (deriv c a) (deriv c b) s (deriv_sound c a s) (deriv_sound c b s)
      (mk_alt_sound (deriv c a) (deriv c b) s m)
deriv_sound c (star a) s m =
    star_cons c a (deriv c a) s (deriv_sound c a) (mk_seq_sound (deriv c a) (star a) s m)

-- A text that the matcher accepts is one of the expression's.
pub matches_sound : (r : Regex) (s : Text) → matches r s ≡ true → Matches r s
unfolding matches
matches_sound r [] h = nullable_sound r h
matches_sound r (c ∷ s) h = deriv_sound c r s (matches_sound (deriv c r) s h)
