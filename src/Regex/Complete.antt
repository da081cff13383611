-- ===== src/Regex/Complete.antt =====
-- The matcher of regular expressions, against the texts that they describe.
use mathlib.Core.Path.{subst}
use typeorm_procedure_kit.Common.{
  ℕ, ◌≡◌, refl, sym, arith, ◌↔◌, true, inl, inr, Bool-cases, [], ◌∷◌, ◌++◌, ◌∙◌,
}
use typeorm_procedure_kit.Common.Text.{Text}
use typeorm_procedure_kit.Regex.{
  Regex, empty, seq, alt, star, Matches, m_empty, m_one, m_seq, m_left, m_right, m_stop, m_more,
  nullable, mk_seq, deriv, matches,
}
use typeorm_procedure_kit.Regex.Correct.{mk_seq_complete, mk_alt_left, mk_alt_right, matches_sound}

append-eq-nil : (s t : Text) → s ++ t ≡ [] → (s ≡ []) × (t ≡ [])
append-eq-nil [] t e = (refl, e)
append-eq-nil (c ∷ s) t e = cc

nullable_complete : {r : Regex} {u : Text} → Matches r u → u ≡ [] → nullable r ≡ true
unfolding nullable
nullable_complete m_empty e = refl
nullable_complete (m_one h) e = cc
nullable_complete (m_seq {s = s} {t = t} m n d) e =
    let (es, et) = append-eq-nil s t (sym d ∙ e) in
    rw (nullable_complete m es, nullable_complete n et) refl
nullable_complete (m_left m) e = rw (nullable_complete m e) refl
nullable_complete (m_right {a = a} m) e = rw (nullable_complete m e) (ground arith)
nullable_complete m_stop e = refl
nullable_complete (m_more m n d) e = refl

-- where the first part is empty the second starts with `c`
module _ (c : ℕ) (a b : Regex) (w : Text) where
  seq_step :
      (s t : Text)
      → Matches a s
      → Matches b t
      → ((x : Text) → s ≡ c ∷ x → Matches (deriv c a) x)
      → ((x : Text) → t ≡ c ∷ x → Matches (deriv c b) x)
      → c ∷ w ≡ s ++ t
      → Matches (deriv c (seq a b)) w
  unfolding deriv
  seq_step [] t m n f g e =
      rw (deriv, nullable_complete m refl)
        (mk_alt_right (mk_seq (deriv c a) b) (deriv c b) w (g w (sym e)))
  seq_step (d ∷ s) t m n f g e =
      let tails : w ≡ s ++ t = cc in
      let heads : d ∷ s ≡ c ∷ s = cc in
      let first : Matches (mk_seq (deriv c a) b) w =
        subst (λ x. Matches (mk_seq (deriv c a) b) x) (sym tails)
          (mk_seq_complete (deriv c a) b s t (f s heads) n) in
      elim (Bool-cases (nullable a)) [
        | inl yes' ↦ rw (deriv, yes') (mk_alt_left (mk_seq (deriv c a) b) (deriv c b) w first)
        | inr no' ↦ rw (deriv, no') first
      ]

  star_step :
      (s t : Text)
      → Matches (star a) t
      → ((x : Text) → s ≡ c ∷ x → Matches (deriv c a) x)
      → ((x : Text) → t ≡ c ∷ x → Matches (deriv c (star a)) x)
      → c ∷ w ≡ s ++ t
      → Matches (deriv c (star a)) w
  unfolding deriv
  star_step [] t n f g e = g w (sym e)
  star_step (d ∷ s) t n f g e =
      let tails : w ≡ s ++ t = cc in
      let heads : d ∷ s ≡ c ∷ s = cc in
      subst (λ x. Matches (mk_seq (deriv c a) (star a)) x) (sym tails)
        (mk_seq_complete (deriv c a) (star a) s t (f s heads) n)

mk_left : (c : ℕ) (a b : Regex) (w : Text) → Matches (deriv c a) w → Matches (deriv c (alt a b)) w
unfolding deriv
mk_left c a b w h = mk_alt_left (deriv c a) (deriv c b) w h

mk_right : (c : ℕ) (a b : Regex) (w : Text) → Matches (deriv c b) w → Matches (deriv c (alt a b)) w
unfolding deriv
mk_right c a b w h = mk_alt_right (deriv c a) (deriv c b) w h

deriv_complete :
    (c : ℕ) {r : Regex} {u : Text} → Matches r u → (w : Text) → u ≡ c ∷ w → Matches (deriv c r) w
deriv_complete c m_empty w e = cc
deriv_complete c (m_one {p} {c = d} h) w e =
    let same : d ≡ c = cc in
    let rest : [] ≡ w = cc in
    let ok' : p c ≡ true = rw (← same) h in
    unfold deriv in rw ok' (subst (λ x. Matches empty x) rest m_empty)
deriv_complete c (m_seq {a = a} {b = b} {s = s} {t = t} m n d) w e =
    seq_step c a b w s t m n (deriv_complete c m) (deriv_complete c n) (sym e ∙ d)
deriv_complete c (m_left {a = a} {b = b} m) w e =
    let h = deriv_complete c m w e in mk_left c a b w h
deriv_complete c (m_right {a = a} {b = b} m) w e =
    let h = deriv_complete c m w e in mk_right c a b w h
deriv_complete c m_stop w e = cc
deriv_complete c (m_more {a = a} {s = s} {t = t} m n d) w e =
    star_step c a a w s t n (deriv_complete c m) (deriv_complete c n) (sym e ∙ d)

matches_complete : (s : Text) (r : Regex) → Matches r s → matches r s ≡ true
unfolding matches
matches_complete [] r m = nullable_complete m refl
matches_complete (c ∷ s) r m = matches_complete s (deriv c r) (deriv_complete c m s refl)

-- The matcher accepts exactly the texts of the expression.
pub matches_iff : (r : Regex) (s : Text) → (matches r s ≡ true) ↔ Matches r s
matches_iff r s = (matches_sound r s, matches_complete s r)
