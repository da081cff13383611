-- ===== src/Regex.antt =====
-- Regular expressions of JavaScript as data, matched from `^` to `$` by derivatives.
pub mod Correct
pub mod Complete
use typeorm_procedure_kit.Common.{
  ℕ, zero, suc, ◌≡◌, Bool, true, false, not, ◌&&◌, ◌||◌, List, [], ◌∷◌, ◌++◌, if◌then◌else◌,
  nat_beq,
}
use Prim.Native.String.{String}
use typeorm_procedure_kit.Common.Text.{Text, codes, between, lower, is_space}

pub data Regex : Type 0 where
  nothing empty : Regex
  one : (ℕ → Bool) → Regex
  seq alt : Regex → Regex → Regex
  star : Regex → Regex

-- The texts that an expression stands for.
pub data Matches : Regex → Text → Type 0 where
  m_empty : Matches empty []
  m_one : {p : ℕ → Bool} {c : ℕ} → p c ≡ true → Matches (one p) (c ∷ [])
  m_seq :
      {a b : Regex} {s t u : Text} → Matches a s → Matches b t → u ≡ s ++ t → Matches (seq a b) u
  m_left : {a b : Regex} {s : Text} → Matches a s → Matches (alt a b) s
  m_right : {a b : Regex} {s : Text} → Matches b s → Matches (alt a b) s
  m_stop : {a : Regex} → Matches (star a) []
  m_more :
      {a : Regex} {s t u : Text}
      → Matches a s
      → Matches (star a) t
      → u ≡ s ++ t
      → Matches (star a) u

unfoldable pub nullable : Regex → Bool
nullable nothing = false
nullable empty = true
nullable (one p) = false
nullable (seq a b) = nullable a && nullable b
nullable (alt a b) = nullable a || nullable b
nullable (star a) = true

-- Sequences that cannot match are cut, so that derivatives stay small.
unfoldable pub mk_seq : Regex → Regex → Regex
mk_seq nothing b = nothing
mk_seq empty b = b
mk_seq a b = seq a b

unfoldable pub mk_alt : Regex → Regex → Regex
mk_alt nothing b = b
mk_alt a nothing = a
mk_alt a b = alt a b

-- what may follow the code unit `c`
unfoldable pub deriv : ℕ → Regex → Regex
unfolding mk_seq mk_alt nullable
deriv c nothing = nothing
deriv c empty = nothing
deriv c (one p) = if p c then empty else nothing
deriv c (seq a b) =
    let first = mk_seq (deriv c a) b in
    let second = deriv c b in if nullable a then mk_alt first second else first
deriv c (alt a b) = mk_alt (deriv c a) (deriv c b)
deriv c (star a) = mk_seq (deriv c a) (star a)

unfoldable pub matches : Regex → Text → Bool
unfolding deriv
matches r [] = nullable r
matches r (c ∷ s) = matches (deriv c r) s

-- notation
abbrev pub chr : ℕ → Regex
chr k = one (nat_beq k)

abbrev pub opt : Regex → Regex
opt r = alt r empty

abbrev pub plus : Regex → Regex
plus r = seq r (star r)

abbrev pub lit : Text → Regex
lit [] = empty
lit (c ∷ s) = seq (chr c) (lit s)

abbrev pub same_letter : ℕ → ℕ → Bool
same_letter k c = nat_beq (lower k) (lower c)

-- a literal under the flag `i`, for ASCII
abbrev pub lit_i : Text → Regex
lit_i [] = empty
lit_i (c ∷ s) = seq (one (same_letter c)) (lit_i s)

abbrev pub repeat : ℕ → Regex → Regex
repeat zero r = empty
repeat (suc n) r = seq r (repeat n r)

-- at most `n` times
abbrev pub up_to : ℕ → Regex → Regex
up_to zero r = empty
up_to (suc n) r = opt (seq r (up_to n r))

abbrev pub is_digit : ℕ → Bool
is_digit c = between b'0' b'9' c

abbrev pub is_letter : ℕ → Bool
is_letter c = between b'A' b'Z' c || between b'a' b'z' c

abbrev pub space : Regex
space = one is_space

abbrev pub digit : Regex
digit = one is_digit
