-- ===== src/Tracker/Utf8.antt =====
-- `measureUtf8` against the UTF-8 encoding of the text: surrogate pairs become one code point, and a
-- surrogate that stands alone is encoded as U+FFFD, as `Buffer.byteLength` does.
use Prim.Native.Nat.{◌%◌}
use typeorm_procedure_kit.Common.{
  ℕ, ◌+◌, ◌-◌, ◌*◌, ◌/◌, ◌<◌, ◌≡◌, Bool, true, false, refl, ◌&&◌, List, [], ◌∷◌, ltb, leb,
  if◌then◌else◌, length, All, arith, Bool-cases, inl, inr,
}
use mathlib.Core.List.{◌++◌}
use typeorm_procedure_kit.Common.{length-append}
use typeorm_procedure_kit.Common.Text.{Text, between}
use typeorm_procedure_kit.Tracker.Measure.{
  measure_utf8, extra_bytes, is_high_surrogate, is_low_surrogate,
}

abbrev pub is_surrogate : ℕ → Bool
is_surrogate c = between 0xd800 0xdfff c

abbrev pub scalar : ℕ → ℕ
scalar c = if is_surrogate c then 0xfffd else c

unfoldable pub code_points : Text → List ℕ
code_points [] = []
code_points (c ∷ []) = scalar c ∷ []
code_points (c ∷ d ∷ s) =
    let pair = (0x10000 + (c - 0xd800) * 0x400 + (d - 0xdc00)) ∷ code_points s in
    let single = scalar c ∷ code_points (d ∷ s) in
    if between 0xd800 0xdbff c && between 0xdc00 0xdfff d then pair else single

unfoldable pub encode : ℕ → List ℕ
encode p =
    if ltb p 0x80
    then p ∷ []
    else if ltb p 0x800
    then (0xc0 + p / 0x40) ∷ (0x80 + p % 0x40) ∷ []
    else if ltb p 0x10000
    then (0xe0 + p / 0x1000) ∷ (0x80 + p / 0x40 % 0x40) ∷ (0x80 + p % 0x40) ∷ []
    else (0xf0 + p / 0x40000)
      ∷ (0x80 + p / 0x1000 % 0x40)
      ∷ (0x80 + p / 0x40 % 0x40)
      ∷ (0x80 + p % 0x40)
      ∷ []

unfoldable pub utf8 : List ℕ → List ℕ
unfolding encode
utf8 [] = []
utf8 (p ∷ ps) = encode p ++ utf8 ps

length-utf8 : (p : ℕ) (ps : List ℕ) → length (utf8 (p ∷ ps)) ≡ length (encode p) + length (utf8 ps)
unfolding utf8
length-utf8 p ps = length-append (encode p) (utf8 ps)

-- the bytes of one unit that is no half of a pair, and of a pair
length-encode-scalar :
    (c : ℕ)
    → c < 0x10000
    → length (encode (scalar c)) ≡ 1 + (if leb c 0x7f then 0 else if leb c 0x7ff then 1 else 2)
unfolding encode
length-encode-scalar c h = ground arith

abbrev pair_point : ℕ → ℕ → ℕ
pair_point c d = 0x10000 + (c - 0xd800) * 0x400 + (d - 0xdc00)

length-encode-pair : (c d : ℕ) → length (encode (pair_point c d)) ≡ 4
unfolding encode
length-encode-pair c d = ground arith

abbrev pub IsCodeUnits : Text → Type 0
IsCodeUnits s = All (λ c. c < 0x10000) s

abbrev is_pair : ℕ → ℕ → Bool
is_pair c d = between 0xd800 0xdbff c && between 0xdc00 0xdfff d

abbrev unit_extra : ℕ → ℕ
unit_extra c = if leb c 0x7f then 0 else if leb c 0x7ff then 1 else 2

-- one round of the loop, over what the later rounds give
abbrev extra_round : ℕ → ℕ → ℕ → ℕ → ℕ
extra_round c d one two =
    if leb c 0x7f
    then one
    else if leb c 0x7ff
    then 1 + one
    else if is_pair c d
    then 2 + two
    else 2 + one

extra_bytes-cons :
    (c d : ℕ) (s : Text)
    → extra_bytes (c ∷ d ∷ s) ≡ extra_round c d (extra_bytes (d ∷ s)) (extra_bytes s)
unfolding extra_bytes is_high_surrogate is_low_surrogate
extra_bytes-cons c d s = refl

extra_round_pair : (c d one two : ℕ) → is_pair c d ≡ true → extra_round c d one two ≡ 2 + two
extra_round_pair c d one two h = ground arith

extra_round_single :
    (c d one two : ℕ) → is_pair c d ≡ false → extra_round c d one two ≡ unit_extra c + one
extra_round_single c d one two h = ground arith

code_points-cons :
    (c d : ℕ) (s : Text)
    → code_points (c ∷ d ∷ s)
      ≡ (if is_pair c d then pair_point c d ∷ code_points s else scalar c ∷ code_points (d ∷ s))
unfolding code_points
code_points-cons c d s = refl

length-utf8-single :
    (c : ℕ) (ps : List ℕ)
    → c < 0x10000
    → length (utf8 (scalar c ∷ ps)) ≡ 1 + unit_extra c + length (utf8 ps)
length-utf8-single c ps h = omega (arith, length-utf8 (scalar c) ps, length-encode-scalar c h)

length-utf8-pair :
    (c d : ℕ) (ps : List ℕ) → length (utf8 (pair_point c d ∷ ps)) ≡ 4 + length (utf8 ps)
length-utf8-pair c d ps = omega (arith, length-utf8 (pair_point c d) ps, length-encode-pair c d)

extra_bytes_lem :
    (s : Text) → IsCodeUnits s → length s + extra_bytes s ≡ length (utf8 (code_points s))
extra_bytes_lem [] h = unfold utf8 extra_bytes code_points in omega arith
extra_bytes_lem (c ∷ []) (h, _) =
    unfold extra_bytes code_points in rw (length-utf8-single c [] h) (unfold utf8 in omega arith)
extra_bytes_lem (c ∷ d ∷ s) (h, (k, hs)) = elim (Bool-cases (is_pair c d)) [
  | inl both ↦
      rw
        (
          extra_bytes-cons c d s,
          code_points-cons c d s,
          extra_round_pair c d (extra_bytes (d ∷ s)) (extra_bytes s) both,
          both,
        )
        (omega (arith, length-utf8-pair c d (code_points s), extra_bytes_lem s hs))
  | inr single ↦
      rw
        (
          extra_bytes-cons c d s,
          code_points-cons c d s,
          extra_round_single c d (extra_bytes (d ∷ s)) (extra_bytes s) single,
          single,
        )
        (omega
          (arith, length-utf8-single c (code_points (d ∷ s)) h, extra_bytes_lem (d ∷ s) (k, hs)))
]

-- The measured length of a text is the number of bytes of its UTF-8 encoding.
pub measure_utf8-eq-length :
    (s : Text) → IsCodeUnits s → measure_utf8 s ≡ length (utf8 (code_points s))
unfolding measure_utf8
measure_utf8-eq-length s h = extra_bytes_lem s h
