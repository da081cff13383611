-- ===== src/Common/Text.antt =====
-- JavaScript strings: lists of UTF-16 code units, with the methods of `String` that the program uses.
use Prim.Native.Char.{code}
use Prim.Native.String.{String}
use Prim.Native.Nat.{ℕ, ◌+◌, ◌-◌}
use mathlib.Core.Bool.{Bool, ◌&&◌, ◌||◌}
use mathlib.Core.List.{List, [], ◌∷◌, ◌++◌, map, reverse}
use typeorm_procedure_kit.Common.Tests.{if◌then◌else◌, leb, nat_beq}
use typeorm_procedure_kit.Common.Equality.{Eq, list_beq, list_beq_iff, nat_eq}

abbrev pub Text : Type 0
Text = List ℕ

instance abbrev pub text_eq : Eq Text
text_eq = record { beq = list_beq; beq_iff = list_beq_iff }

-- The code units of a literal whose characters are all below U+10000.
abbrev pub codes : String → Text
codes String.[] = []
codes (String.◌∷◌ c s) = code c ∷ codes s

abbrev pub between : ℕ → ℕ → ℕ → Bool
between lo hi c = leb lo c && leb c hi

-- `toLowerCase` and `toUpperCase` on the letters of ASCII; other code units stay.
unfoldable pub lower : ℕ → ℕ
lower c = if between b'A' b'Z' c then c + 32 else c

unfoldable pub upper : ℕ → ℕ
upper c = if between b'a' b'z' c then c - 32 else c

unfoldable pub to_lower_case : Text → Text
unfolding lower
to_lower_case = map lower

unfoldable pub to_upper_case : Text → Text
unfolding upper
to_upper_case = map upper

-- WhiteSpace and LineTerminator of ECMAScript, what `trim` strips and `\s` matches
unfoldable pub is_space : ℕ → Bool
is_space c =
    between 9 13 c
    || nat_beq c 32
    || nat_beq c 0xa0
    || nat_beq c 0x1680
    || between 0x2000 0x200a c
    || between 0x2028 0x2029 c
    || nat_beq c 0x202f
    || nat_beq c 0x205f
    || nat_beq c 0x3000
    || nat_beq c 0xfeff

unfoldable pub trim_start : Text → Text
unfolding is_space
trim_start [] = []
trim_start (c ∷ s) = if is_space c then trim_start s else c ∷ s

unfoldable pub trim : Text → Text
unfolding trim_start
trim s = reverse (trim_start (reverse (trim_start s)))

-- split(separator) for a separator of one code unit
unfoldable pub split_from : Text → ℕ → Text → List Text
split_from cur sep [] = reverse cur ∷ []
split_from cur sep (c ∷ s) =
    let closed = reverse cur ∷ split_from [] sep s in
    let longer = split_from (c ∷ cur) sep s in if nat_beq c sep then closed else longer

unfoldable pub split : ℕ → Text → List Text
unfolding split_from
split sep s = split_from [] sep s

-- join(separator)
unfoldable pub join : Text → List Text → Text
join sep [] = []
join sep (s ∷ []) = s
join sep (s ∷ t ∷ more) = s ++ sep ++ join sep (t ∷ more)
