-- ===== src/Portal.antt =====
-- src/adapters/postgres/postgre-portal-name.ts: which portal names are used and how they are quoted.
-- `randomUUID` is an argument; the names of the arguments, which only messages show, are left out.
pub mod Quoting
pub mod Unnamed
pub mod Safety
mod Tests
use typeorm_procedure_kit.Common.{
  ℕ, Bool, true, false, not, ◌||◌, List, [], ◌∷◌, ◌++◌, nat_beq, ltb, length, if◌then◌else◌, any,
  map, Result, ok, err, ◌>>=◌, ◌>>◌, guard,
}
use typeorm_procedure_kit.Common.Text.{Text, codes, trim, between}
use typeorm_procedure_kit.Regex.{Regex, one, seq, star, plus, opt, chr, lit_i, space, matches}
use typeorm_procedure_kit.Value.{Value, undefined, null, string}
use typeorm_procedure_kit.Tracker.Utf8.{utf8, code_points}
use typeorm_procedure_kit.Identifier.{wrap}

-- ServerError (`no_portal_name`, `unsafe_portal`), TypeError (`not_a_string`), PostgreUnnamedPortalError
pub data PortalError : Type 0 where
  no_portal_name unsafe_portal not_a_string : PortalError
  unnamed_portal : Text → PortalError

abbrev pub max_name_bytes : ℕ
max_name_bytes = 63

-- /^<\s*unnamed\s+portal(?:\s[^>]*)?>$/iu
abbrev pub unnamed_portal_pattern : Regex
unnamed_portal_pattern = seq (chr b'<') (
    seq (star space) (
      seq (lit_i (codes "unnamed")) (
        seq (plus space) (
          seq (lit_i (codes "portal"))
            (seq (opt (seq space (star (one (λ c. not (nat_beq c b'>')))))) (chr b'>'))))))

-- \p{Cc}
abbrev pub is_control : ℕ → Bool
is_control c = between 0 0x1f c || between 0x7f 0x9f c

-- Buffer.byteLength(value, 'utf8')
abbrev pub byte_length : Text → ℕ
byte_length s = length (utf8 (code_points s))

unfoldable pub assert_common_safety : Text → Result PortalError (Unit {0})
assert_common_safety value =
    guard (not (any is_control value || ltb max_name_bytes (byte_length value))) unsafe_portal

unfoldable pub assert_safe : Text → Result PortalError Text
unfolding assert_common_safety
assert_safe value = do
  assert_common_safety value
  guard (not (matches unnamed_portal_pattern (trim value))) unsafe_portal
  ok value

abbrev pub is_blank : Text → Bool
is_blank s = nat_beq (length (trim s)) 0

-- `tpk_${randomUUID().replaceAll('-', '_')}`
unfoldable pub generated_name : Text → Text
generated_name uuid = codes "tpk_" ++ map (λ c. if nat_beq c b'-' then b'_' else c) uuid

unfoldable pub normalize_input : Text → Value → Result PortalError Text
unfolding assert_safe generated_name
normalize_input uuid null = ok (generated_name uuid)
normalize_input uuid undefined = ok (generated_name uuid)
normalize_input uuid (string s) = if is_blank s then ok (generated_name uuid) else assert_safe s
normalize_input uuid _ = err not_a_string

unfoldable pub assert_returned : Value → Result PortalError Text
unfolding assert_common_safety
assert_returned (string []) = err no_portal_name
assert_returned (string (c ∷ s)) = do
  assert_common_safety (c ∷ s)
  guard (not (matches unnamed_portal_pattern (trim (c ∷ s)))) (unnamed_portal (c ∷ s))
  ok (c ∷ s)
assert_returned _ = err no_portal_name

-- replaceAll('"', '""')
unfoldable pub double_quotes : Text → Text
double_quotes [] = []
double_quotes (c ∷ s) = if nat_beq c b'"' then c ∷ c ∷ double_quotes s else c ∷ double_quotes s

unfoldable pub quote : Text → Text
unfolding double_quotes
quote value = wrap (double_quotes value)
