-- ===== src/Portal/Safety.antt =====
-- src/adapters/postgres/postgre-portal-name.ts: the portal names that pass the policy.
use typeorm_procedure_kit.Common.{
  ℕ, ◌≤◌, ◌≡◌, ◌≢◌, ◌↔◌, ◌⊎◌, refl, arith, true, false, inl, inr, Bool-cases, [], ◌∷◌, All, any,
  length, ok, err,
}
use typeorm_procedure_kit.Common.Text.{Text, trim}
use typeorm_procedure_kit.Value.{string}
use typeorm_procedure_kit.Tracker.Utf8.{utf8, code_points}
use typeorm_procedure_kit.Portal.{
  unsafe_portal, unnamed_portal, is_control, assert_common_safety, assert_returned,
}
use typeorm_procedure_kit.Portal.Unnamed.{IsUnnamed, matches-IsUnnamed}

-- U+0000 to U+001F and U+007F to U+009F
abbrev pub IsControl : ℕ → Type 0
IsControl c = (c ≤ 31) ⊎ ((127 ≤ c) × (c ≤ 159))

-- no control character, and at most 63 bytes in UTF-8
abbrev pub IsCommonSafe : Text → Type 0
IsCommonSafe s = All (λ c. ¬ IsControl c) s × (length (utf8 (code_points s)) ≤ 63)

IsControl-iff : (c : ℕ) → (is_control c ≡ true) ↔ IsControl c
IsControl-iff c = ground arith

no-IsControl : (s : Text) → (any is_control s ≡ false) ↔ All (λ c. ¬ IsControl c) s
no-IsControl [] = ((λ h. tt), (λ h. refl))
no-IsControl (c ∷ s) =
    let rest = no-IsControl s in
    (
      (λ h. ((λ control. ground arith), rest.0 (ground arith))),
      (λ (free, h).
          let tail = rest.1 h in
          elim (Bool-cases (is_control c)) [
            | inl yes' ↦ absurd (free ((IsControl-iff c).0 yes'))
            | inr no' ↦ ground (arith, tail)
          ]),
    )

common_safety_cases :
    (s : Text) → (assert_common_safety s ≡ ok tt) ⊎ (assert_common_safety s ≡ err unsafe_portal)
unfolding assert_common_safety
common_safety_cases s = ground arith

common_safety : (s : Text) → (assert_common_safety s ≡ ok tt) ↔ IsCommonSafe s
unfolding assert_common_safety
common_safety s = let free = no-IsControl s in ground (arith, free)

-- A returned name is accepted, unchanged, exactly if it is not empty, has no control character and at most
-- 63 bytes in UTF-8, and is not, between its blanks, the name of an unnamed portal.
pub assert_returned-ok_iff :
    (s name : Text)
    → (assert_returned (string s) ≡ ok name)
      ↔ ((name ≡ s) × (s ≢ []) × IsCommonSafe s × (¬ IsUnnamed (trim s)))
unfolding assert_returned
assert_returned-ok_iff [] name = (λ e. cc, λ h. absurd (h.1 refl))
assert_returned-ok_iff (c ∷ s) name =
    let unnamed = matches-IsUnnamed (trim (c ∷ s)) in
    let safe = common_safety (c ∷ s) in ground (arith, safe, unnamed)

-- A name that is refused as unnamed is the returned one, and still safe to quote and close.
pub assert_returned-IsUnnamed_iff :
    (s name : Text)
    → (assert_returned (string s) ≡ err (unnamed_portal name))
      ↔ ((name ≡ s) × (s ≢ []) × IsCommonSafe s × IsUnnamed (trim s))
unfolding assert_returned
assert_returned-IsUnnamed_iff [] name = (λ e. cc, λ h. absurd (h.1 refl))
assert_returned-IsUnnamed_iff (c ∷ s) name =
    let unnamed = matches-IsUnnamed (trim (c ∷ s)) in
    let safe = common_safety (c ∷ s) in ground (arith, safe, unnamed)
