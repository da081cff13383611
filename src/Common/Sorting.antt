-- ===== src/Common/Sorting.antt =====
-- `Array.prototype.sort` by a numeric key, which is stable: elements with one key keep their order.
use typeorm_procedure_kit.Common.Tests.{leb, nat_beq, Bool-cases, if◌then◌else◌}
use typeorm_procedure_kit.Common.Lists.{All}
use Prim.Native.Nat.{ℕ, ◌≤◌}
use mathlib.Core.Path.{◌≡◌, ◌∙◌, refl, ap}
use mathlib.Core.List.{List, [], ◌∷◌}
use mathlib.Core.Logic.{inl, inr}
use native.Mathlib.Omega.{arith}

module _ {ℓ} {A : Type ℓ} (key : A → ℕ) where
  unfoldable pub insert_by : A → List A → List A
  insert_by x [] = x ∷ []
  insert_by x (y ∷ ys) =
      let rest = insert_by x ys in if leb (key x) (key y) then x ∷ y ∷ ys else y ∷ rest

  unfoldable pub sort_by : List A → List A
  unfolding insert_by
  sort_by [] = []
  sort_by (x ∷ xs) = insert_by x (sort_by xs)

  -- each key is at most every later one
  abbrev pub IsSorted : List A → Type 0
  IsSorted [] = Unit
  IsSorted (x ∷ xs) = All (λ y. key x ≤ key y) xs × IsSorted xs

  below-All :
      (n : ℕ) (y : A) (ys : List A)
      → n ≤ key y
      → All (λ z. key y ≤ key z) ys
      → All (λ z. n ≤ key z) ys
  below-All n y [] h hs = tt
  below-All n y (z ∷ zs) h (g, hs) = (omega arith, below-All n y zs h hs)

  insert_by-All :
      (n : ℕ) (x : A) (ys : List A)
      → n ≤ key x
      → All (λ z. n ≤ key z) ys
      → All (λ z. n ≤ key z) (insert_by x ys)
  unfolding insert_by
  insert_by-All n x [] h hs = (h, tt)
  insert_by-All n x (y ∷ ys) h (g, hs) = ground (arith, insert_by-All n x ys h hs)

  insert_by-IsSorted : (x : A) (ys : List A) → IsSorted ys → IsSorted (insert_by x ys)
  unfolding insert_by
  insert_by-IsSorted x [] h = (tt, tt)
  insert_by-IsSorted x (y ∷ ys) (above, h) = elim (Bool-cases (leb (key x) (key y))) [
    | inl yes' ↦
        let less : key x ≤ key y = ground arith in
        rw yes' ((less, below-All (key x) y ys less above), (above, h))
    | inr no' ↦ rw no' (insert_by-All (key y) x ys (ground arith) above, insert_by-IsSorted x ys h)
  ]

  pub sort_by-IsSorted : (xs : List A) → IsSorted (sort_by xs)
  unfolding sort_by
  sort_by-IsSorted [] = tt
  sort_by-IsSorted (x ∷ xs) = insert_by-IsSorted x (sort_by xs) (sort_by-IsSorted xs)

  -- those with the key `k`
  abbrev pub with_key : ℕ → List A → List A
  with_key k [] = []
  with_key k (x ∷ xs) = if nat_beq (key x) k then x ∷ with_key k xs else with_key k xs

  abbrev with_key-cons : ℕ → A → List A → List A
  with_key-cons k x ys = if nat_beq (key x) k then x ∷ ys else ys

  with_key-insert_by :
      (k : ℕ) (x : A) (ys : List A) → with_key k (insert_by x ys) ≡ with_key k (x ∷ ys)
  unfolding insert_by
  with_key-insert_by k x [] = refl
  with_key-insert_by k x (y ∷ ys) = ground (arith, with_key-insert_by k x ys)

  pub with_key-sort_by : (k : ℕ) (xs : List A) → with_key k (sort_by xs) ≡ with_key k xs
  unfolding sort_by
  with_key-sort_by k [] = refl
  with_key-sort_by k (x ∷ xs) =
      with_key-insert_by k x (sort_by xs) ∙ ap (with_key-cons k x) (with_key-sort_by k xs)
