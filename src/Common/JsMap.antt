-- ===== src/Common/JsMap.antt =====
-- A JavaScript `Map` (and the plain objects used as maps): an association list in insertion order.
use typeorm_procedure_kit.Common.Tests.{if◌then◌else◌, is_some, Bool-cases}
use typeorm_procedure_kit.Common.Lists.{length}
use typeorm_procedure_kit.Common.Equality.{Eq}
use Prim.Native.Nat.{◌+◌}
use mathlib.Core.Path.{◌≡◌, refl}
use mathlib.Core.Logic.{◌≢◌, ◌⊎◌, inl, inr}
use mathlib.Core.Bool.{Bool, false, ◌||◌}
use mathlib.Core.Option.{Option, none, some}
use mathlib.Core.List.{List, [], ◌∷◌}
use native.Mathlib.Omega.{arith}

module _ {ℓ κ} {K : Type ℓ} {V : Type κ} ⦃e : Eq K⦄ where
  unfoldable pub get : List (K × V) → K → Option V
  get [] k = none
  get ((j, v) ∷ m) k = if e.beq j k then some v else get m k

  unfoldable pub has : List (K × V) → K → Bool
  has [] k = false
  has ((j, v) ∷ m) k = e.beq j k || has m k

  -- A new key goes to the end; a key that is there keeps its place.
  unfoldable pub put : List (K × V) → K → V → List (K × V)
  put [] k v = (k, v) ∷ []
  put ((j, w) ∷ m) k v = if e.beq j k then (j, v) ∷ m else (j, w) ∷ put m k v

  unfoldable pub delete : List (K × V) → K → List (K × V)
  delete [] k = []
  delete ((j, w) ∷ m) k = if e.beq j k then m else (j, w) ∷ delete m k

  unfoldable pub keys : List (K × V) → List K
  keys [] = []
  keys ((j, v) ∷ m) = j ∷ keys m

  -- no key stands twice
  abbrev pub IsUnique : List (K × V) → Type 0
  IsUnique [] = Unit
  IsUnique ((j, v) ∷ m) = (has m j ≡ false) × IsUnique m

  pub get-put :
      (m : List (K × V)) (k : K) (v : V) (j : K)
      → get (put m k v) j ≡ (if e.beq k j then some v else get m j)
  unfolding get put
  get-put [] k v j = refl
  get-put ((i, w) ∷ m) k v j =
      ground (arith, e.beq_iff k j, e.beq_iff i k, e.beq_iff i j, get-put m k v j)

  pub has-eq-get : (m : List (K × V)) (k : K) → has m k ≡ is_some (get m k)
  unfolding has get
  has-eq-get [] k = refl
  has-eq-get ((j, v) ∷ m) k = ground (arith, has-eq-get m k)

  pub has-put :
      (m : List (K × V)) (k : K) (v : V) (j : K) → has (put m k v) j ≡ (e.beq k j || has m j)
  unfolding has put
  has-put [] k v j = ground arith
  has-put ((i, w) ∷ m) k v j =
      ground (arith, e.beq_iff k j, e.beq_iff i k, e.beq_iff i j, has-put m k v j)

  pub length-put :
      (m : List (K × V)) (k : K) (v : V)
      → length (put m k v) ≡ (if has m k then length m else length m + 1)
  unfolding has put
  length-put [] k v = omega arith
  length-put ((j, w) ∷ m) k v = ground (arith, length-put m k v)

  pub length-delete :
      (m : List (K × V)) (k : K)
      → length m ≡ (if has m k then length (delete m k) + 1 else length (delete m k))
  unfolding has delete
  length-delete [] k = refl
  length-delete ((j, w) ∷ m) k = ground (arith, length-delete m k)

  pub has-delete_of_false :
      (m : List (K × V)) (k j : K) → has m j ≡ false → has (delete m k) j ≡ false
  unfolding has delete
  has-delete_of_false [] k j h = refl
  has-delete_of_false ((i, w) ∷ m) k j h = ground (arith, has-delete_of_false m k j)

  pub put-IsUnique : (m : List (K × V)) (k : K) (v : V) → IsUnique m → IsUnique (put m k v)
  unfolding has put
  put-IsUnique [] k v h = (refl, tt)
  put-IsUnique ((j, w) ∷ m) k v (fresh, h) =
      ground (arith, has-put m k v j, put-IsUnique m k v h, e.beq_iff k j, e.beq_iff j k)

  pub delete-IsUnique : (m : List (K × V)) (k : K) → IsUnique m → IsUnique (delete m k)
  unfolding has delete
  delete-IsUnique [] k h = tt
  delete-IsUnique ((j, w) ∷ m) k (fresh, h) =
      ground (arith, has-delete_of_false m k j fresh, delete-IsUnique m k h)

  pub get-delete :
      (m : List (K × V)) (k j : K)
      → IsUnique m
      → get (delete m k) j ≡ (if e.beq k j then none else get m j)
  unfolding get has delete
  get-delete [] k j h = ground arith
  get-delete ((i, w) ∷ m) k j (fresh, h) =
      ground
        (arith, e.beq_iff k j, e.beq_iff i k, e.beq_iff i j, get-delete m k j h, has-eq-get m i)

  pub get-put-same : (m : List (K × V)) (k : K) (v : V) → get (put m k v) k ≡ some v
  get-put-same m k v = ground (arith, get-put m k v k, e.beq_iff k k)

  pub get-put-other :
      (m : List (K × V)) (k : K) (v : V) (j : K) → k ≢ j → get (put m k v) j ≡ get m j
  get-put-other m k v j h = ground (arith, get-put m k v j, e.beq_iff k j)

  -- what a map holds behind `put` is the new value or was there before
  pub get-put-cases :
      (m : List (K × V)) (k : K) (v : V) (j : K) {w : V}
      → get (put m k v) j ≡ some w
      → ((k ≡ j) × (v ≡ w)) ⊎ ((k ≢ j) × (get m j ≡ some w))
  get-put-cases m k v j h = elim (Bool-cases (e.beq k j)) [
    | inl yes' ↦ let same = (e.beq_iff k j).0 yes' in inl (same, ground (arith, get-put m k v j))
    | inr no' ↦ inr (λ q. ground (arith, e.beq_iff k j), ground (arith, get-put m k v j))
  ]

  pub has-delete :
      (m : List (K × V)) (k j : K)
      → IsUnique m
      → has (delete m k) j ≡ (if e.beq k j then false else has m j)
  has-delete m k j h = ground (arith, get-delete m k j h, has-eq-get (delete m k) j, has-eq-get m j)

  pub get-put-at : (m : List (K × V)) {k : K} (v : V) {j : K} → k ≡ j → get (put m k v) j ≡ some v
  get-put-at m {k} v {j} h = ground (arith, get-put m k v j, e.beq_iff k j)
