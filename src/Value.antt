-- ===== src/Value.antt =====
-- The JavaScript values that reach the adapters, and the objects that they refer to.
use typeorm_procedure_kit.Common.{ℕ, ◌-◌, ◌^◌, Bool, Option, none, some, List, [], leb, get_elem?}
use typeorm_procedure_kit.Common.Int.{ℤ, magnitude}
use typeorm_procedure_kit.Common.Text.{Text}

-- An integer of magnitude below 10 ^ 21 is an `int`; any other number is `float` with its `String()`.
pub data Number : Type 0 where
  int : ℤ → Number
  float : Text → Number

-- A date carries its ISO text, or `none` when it is invalid; an object or array is an address.
pub data Value : Type 0 where
  undefined null symbol callable : Value
  boolean : Bool → Value
  number : Number → Value
  bigint : ℤ → Value
  string : Text → Value
  buffer : List ℕ → Value
  date : Option Text → Value
  ref : ℕ → Value

-- An enumerable property as `for … in` meets it: own, or inherited from the prototype.
pub record Property : Type 0 where
  pub key : Text
  pub is_own : Bool
  pub value : Value

abbrev pub Heap : Type 0
Heap = List (List Property)

abbrev pub properties : Heap → ℕ → List Property
properties heap a = elim (get_elem? heap a) [ none ↦ [] | some ps ↦ ps ]

abbrev pub max_safe_integer : ℕ
max_safe_integer = 2 ^ 53 - 1

-- Number.isSafeInteger on an integer
abbrev pub is_safe_integer : ℤ → Bool
is_safe_integer z = leb (magnitude z) max_safe_integer
