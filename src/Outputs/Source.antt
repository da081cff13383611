-- ===== src/Outputs/Source.antt =====
-- src/adapters/postgres/postgre-result-materializer.ts: the keys of a composite output and the values that its
-- fields take from it, described without the index of the keys.
use typeorm_procedure_kit.Common.{
  ◌≡◌, ◌≢◌, ◌↔◌, ◌⊎◌, refl, sym, ap, ◌∙◌, arith, inl, inr, Bool, true, false, Option, none, some,
  is_some, List, [], ◌∷◌, contains, if◌then◌else◌, Bool-cases, Option-cases, some-inj,
}
use mathlib.Core.Path.{subst}
use typeorm_procedure_kit.Common.JsMap.{get, has, put, get-put, has-eq-get}
use typeorm_procedure_kit.Common.Text.{Text, text_eq, to_lower_case}
use typeorm_procedure_kit.Value.{Value, undefined, null}
use typeorm_procedure_kit.Metadata.{StructuredField}
use typeorm_procedure_kit.Materializer.{index_output_keys}
use typeorm_procedure_kit.Payload.{Properties, or_else}
use typeorm_procedure_kit.Outputs.{unknown_key, lowered_names, source_value}

-- a key is the name of a field up to case
abbrev pub NamesField : Text → List StructuredField → Type 0
NamesField key [] = ⊥
NamesField key (f ∷ fields) = (to_lower_case f.name ≡ to_lower_case key) ⊎ NamesField key fields

abbrev pub AllNamed : List StructuredField → Properties → Type 0
AllNamed fields [] = Unit
AllNamed fields ((key, value) ∷ rest) = NamesField key fields × AllNamed fields rest

-- the value at the first key that is the name up to case, or null
pub data IsSource (name : Text) : Properties → Value → Type 0 where
  source_none : IsSource name [] null
  source_here :
      {key : Text} {value : Value} {rest : Properties}
      → to_lower_case key ≡ to_lower_case name
      → IsSource name ((key, value) ∷ rest) value
  source_later :
      {key : Text} {value : Value} {rest : Properties} {v : Value}
      → to_lower_case key ≢ to_lower_case name
      → IsSource name rest v
      → IsSource name ((key, value) ∷ rest) v

contains-NamesField :
    (key : Text) (fields : List StructuredField)
    → (contains (to_lower_case key) (lowered_names fields) ≡ true) ↔ NamesField key fields
unfolding lowered_names
contains-NamesField key [] = ((λ h. cc), (λ h. absurd h))
contains-NamesField key (f ∷ fields) =
    let rest = contains-NamesField key fields in
    let same = text_eq.beq_iff (to_lower_case f.name) (to_lower_case key) in
    ground (arith, rest, same)

pub unknown_key-AllNamed :
    (fields : List StructuredField) (value : Properties)
    → (unknown_key (lowered_names fields) value ≡ none) ↔ AllNamed fields value
unfolding unknown_key
unknown_key-AllNamed fields [] = ((λ h. tt), (λ h. refl))
unknown_key-AllNamed fields ((key, v) ∷ rest) =
    let later = unknown_key-AllNamed fields rest in
    let here = contains-NamesField key fields in
    elim (Bool-cases (contains (to_lower_case key) (lowered_names fields))) [
      | inl yes' ↦ rw yes' ((λ h. (here.0 yes', later.0 h)), (λ h. later.1 h.1))
      | inr no' ↦
          rw no'
            ((λ h. cc), (λ h. let bad : ◌≡◌ {A = Bool} false true = sym no' ∙ here.1 h.0 in cc))
    ]

-- the first key that is `name` in lower case, and its value
first_key : Text → Properties → Option Text
first_key name [] = none
first_key name ((key, v) ∷ rest) =
    let later = first_key name rest in
    if text_eq.beq (to_lower_case key) name then some key else later

abbrev or_first : Option Text → Option Text → Option Text
or_first (some k) o = some k
or_first none o = o

-- a key that is known already makes no difference, and one that is new does at its own name
known_first :
    (keys : List (Text × Text)) (n name key : Text) (later : Option Text)
    → has keys n ≡ true
    → or_first (get keys name) later
      ≡ or_first (get keys name) (if text_eq.beq n name then some key else later)
known_first keys n name key later there = elim (Bool-cases (text_eq.beq n name)) [
  | inl yes' ↦
      let same : n ≡ name = (text_eq.beq_iff n name).0 yes' in
      let here = ap (has keys) (sym same) ∙ there in
      elim (Option-cases (get keys name)) [
        | inl e ↦ ground (arith, has-eq-get keys name)
        | inr (k, e) ↦ rw e refl
      ]
  | inr no' ↦ rw no' refl
]

new_first :
    (keys : List (Text × Text)) (n name key : Text) (later : Option Text)
    → has keys n ≡ false
    → or_first (get (put keys n key) name) later
      ≡ or_first (get keys name) (if text_eq.beq n name then some key else later)
new_first keys n name key later free = elim (Bool-cases (text_eq.beq n name)) [
  | inl yes' ↦
      let same : n ≡ name = (text_eq.beq_iff n name).0 yes' in
      let here = sym (has-eq-get keys name) ∙ ap (has keys) (sym same) ∙ free in
      elim (Option-cases (get keys name)) [
        | inl e ↦ rw (get-put keys n key name, yes', e) refl
        | inr (k, e) ↦ let bad : true ≡ false = ap is_some (sym e) ∙ here in cc
      ]
  | inr no' ↦ rw (get-put keys n key name, no') refl
]

get-index_output_keys :
    (value : Properties) (keys : List (Text × Text)) (name : Text)
    → get (index_output_keys value keys) name ≡ or_first (get keys name) (first_key name value)
unfolding index_output_keys first_key
get-index_output_keys [] keys name = elim (Option-cases (get keys name)) [
  | inl e ↦ rw e refl
  | inr (k, e) ↦ rw e refl
]
get-index_output_keys ((key, v) ∷ rest) keys name =
    let normalized = to_lower_case key in
    let later = first_key name rest in
    elim (Bool-cases (has keys normalized)) [
      | inl yes' ↦
          rw yes'
            (get-index_output_keys rest keys name ∙ known_first keys normalized name key later yes')
      | inr no' ↦ rw no' (
          get-index_output_keys rest (put keys normalized key) name
          ∙ new_first keys normalized name key later no')
    ]

-- the value that the index of the keys leads to
abbrev indexed_value : Option Text → Properties → Value
indexed_value none value = null
indexed_value (some k) value = or_else (get value k) undefined

first_key-lower :
    (name : Text) (value : Properties) (k : Text)
    → first_key name value ≡ some k
    → to_lower_case k ≡ name
unfolding first_key
first_key-lower name [] k h = cc
first_key-lower name ((key, v) ∷ rest) k h =
    elim (Bool-cases (text_eq.beq (to_lower_case key) name)) [
      | inl yes' ↦
          let same : key ≡ k = some-inj (rw (first_key, yes') at h) in
          ap to_lower_case (sym same) ∙ (text_eq.beq_iff (to_lower_case key) name).0 yes'
      | inr no' ↦ first_key-lower name rest k (rw (first_key, no') at h)
    ]

-- an entry whose key is another name is passed over
passed :
    (name key : Text) (v : Value) (rest : Properties)
    → to_lower_case key ≢ to_lower_case name
    → (o : Option Text) → first_key (to_lower_case name) rest ≡ o
    → indexed_value o rest ≡ indexed_value o ((key, v) ∷ rest)
unfolding get
passed name key v rest other none e = refl
passed name key v rest other (some k) e = elim (Bool-cases (text_eq.beq key k)) [
  | inl yes' ↦
      let same = ap to_lower_case ((text_eq.beq_iff key k).0 yes') in
      absurd (other (same ∙ first_key-lower (to_lower_case name) rest k e))
  | inr no' ↦ rw no' refl
]

indexed-IsSource :
    (name : Text) (value : Properties)
    → IsSource name value (indexed_value (first_key (to_lower_case name) value) value)
unfolding first_key get
indexed-IsSource name [] = source_none
indexed-IsSource name ((key, v) ∷ rest) =
    elim (Bool-cases (text_eq.beq (to_lower_case key) (to_lower_case name))) [
      | inl yes' ↦
          let same = (text_eq.beq_iff (to_lower_case key) (to_lower_case name)).0 yes' in
          rw (yes', (text_eq.beq_iff key key).1 refl) (source_here same)
      | inr no' ↦
          let other : to_lower_case key ≢ to_lower_case name =
            (λ e. ground (arith, text_eq.beq_iff (to_lower_case key) (to_lower_case name))) in
          rw no' (
            subst (IsSource name ((key, v) ∷ rest))
              (passed name key v rest other (first_key (to_lower_case name) rest) refl)
              (source_later other (indexed-IsSource name rest)))
    ]

source_value-indexed :
    (f : StructuredField) (value : Properties)
    → source_value f value
      ≡ indexed_value (get (index_output_keys value []) (to_lower_case f.name)) value
unfolding source_value
source_value-indexed f value =
    elim (Option-cases (get (index_output_keys value []) (to_lower_case f.name))) [
      | inl e ↦ rw (source_value, e) refl
      | inr (k, e) ↦ rw (source_value, e) refl
    ]

pub source_value-IsSource :
    (f : StructuredField) (value : Properties) → IsSource f.name value (source_value f value)
unfolding get
source_value-IsSource f value =
    let index = get-index_output_keys value [] (to_lower_case f.name) in
    let same = source_value-indexed f value ∙ ap (λ o. indexed_value o value) index in
    subst (IsSource f.name value) (sym same) (indexed-IsSource f.name value)

-- there is one such value
pub IsSource-same :
    {name : Text} {value : Properties} {v w : Value}
    → IsSource name value v
    → IsSource name value w
    → v ≡ w
IsSource-same source_none source_none = refl
IsSource-same (source_here e) (source_here e') = refl
IsSource-same (source_here e) (source_later other h) = absurd (other e)
IsSource-same (source_later other h) (source_here e) = absurd (other e)
IsSource-same (source_later other h) (source_later other' h') = IsSource-same h h'
