-- ===== src/Metadata/Structured.antt =====
-- src/core/procedure-list-base.ts: the fields of accepted structured types.
use typeorm_procedure_kit.Common.{
  ℕ, ◌≡◌, ◌≢◌, ◌<◌, ◌+◌, ◌∙◌, ◌≤◌, refl, sym, arith, true, false, inl, inr, Bool-cases, List, [],
  ◌∷◌, All, contains, nat_eq, leb, length, ok, guard, guard-true, >>=-eq-ok,
}
use typeorm_procedure_kit.Common.Text.{Text, text_eq, to_lower_case}
use typeorm_procedure_kit.Value.{Number}
use typeorm_procedure_kit.Metadata.{
  Jsons, StructuredField, has_unique_fields, insert_field, sort_fields, decode_fields,
  checked_fields, count_items, no_items, item, decode_structured_field,
}

-- different names, whatever the case of their letters, and different orders
abbrev pub Apart : StructuredField → StructuredField → Type 0
Apart f g = (to_lower_case f.name ≢ to_lower_case g.name) × (f.order ≢ g.order)

abbrev pub PairwiseApart : List StructuredField → Type 0
PairwiseApart [] = Unit
PairwiseApart (f ∷ fs) = All (λ g. Apart f g) fs × PairwiseApart fs

abbrev pub Ascending : List StructuredField → Type 0
Ascending [] = Unit
Ascending (f ∷ fs) = All (λ g. f.order < g.order) fs × Ascending fs

abbrev Outside : List Text → List ℕ → StructuredField → Type 0
Outside names orders f =
    (contains (to_lower_case f.name) names ≡ false) × (contains f.order orders ≡ false)

Outside-cons :
    (names : List Text) (orders : List ℕ) (f : StructuredField) (fs : List StructuredField)
    → All (λ g. Outside (to_lower_case f.name ∷ names) (f.order ∷ orders) g) fs
    → All (λ g. Apart f g) fs × All (λ g. Outside names orders g) fs
Outside-cons names orders f [] h = (tt, tt)
Outside-cons names orders f (g ∷ gs) ((n, o), hs) =
    let (apart, outside) = Outside-cons names orders f gs hs in
    let no_name : to_lower_case f.name ≢ to_lower_case g.name =
      ground (arith, text_eq.beq_iff (to_lower_case f.name) (to_lower_case g.name)) in
    let no_order : f.order ≢ g.order = ground arith in
    (((no_name, no_order), apart), ((ground arith, ground arith), outside))

has_unique_fields-PairwiseApart :
    (names : List Text) (orders : List ℕ) (fs : List StructuredField)
    → has_unique_fields names orders fs ≡ true
    → All (λ g. Outside names orders g) fs × PairwiseApart fs
unfolding has_unique_fields
has_unique_fields-PairwiseApart names orders [] h = (tt, tt)
has_unique_fields-PairwiseApart names orders (f ∷ fs) h =
    let parts : (contains (to_lower_case f.name) names ≡ false)
        × (contains f.order orders ≡ false)
        × (has_unique_fields (to_lower_case f.name ∷ names) (f.order ∷ orders) fs ≡ true) =
      ground arith in
    let (outside, apart) =
      has_unique_fields-PairwiseApart (to_lower_case f.name ∷ names) (f.order ∷ orders) fs
        parts.2 in
    let (mine, others) = Outside-cons names orders f fs outside in
    (((parts.0, parts.1), others), (mine, apart))

module _ (P : StructuredField → Type 0) where
  insert_field-All :
      (f : StructuredField) (gs : List StructuredField) → P f → All P gs → All P (insert_field f gs)
  unfolding insert_field
  insert_field-All f [] p h = (p, tt)
  insert_field-All f (g ∷ gs) p (q, h) = elim (Bool-cases (leb f.order g.order)) [
    | inl yes' ↦ rw yes' (p, (q, h))
    | inr no' ↦ rw no' (q, insert_field-All f gs p h)
  ]

  sort_fields-All : (fs : List StructuredField) → All P fs → All P (sort_fields fs)
  unfolding sort_fields
  sort_fields-All [] h = tt
  sort_fields-All (f ∷ fs) (p, h) = insert_field-All f (sort_fields fs) p (sort_fields-All fs h)

above-All :
    (n : ℕ) (g : StructuredField) (gs : List StructuredField)
    → n < g.order
    → All (λ x. g.order < x.order) gs
    → All (λ x. n < x.order) gs
above-All n g [] h hs = tt
above-All n g (x ∷ gs) h (y, hs) = (omega arith, above-All n g gs h hs)

Apart-sym :
    (f : StructuredField) (gs : List StructuredField)
    → All (λ g. Apart f g) gs
    → All (λ g. Apart g f) gs
Apart-sym f [] h = tt
Apart-sym f (g ∷ gs) ((n, o), h) = ((λ e. n (sym e), λ e. o (sym e)), Apart-sym f gs h)

insert_field-PairwiseApart :
    (f : StructuredField) (gs : List StructuredField)
    → All (λ g. Apart f g) gs
    → PairwiseApart gs
    → PairwiseApart (insert_field f gs)
unfolding insert_field
insert_field-PairwiseApart f [] h p = (tt, tt)
insert_field-PairwiseApart f (g ∷ gs) ((n, o), h) (q, p) = elim (Bool-cases (leb f.order g.order)) [
  | inl yes' ↦ rw yes' (((n, o), h), (q, p))
  | inr no' ↦ rw no' (
    insert_field-All (λ x. Apart g x) f gs (λ e. n (sym e), λ e. o (sym e)) q,
    insert_field-PairwiseApart f gs h p,
  )
]

insert_field-Ascending :
    (f : StructuredField) (gs : List StructuredField)
    → All (λ g. Apart f g) gs
    → Ascending gs
    → Ascending (insert_field f gs)
unfolding insert_field
insert_field-Ascending f [] h a = (tt, tt)
insert_field-Ascending f (g ∷ gs) ((n, o), h) (above, a) = elim (Bool-cases (leb f.order g.order)) [
  | inl yes' ↦
      let less : f.order < g.order = ground arith in
      rw yes' ((less, above-All f.order g gs less above), (above, a))
  | inr no' ↦ rw no' (
    insert_field-All (λ x. g.order < x.order) f gs (ground arith) above,
    insert_field-Ascending f gs h a,
  )
]

sort_fields-Ascending :
    (fs : List StructuredField)
    → PairwiseApart fs
    → Ascending (sort_fields fs) × PairwiseApart (sort_fields fs)
unfolding sort_fields
sort_fields-Ascending [] h = (tt, tt)
sort_fields-Ascending (f ∷ fs) (mine, h) =
    let (a, p) = sort_fields-Ascending fs h in
    let apart = sort_fields-All (λ g. Apart f g) fs mine in
    (
      insert_field-Ascending f (sort_fields fs) apart a,
      insert_field-PairwiseApart f (sort_fields fs) apart p,
    )

length-insert_field :
    (f : StructuredField) (gs : List StructuredField) → length (insert_field f gs) ≡ length gs + 1
unfolding insert_field
length-insert_field f [] = refl
length-insert_field f (g ∷ gs) = ground (arith, length-insert_field f gs)

length-sort_fields : (fs : List StructuredField) → length (sort_fields fs) ≡ length fs
unfolding sort_fields
length-sort_fields [] = refl
length-sort_fields (f ∷ fs) =
    grind (arith, length-insert_field f (sort_fields fs), length-sort_fields fs)

bounded : (n m k : ℕ) → n ≡ m → leb m k ≡ true → n ≤ k
bounded n m k e h = ground arith

module _ (to_number : Text → Number) (max_metadata_rows : ℕ) where
  length-decode_fields :
      (items : Jsons) (fs : List StructuredField)
      → decode_fields to_number max_metadata_rows items ≡ ok fs
      → length fs ≡ count_items items
  unfolding decode_fields count_items
  length-decode_fields no_items fs h = ground arith
  length-decode_fields (item v vs) fs h =
      let (f, first, rest) =
        >>=-eq-ok (decode_structured_field to_number max_metadata_rows v) _ h in
      let (gs, others, final) = >>=-eq-ok (decode_fields to_number max_metadata_rows vs) _ rest in
      let same : f ∷ gs ≡ fs = cc in
      rw (sym same) (grind (arith, length-decode_fields vs gs others))

  -- The accepted fields of a structured type are as many as its items, at most the row limit, and stand
  -- in ascending order; no two have the same order, or the same name up to the case of its letters.
  pub checked_fields-Ascending :
      (items : Jsons) (fs : List StructuredField)
      → checked_fields to_number max_metadata_rows items ≡ ok fs
      → Ascending fs
        × PairwiseApart fs
        × (length fs ≡ count_items items)
        × (length fs ≤ max_metadata_rows)
  unfolding checked_fields
  checked_fields-Ascending items fs h =
      let (u, few, rest) = >>=-eq-ok (guard (leb (count_items items) max_metadata_rows) _) _ h in
      let (ds, decoded, more) =
        >>=-eq-ok (decode_fields to_number max_metadata_rows items) _ rest in
      let (v, unique, final) = >>=-eq-ok (guard (has_unique_fields [] [] ds) _) _ more in
      let same : sort_fields ds ≡ fs = cc in
      let small = guard-true (leb (count_items items) max_metadata_rows) _ u few in
      let (outside, apart) =
        has_unique_fields-PairwiseApart [] [] ds
          (guard-true (has_unique_fields [] [] ds) _ v unique) in
      let (a, p) = sort_fields-Ascending ds apart in
      let count : length (sort_fields ds) ≡ count_items items =
        length-sort_fields ds ∙ length-decode_fields items ds decoded in
      rw (sym same) (a, p, count, bounded _ (count_items items) max_metadata_rows count small)
