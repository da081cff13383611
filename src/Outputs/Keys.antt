-- ===== src/Outputs/Keys.antt =====
-- src/adapters/postgres/postgre-bindings.ts: the keys of composite inputs that the metadata accepts.
use typeorm_procedure_kit.Common.{
  ◌≡◌, ◌≢◌, sym, ap, ◌∙◌, arith, inl, inr, true, false, ◌||◌, List, [], ◌∷◌, contains, Bool-cases,
  Result, ok, >>=-eq-ok, ok-inj,
}
use typeorm_procedure_kit.Common.Text.{Text, text_eq}
use typeorm_procedure_kit.ErrorHandler.{Fault}
use typeorm_procedure_kit.Metadata.{StructuredField}
use typeorm_procedure_kit.Payload.{Properties, add_keys, field_keys, index_composite_input_keys}

add_keys-contains :
    (added keys result : List Text) (k : Text)
    → add_keys added keys ≡ ok result
    → contains k result ≡ (contains k added || contains k keys)
unfolding add_keys
add_keys-contains [] keys result k h = ap (contains k) (sym (ok-inj h))
add_keys-contains (key ∷ added) keys result k h = elim (Bool-cases (contains key keys)) [
  | inl yes' ↦ ground arith
  | inr no' ↦ ground (arith, add_keys-contains added (key ∷ keys) result k)
]

add_keys-new :
    (added keys result : List Text) (k : Text)
    → add_keys added keys ≡ ok result
    → contains k added ≡ true
    → contains k keys ≡ false
unfolding add_keys
add_keys-new [] keys result k h here = cc
add_keys-new (key ∷ added) keys result k h here = elim (Bool-cases (contains key keys)) [
  | inl yes' ↦ ground arith
  | inr no' ↦ ground (arith, add_keys-new added (key ∷ keys) result k, text_eq.beq_iff key k)
]

module _ (transform_column_name : Text → Text) (to_json : Properties → Result Fault Text) where
  -- a key that is neither a field's name nor its transformed name
  abbrev pub Avoids : Text → List StructuredField → Type 0
  Avoids k [] = Unit
  Avoids k (f ∷ fields) = (k ≢ f.name) × (k ≢ transform_column_name f.name) × Avoids k fields

  abbrev pub IsSeparate : List StructuredField → Type 0
  IsSeparate [] = Unit
  IsSeparate (f ∷ fields) =
      Avoids f.name fields × Avoids (transform_column_name f.name) fields × IsSeparate fields

  abbrev pub AllKnown : List Text → List StructuredField → Type 0
  AllKnown keys [] = Unit
  AllKnown keys (f ∷ fields) =
      (contains (transform_column_name f.name) keys ≡ true) × AllKnown keys fields

  field_keys-name :
      (f : StructuredField) → contains f.name (field_keys transform_column_name to_json f) ≡ true
  field_keys-name f = ground (arith, text_eq.beq_iff f.name f.name)

  field_keys-transformed :
      (f : StructuredField)
      → contains (transform_column_name f.name) (field_keys transform_column_name to_json f) ≡ true
  field_keys-transformed f = ground (
    arith,
    text_eq.beq_iff (transform_column_name f.name) (transform_column_name f.name),
    text_eq.beq_iff f.name (transform_column_name f.name),
  )

  -- a key that was accepted before stays, and no further field has it
  index_composite_input_keys-kept :
      (fields : List StructuredField) (keys result : List Text) (k : Text)
      → index_composite_input_keys transform_column_name to_json fields keys ≡ ok result
      → contains k keys ≡ true
      → (contains k result ≡ true) × Avoids k fields
  unfolding index_composite_input_keys
  index_composite_input_keys-kept [] keys result k h here =
      (ap (contains k) (sym (ok-inj h)) ∙ here, tt)
  index_composite_input_keys-kept (f ∷ fields) keys result k h here =
      let own = field_keys transform_column_name to_json f in
      let (added, first, rest) =
        >>=-eq-ok (add_keys own keys)
          (index_composite_input_keys transform_column_name to_json fields) h in
      let still : contains k added ≡ true =
        ground (arith, add_keys-contains own keys added k first) in
      let (there, avoids) = index_composite_input_keys-kept fields added result k rest still in
      (
        there,
        (
          (λ same. ground (
            arith,
            add_keys-new own keys added k first,
            ap (λ x. contains x own) same,
            field_keys-name f,
          )),
          (λ same. ground (
            arith,
            add_keys-new own keys added k first,
            ap (λ x. contains x own) same,
            field_keys-transformed f,
          )),
          avoids,
        ),
      )

  pub index_composite_input_keys-IsSeparate :
      (fields : List StructuredField) (keys result : List Text)
      → index_composite_input_keys transform_column_name to_json fields keys ≡ ok result
      → IsSeparate fields × AllKnown result fields
  unfolding index_composite_input_keys
  index_composite_input_keys-IsSeparate [] keys result h = (tt, tt)
  index_composite_input_keys-IsSeparate (f ∷ fields) keys result h =
      let own = field_keys transform_column_name to_json f in
      let (added, first, rest) =
        >>=-eq-ok (add_keys own keys)
          (index_composite_input_keys transform_column_name to_json fields) h in
      let name : contains f.name added ≡ true =
        ground (arith, add_keys-contains own keys added f.name first, field_keys-name f) in
      let transformed : contains (transform_column_name f.name) added ≡ true = ground (
        arith,
        add_keys-contains own keys added (transform_column_name f.name) first,
        field_keys-transformed f,
      ) in
      let (kept, others) = index_composite_input_keys-kept fields added result f.name rest name in
      let (kept', others') =
        index_composite_input_keys-kept fields added result (transform_column_name f.name) rest
          transformed in
      let (separate, known) = index_composite_input_keys-IsSeparate fields added result rest in
      ((others, others', separate), (kept', known))
