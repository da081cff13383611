-- ===== src/Outputs/Transformed.antt =====
-- src/adapters/postgres/postgre-result-materializer.ts: what an object of a composite output holds.
use typeorm_procedure_kit.Common.{
  ◌≡◌, ◌≢◌, ◌↔◌, some, refl, sym, ap, ◌∙◌, arith, inl, inr, false, none, List, [], ◌∷◌, ◌++◌,
  append_assoc, append-nil, if◌then◌else◌, Bool-cases, Option-cases, Result, ok, err, ◌>>=◌,
  >>=-eq-ok, ok-inj,
}
use mathlib.Core.Path.{subst}
use typeorm_procedure_kit.Common.JsMap.{has, put}
use typeorm_procedure_kit.Common.Text.{Text, text_eq}
use typeorm_procedure_kit.Value.{Value, undefined, null}
use typeorm_procedure_kit.ErrorHandler.{Fault}
use typeorm_procedure_kit.Metadata.{StructuredField}
use typeorm_procedure_kit.Serializer.{SerializerType}
use typeorm_procedure_kit.Payload.{Properties, or_error}
use typeorm_procedure_kit.Outputs.{
  serializer_failed, conflicting_output, unknown_key, lowered_names, source_value,
  serialize_composite_field, transform_fields, transform_composite_record, get_serializer_type,
  or_null,
}
use typeorm_procedure_kit.Outputs.Source.{
  AllNamed, IsSource, IsSource-same, source_value-IsSource, unknown_key-AllNamed,
}

-- a new key goes to the end
pub put-new :
    (m : Properties) (k : Text) (v : Value) → has m k ≡ false → put m k v ≡ m ++ ((k, v) ∷ [])
unfolding has put
put-new [] k v h = refl
put-new ((j, w) ∷ m) k v h = ground (arith, put-new m k v)

module _ (transform_column_name : Text → Text)
    (serialize_value : SerializerType → Value → Text → Text → Result Fault Value) where
  -- what is delivered of a value: the value itself, or null for undefined, if the field's type has no
  -- serializer, and else what the serializer of its type returns
  pub data Serializes (f : StructuredField) (output_name : Text) : Value → Value → Type 0 where
    missing_value :
        get_serializer_type f.argument_type ≡ none → Serializes f output_name undefined null
    same_value :
        {w : Value}
        → get_serializer_type f.argument_type ≡ none
        → w ≢ undefined
        → Serializes f output_name w w
    by_serializer :
        {t : SerializerType} {w v : Value}
        → get_serializer_type f.argument_type ≡ some t
        → serialize_value t w output_name f.argument_type ≡ ok v
        → Serializes f output_name w v

  or_null-Serializes :
      (f : StructuredField) (output_name : Text) (w : Value)
      → get_serializer_type f.argument_type ≡ none
      → Serializes f output_name w (or_null w)
  or_null-Serializes f output_name undefined e = missing_value e
  or_null-Serializes f output_name w e = same_value e (λ q. cc)

  or_null-same : (w : Value) → w ≢ undefined → or_null w ≡ w
  or_null-same undefined h = absurd (h refl)
  or_null-same w h = refl

  or_error-ok :
      (m : Result Fault Value) (v : Value) → or_error serializer_failed m ≡ ok v → m ≡ ok v
  or_error-ok (ok w) v h = ap ok (ok-inj h)
  or_error-ok (err e) v h = cc

  serialize_composite_field-Serializes :
      (f : StructuredField) (w : Value) (output_name : Text) (v : Value)
      → serialize_composite_field transform_column_name serialize_value f w output_name ≡ ok v
      → Serializes f output_name w v
  unfolding serialize_composite_field
  serialize_composite_field-Serializes f w output_name v h =
      elim (Option-cases (get_serializer_type f.argument_type)) [
        | inl e ↦
            subst (Serializes f output_name w) (ok-inj (rw (serialize_composite_field, e) at h))
              (or_null-Serializes f output_name w e)
        | inr (t, e) ↦ by_serializer e (or_error-ok _ v (rw (serialize_composite_field, e) at h))
      ]

  Serializes-serialize_composite_field :
      (f : StructuredField) (w : Value) (output_name : Text) (v : Value)
      → Serializes f output_name w v
      → serialize_composite_field transform_column_name serialize_value f w output_name ≡ ok v
  unfolding serialize_composite_field
  Serializes-serialize_composite_field f w output_name v (missing_value e) =
      rw (serialize_composite_field, e) refl
  Serializes-serialize_composite_field f w output_name v (same_value e h) =
      rw (serialize_composite_field, e) (ap ok (or_null-same w h))
  Serializes-serialize_composite_field f w output_name v (by_serializer e h) =
      rw (serialize_composite_field, e, h) refl

  -- Each field, under its transformed name, with what is delivered of the value that the server's object has
  -- for it; no name stands twice.
  pub data Delivers (value : Properties)
      : Properties → List StructuredField → Properties → Type 0 where
    delivers_none : {before : Properties} → Delivers value before [] []
    delivers_field :
        {before : Properties} {f : StructuredField} {fields : List StructuredField} {w v : Value}
        {result : Properties}
        → has before (transform_column_name f.name) ≡ false
        → IsSource f.name value w
        → Serializes f (transform_column_name f.name) w v
        → Delivers value (before ++ ((transform_column_name f.name, v) ∷ [])) fields result
        → Delivers value before (f ∷ fields) ((transform_column_name f.name, v) ∷ result)

  transform_fields-Delivers :
      (fields : List StructuredField) (value before r : Properties)
      → transform_fields transform_column_name serialize_value fields value before ≡ ok r
      → (result : Properties) × (r ≡ before ++ result) × Delivers value before fields result
  unfolding transform_fields
  transform_fields-Delivers [] value before r h =
      ([], sym (ok-inj h) ∙ sym (append-nil before), delivers_none)
  transform_fields-Delivers (f ∷ fields) value before r h =
      elim (Bool-cases (has before (transform_column_name f.name))) [
        | inl yes' ↦ ground arith
        | inr no' ↦
            let next = λ (v : Value).
              transform_fields transform_column_name serialize_value fields value
                (put before (transform_column_name f.name) v) in
            let (v, serialized, rest) =
              >>=-eq-ok
                (serialize_composite_field transform_column_name serialize_value f
                  (source_value f value) (transform_column_name f.name))
                next
                (sym (
                    ap
                      (λ b.
                        if b
                        then err (conflicting_output (transform_column_name f.name))
                        else (serialize_composite_field transform_column_name serialize_value f
                              (source_value f value) (transform_column_name f.name)
                            >>= next))
                      no')
                  ∙ h) in
            let new = put-new before (transform_column_name f.name) v no' in
            let (result, e, delivers) =
              transform_fields-Delivers fields value
                (before ++ ((transform_column_name f.name, v) ∷ [])) r
                (subst
                  (λ m.
                    transform_fields transform_column_name serialize_value fields value m ≡ ok r)
                  new rest) in
            (
              (transform_column_name f.name, v) ∷ result,
              e ∙ append_assoc before ((transform_column_name f.name, v) ∷ []) result,
              delivers_field no' (source_value-IsSource f value)
                  (serialize_composite_field-Serializes f (source_value f value)
                    (transform_column_name f.name) v serialized)
                  delivers,
            )
      ]

  -- The names of the object are those of the fields, transformed, in their order.
  pub transform_composite_record-Delivers :
      (value r : Properties) (fields : List StructuredField)
      → transform_composite_record transform_column_name serialize_value value fields ≡ ok r
      → AllNamed fields value × Delivers value [] fields r
  unfolding transform_composite_record
  transform_composite_record-Delivers value r fields h =
      elim (Option-cases (unknown_key (lowered_names fields) value)) [
        | inl known ↦
            let returns : transform_fields transform_column_name serialize_value fields value []
                ≡ ok r =
              ground (arith, h) in
            let (result, e, delivers) = transform_fields-Delivers fields value [] r returns in
            (
              (unknown_key-AllNamed fields value).0 known,
              subst (Delivers value [] fields) (sym e) delivers,
            )
        | inr (key, unknown) ↦ ground arith
      ]

  Delivers-transform_fields :
      {value before result : Properties} {fields : List StructuredField}
      → Delivers value before fields result
      → transform_fields transform_column_name serialize_value fields value before
        ≡ ok (before ++ result)
  unfolding transform_fields
  Delivers-transform_fields {value} {before} delivers_none = ap ok (sym (append-nil before))
  Delivers-transform_fields {value} {before}
        (delivers_field {f} {fields} {w} {v} {result} new source serializes delivers) =
      let same = IsSource-same source (source_value-IsSource f value) in
      let serialized =
        Serializes-serialize_composite_field f (source_value f value) (transform_column_name f.name)
          v (subst (λ x. Serializes f (transform_column_name f.name) x v) same serializes) in
      let entry = (transform_column_name f.name, v) ∷ [] in
      rw (new, serialized, put-new before (transform_column_name f.name) v new)
        (Delivers-transform_fields delivers ∙ ap ok (append_assoc before entry result))

  -- An object of a composite output is returned exactly if each of its keys is a field's name up to case,
  -- and what is returned holds, in the order of the fields and each under its transformed name, which no
  -- earlier field has, what is delivered of the value at the first key that is the field's name up to case, or
  -- of null: what the serializer of the field's type returns, or the value itself, null for undefined, if
  -- getSerializerType knows none.
  pub transform_composite_record-ok_iff :
      (value r : Properties) (fields : List StructuredField)
      → (transform_composite_record transform_column_name serialize_value value fields ≡ ok r)
        ↔ (AllNamed fields value × Delivers value [] fields r)
  unfolding transform_composite_record
  transform_composite_record-ok_iff value r fields = (
    transform_composite_record-Delivers value r fields,
    (λ (known, delivers).
        rw (transform_composite_record, (unknown_key-AllNamed fields value).1 known)
          (Delivers-transform_fields delivers)),
  )
