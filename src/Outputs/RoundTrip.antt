-- ===== src/Outputs/RoundTrip.antt =====
-- src/adapters/postgres: a composite output handed back as a composite input.
use typeorm_procedure_kit.Common.{
  ◌≡◌, refl, sym, ap, ◌∙◌, arith, inl, inr, false, not, ◌&&◌, List, [], ◌∷◌, ◌++◌, append_assoc,
  append-nil, Bool-cases, is_some, some, Result, ok, ◌>>=◌,
}
use typeorm_procedure_kit.Common.JsMap.{get, has, put, has-put, has-eq-get}
use typeorm_procedure_kit.Common.Text.{Text, text_eq}
use typeorm_procedure_kit.Value.{Value, undefined}
use typeorm_procedure_kit.ErrorHandler.{Fault}
use typeorm_procedure_kit.Metadata.{StructuredField, StructuredType}
use typeorm_procedure_kit.Serializer.{SerializerType}
use typeorm_procedure_kit.Payload.{
  Properties, plain_object, or_error, or_else, bad_json, json_text, check_known,
  normalize_composite_field_value, normalize_fields, normalize_composite_input,
  index_composite_input_keys, field_value,
}
use typeorm_procedure_kit.Outputs.{transform_composite_record}
use typeorm_procedure_kit.Outputs.Transformed.{
  put-new, Delivers, delivers_none, delivers_field, transform_composite_record-Delivers,
}
use typeorm_procedure_kit.Outputs.Keys.{
  Avoids, IsSeparate, AllKnown, index_composite_input_keys-IsSeparate,
}

-- the values of an object, under the names of the fields
abbrev pub bound_fields : List StructuredField → Properties → Properties
bound_fields [] result = []
bound_fields (f ∷ fields) [] = []
bound_fields (f ∷ fields) ((key, v) ∷ result) =
    (f.name, normalize_composite_field_value f v) ∷ bound_fields fields result

-- no field's name is a key
abbrev AllNew : Properties → List StructuredField → Type 0
AllNew m [] = Unit
AllNew m (f ∷ fields) = (has m f.name ≡ false) × AllNew m fields

AllNew-nil : (fields : List StructuredField) → AllNew [] fields
unfolding has
AllNew-nil [] = tt
AllNew-nil (f ∷ fields) = (refl, AllNew-nil fields)

module _ (transform_column_name : Text → Text)
    (serialize_value : SerializerType → Value → Text → Text → Result Fault Value)
    (to_json : Properties → Result Fault Text) where
  -- an object has each field under its transformed name only
  data Finds (r : Properties) : List StructuredField → Properties → Type 0 where
    finds_none : Finds r [] []
    finds_field :
        {f : StructuredField} {fields : List StructuredField} {v : Value} {result : Properties}
        → has r f.name ≡ text_eq.beq (transform_column_name f.name) f.name
        → get r (transform_column_name f.name) ≡ some v
        → Finds r fields result
        → Finds r (f ∷ fields) ((transform_column_name f.name, v) ∷ result)

  AllNew-put :
      (fields : List StructuredField) (m : Properties) (k : Text) (v : Value)
      → Avoids transform_column_name to_json k fields
      → AllNew m fields
      → AllNew (put m k v) fields
  AllNew-put [] m k v avoids new = tt
  AllNew-put (f ∷ fields) m k v (other, others, avoids) (here, new) = (
    ground (arith, has-put m k v f.name, text_eq.beq_iff k f.name),
    AllNew-put fields m k v avoids new,
  )

  Finds-add :
      {r result : Properties} {fields : List StructuredField} (k : Text) (w : Value)
      → Finds r fields result
      → Avoids transform_column_name to_json k fields
      → Finds ((k, w) ∷ r) fields result
  unfolding has get
  Finds-add k w finds_none avoids = finds_none
  Finds-add k w (finds_field {f} keys found finds) (other, other', avoids) =
      finds_field (ground (arith, text_eq.beq_iff k f.name))
        (ground (arith, text_eq.beq_iff k (transform_column_name f.name)))
        (Finds-add k w finds avoids)

  Delivers-has :
      {value before r : Properties} {fields : List StructuredField} (k : Text)
      → Delivers transform_column_name serialize_value value before fields r
      → Avoids transform_column_name to_json k fields
      → has r k ≡ false
  unfolding has
  Delivers-has k delivers_none avoids = refl
  Delivers-has k (delivers_field {f} new source serialized delivers) (other, other', avoids) =
      ground
        (arith, Delivers-has k delivers avoids, text_eq.beq_iff (transform_column_name f.name) k)

  Delivers-Finds :
      {value before r : Properties} {fields : List StructuredField}
      → Delivers transform_column_name serialize_value value before fields r
      → IsSeparate transform_column_name to_json fields
      → Finds r fields r
  unfolding has get
  Delivers-Finds delivers_none separate = finds_none
  Delivers-Finds (delivers_field {f} {v} new source serialized delivers)
        (avoids, avoids', separate) =
      let name = transform_column_name f.name in
      finds_field (ground (arith, Delivers-has f.name delivers avoids))
        (ground (arith, text_eq.beq_iff name name))
        (Finds-add name v (Delivers-Finds delivers separate) avoids')

  check_known-ok :
      {value before r : Properties} {fields : List StructuredField} (keys : List Text)
      → Delivers transform_column_name serialize_value value before fields r
      → AllKnown transform_column_name to_json keys fields
      → check_known keys r ≡ ok tt
  unfolding check_known
  check_known-ok keys delivers_none known = refl
  check_known-ok keys (delivers_field new source serialized delivers) (here, known) =
      rw here (check_known-ok keys delivers known)

  -- the round of one field
  field_value-found :
      (f : StructuredField) (r : Properties) (v : Value)
      → has r f.name ≡ text_eq.beq (transform_column_name f.name) f.name
      → get r (transform_column_name f.name) ≡ some v
      → field_value transform_column_name to_json f r ≡ v
  field_value-found f r v keys found =
      elim (Bool-cases (text_eq.beq (transform_column_name f.name) f.name)) [
        | inl yes' ↦
            let same = (text_eq.beq_iff (transform_column_name f.name) f.name).0 yes' in
            rw (keys, yes') (ap (λ o. or_else o undefined) (sym (ap (get r) same) ∙ found))
        | inr no' ↦
            let there = has-eq-get r (transform_column_name f.name) ∙ ap is_some found in
            rw (keys, no', there, found) refl
      ]

  normalize_fields-Finds :
      {r result : Properties} {fields : List StructuredField} (normalized : Properties)
      → Finds r fields result
      → IsSeparate transform_column_name to_json fields
      → AllNew normalized fields
      → normalize_fields transform_column_name to_json fields r normalized
        ≡ ok (normalized ++ bound_fields fields result)
  unfolding normalize_fields
  normalize_fields-Finds normalized finds_none separate new = ap ok (sym (append-nil normalized))
  normalize_fields-Finds {r} normalized (finds_field {f} {fields} {v} {result} keys found finds)
        (avoids, avoids', separate) (here, new) =
      let bound = normalize_composite_field_value f v in
      let rest : normalize_fields transform_column_name to_json fields r
            (put normalized f.name bound)
          ≡ ok (normalized ++ ((f.name, bound) ∷ bound_fields fields result)) =
        normalize_fields-Finds (put normalized f.name bound) finds separate
          (AllNew-put fields normalized f.name bound avoids new)
        ∙ ap (λ m. ok (m ++ bound_fields fields result)) (put-new normalized f.name bound here)
        ∙ ap ok (append_assoc normalized ((f.name, bound) ∷ []) (bound_fields fields result)) in
      let passes : (not (text_eq.beq (transform_column_name f.name) f.name)
            && (has r f.name && has r (transform_column_name f.name)))
          ≡ false =
        ground arith in
      rw (passes, field_value-found f r v keys found) rest

  -- If the keys of the metadata do not conflict, a composite output handed back as a composite input is
  -- accepted, and what is bound is the JSON of an object that holds, under the name of each field and in
  -- their order, the value that the output has for it.
  pub normalize_composite_input-transform_composite_record :
      (value r : Properties) (t : StructuredType) (keys : List Text)
      → transform_composite_record transform_column_name serialize_value value t.fields ≡ ok r
      → index_composite_input_keys transform_column_name to_json t.fields [] ≡ ok keys
      → normalize_composite_input transform_column_name to_json (plain_object r) t
        ≡ (or_error bad_json (to_json (bound_fields t.fields r)) >>= λ text. ok (json_text text))
  unfolding normalize_composite_input
  normalize_composite_input-transform_composite_record value r t keys h accepted =
      let (known, delivers) =
        transform_composite_record-Delivers transform_column_name serialize_value value r t.fields
          h in
      let (separate, all_known) =
        index_composite_input_keys-IsSeparate transform_column_name to_json t.fields [] keys
          accepted in
      rw
        (
          accepted,
          check_known-ok keys delivers all_known,
          normalize_fields-Finds [] (Delivers-Finds delivers separate) separate
              (AllNew-nil t.fields),
        )
        refl
