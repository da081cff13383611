-- ===== src/ResultRows/Renamed.antt =====
-- src/adapters/postgres/postgre-serializer.ts: which result rows are renamed, and how.
use typeorm_procedure_kit.Common.{
  ◌≡◌, ◌≢◌, ◌↔◌, refl, sym, ap, ◌∙◌, arith, inl, inr, false, is_some, List, [], ◌∷◌, map,
  Option-cases, ok, >>=-eq-ok, ok-inj, err-neq-ok,
}
use typeorm_procedure_kit.Common.JsMap.{get, has, put, has-put, has-eq-get}
use typeorm_procedure_kit.Common.Text.{Text, text_eq}
use typeorm_procedure_kit.Payload.{Properties}
use typeorm_procedure_kit.ResultRows.{
  ResultRow, object_row, other_row, transform_entries, transform_row, transform_rows,
}

module _ (transform_column_name : Text → Text) where
  -- no column has this transformed name
  abbrev Avoids : Text → Properties → Type 0
  Avoids name [] = Unit
  Avoids name ((key, value) ∷ entries) = (name ≢ transform_column_name key) × Avoids name entries

  abbrev pub HasDistinctNames : Properties → Type 0
  HasDistinctNames [] = Unit
  HasDistinctNames ((key, value) ∷ entries) =
      Avoids (transform_column_name key) entries × HasDistinctNames entries

  abbrev pub rename : Properties → Properties
  rename [] = []
  rename ((key, value) ∷ entries) = (transform_column_name key, value) ∷ rename entries

  -- the rows whose columns keep apart, and the rows with the names transformed
  abbrev pub AllDistinct : List ResultRow → Type 0
  AllDistinct [] = Unit
  AllDistinct (object_row entries ∷ rows) = HasDistinctNames entries × AllDistinct rows
  AllDistinct (other_row v ∷ rows) = AllDistinct rows

  abbrev pub rename_row : ResultRow → ResultRow
  rename_row (object_row entries) = object_row (rename entries)
  rename_row (other_row v) = other_row v

  -- no column has a name that is given already
  abbrev AllFree : List (Text × Text) → Properties → Type 0
  AllFree names [] = Unit
  AllFree names ((key, value) ∷ entries) =
      (has names (transform_column_name key) ≡ false) × AllFree names entries

  AllFree-nil : (entries : Properties) → AllFree [] entries
  unfolding has
  AllFree-nil [] = tt
  AllFree-nil ((key, value) ∷ entries) = (refl, AllFree-nil entries)

  AllFree-put :
      (entries : Properties) (names : List (Text × Text)) (name key : Text)
      → AllFree (put names name key) entries ↔ (AllFree names entries × Avoids name entries)
  AllFree-put [] names name key = ((λ h. (tt, tt)), (λ h. tt))
  AllFree-put ((k, value) ∷ entries) names name key =
      let added = has-put names name key (transform_column_name k) in
      let same = text_eq.beq_iff name (transform_column_name k) in
      let more = AllFree-put entries names name key in
      (
        (λ (free, rest).
            let (kept, avoids) = more.0 rest in
            ((ground (arith, added), kept), ((λ e. ground (arith, added, same)), avoids))),
        (λ ((free, rest), (other, avoids)). (ground (arith, added, same), more.1 (rest, avoids))),
      )

  transform_entries-ok :
      (entries : Properties) (names : List (Text × Text)) (renamed : Properties)
      → transform_entries transform_column_name names entries ≡ ok renamed
      → AllFree names entries × HasDistinctNames entries × (renamed ≡ rename entries)
  unfolding transform_entries
  transform_entries-ok [] names renamed h = (tt, tt, sym (ok-inj h))
  transform_entries-ok ((key, value) ∷ entries) names renamed h =
      let name = transform_column_name key in
      elim (Option-cases (get names name)) [
        | inl none' ↦
            let next = transform_entries transform_column_name (put names name key) entries in
            let (rest, e, done) =
              >>=-eq-ok next (λ r. ok ((name, value) ∷ r)) (rw (transform_entries, none') at h) in
            let (free, distinct, same) = transform_entries-ok entries (put names name key) rest e in
            let (free', avoids) = (AllFree-put entries names name key).0 free in
            (
              (has-eq-get names name ∙ ap is_some none', free'),
              (avoids, distinct),
              sym (ok-inj done)
                  ∙ ap {A = Properties} {B = Properties} (λ r. (name, value) ∷ r) same,
            )
        | inr (original, there) ↦ absurd (err-neq-ok (rw (transform_entries, there) at h))
      ]

  transform_entries-of_free :
      (entries : Properties) (names : List (Text × Text))
      → AllFree names entries
      → HasDistinctNames entries
      → transform_entries transform_column_name names entries ≡ ok (rename entries)
  unfolding transform_entries
  transform_entries-of_free [] names free distinct = refl
  transform_entries-of_free ((key, value) ∷ entries) names (free, rest) (avoids, distinct) =
      let name = transform_column_name key in
      elim (Option-cases (get names name)) [
        | inl none' ↦
            let next =
              transform_entries-of_free entries (put names name key)
                ((AllFree-put entries names name key).1 (rest, avoids)) distinct in
            rw (transform_entries, none', next) refl
        | inr (original, there) ↦ ground (arith, has-eq-get names name)
      ]

  transform_row-ok :
      (entries : Properties) (t : ResultRow)
      → transform_row transform_column_name (object_row entries) ≡ ok t
      → HasDistinctNames entries × (t ≡ object_row (rename entries))
  unfolding transform_row
  transform_row-ok entries t h =
      let (renamed, e, done) =
        >>=-eq-ok (transform_entries transform_column_name [] entries) (λ r. ok (object_row r)) h in
      let (free, distinct, same) = transform_entries-ok entries [] renamed e in
      (distinct, sym (ok-inj done) ∙ ap object_row same)

  transform_row-of_distinct :
      (entries : Properties)
      → HasDistinctNames entries
      → transform_row transform_column_name (object_row entries) ≡ ok (object_row (rename entries))
  unfolding transform_row
  transform_row-of_distinct entries distinct =
      rw (transform_entries-of_free entries [] (AllFree-nil entries) distinct) refl

  transform_rows-ok :
      (rows result : List ResultRow)
      → transform_rows transform_column_name rows ≡ ok result
      → AllDistinct rows × (result ≡ map rename_row rows)
  unfolding transform_rows
  transform_rows-ok [] result h = (tt, sym (ok-inj h))
  transform_rows-ok (object_row entries ∷ rows) result h =
      let (t, first, more) =
        >>=-eq-ok (transform_row transform_column_name (object_row entries)) _ h in
      let (rest, e, done) =
        >>=-eq-ok (transform_rows transform_column_name rows) (λ rest. ok (t ∷ rest)) more in
      let (distinct, same) = transform_row-ok entries t first in
      let (others, tail) = transform_rows-ok rows rest e in
      (
        (distinct, others),
        sym (ok-inj done)
            ∙ ap {B = List ResultRow} (λ x. x ∷ rest) same
            ∙ ap {B = List ResultRow} (λ x. object_row (rename entries) ∷ x) tail,
      )
  transform_rows-ok (other_row v ∷ rows) result h =
      let (rest, e, done) =
        >>=-eq-ok (transform_rows transform_column_name rows) (λ rest. ok (other_row v ∷ rest)) h in
      let (others, tail) = transform_rows-ok rows rest e in
      (others, sym (ok-inj done) ∙ ap {B = List ResultRow} (λ x. other_row v ∷ x) tail)

  transform_rows-of_distinct :
      (rows : List ResultRow)
      → AllDistinct rows
      → transform_rows transform_column_name rows ≡ ok (map rename_row rows)
  unfolding transform_rows
  transform_rows-of_distinct [] distinct = refl
  transform_rows-of_distinct (object_row entries ∷ rows) (distinct, others) =
      rw (transform_row-of_distinct entries distinct, transform_rows-of_distinct rows others) refl
  transform_rows-of_distinct (other_row v ∷ rows) others =
      rw (transform_rows-of_distinct rows others) refl

  -- Rows are returned exactly if in each that is an object the transformed names of the columns differ;
  -- they are the rows with the names transformed, in their order.
  pub transform_rows-ok_iff :
      (rows result : List ResultRow)
      → (transform_rows transform_column_name rows ≡ ok result)
        ↔ (AllDistinct rows × (result ≡ map rename_row rows))
  transform_rows-ok_iff rows result = (
    transform_rows-ok rows result,
    (λ (distinct, same). transform_rows-of_distinct rows distinct ∙ ap ok (sym same)),
  )
