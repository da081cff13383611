-- ===== src/ResultRows.antt =====
-- src/adapters/postgres/postgre-serializer.ts: the renaming of the columns of result rows. The naming strategy is
-- an argument.
pub mod Renamed
mod Tests
use typeorm_procedure_kit.Common.{Option, none, some, List, [], ◌∷◌, Result, ok, err, ◌>>=◌}
use typeorm_procedure_kit.Common.JsMap.{get, put}
use typeorm_procedure_kit.Common.Text.{Text, text_eq}
use typeorm_procedure_kit.Value.{Value}
use typeorm_procedure_kit.Payload.{Properties}

-- a row: an object with its own entries, or null, an array or a primitive
pub data ResultRow : Type 0 where
  object_row : Properties → ResultRow
  other_row : Value → ResultRow

-- the two columns and their name
pub data RowError : Type 0 where
  conflicting_columns : Text → Text → Text → RowError

module _ (transform_column_name : Text → Text) where
  -- the entries of a row, with the names given so far
  unfoldable pub transform_entries : List (Text × Text) → Properties → Result RowError Properties
  unfolding get put
  transform_entries output_names [] = ok []
  transform_entries output_names ((key, value) ∷ entries) =
      let output_name = transform_column_name key in
      elim (get output_names output_name) [
        | some original_name ↦ err (conflicting_columns original_name key output_name)
        | none ↦ transform_entries (put output_names output_name key) entries >>= λ renamed.
            ok ((output_name, value) ∷ renamed)
      ]

  unfoldable pub transform_row : ResultRow → Result RowError ResultRow
  unfolding transform_entries
  transform_row (other_row v) = ok (other_row v)
  transform_row (object_row entries) =
      transform_entries [] entries >>= λ renamed. ok (object_row renamed)

  -- transformRows
  unfoldable pub transform_rows : List ResultRow → Result RowError (List ResultRow)
  unfolding transform_row
  transform_rows [] = ok []
  transform_rows (row ∷ rows) = do
    transformed ← transform_row row
    rest ← transform_rows rows
    ok (transformed ∷ rest)
