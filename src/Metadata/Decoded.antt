-- ===== src/Metadata/Decoded.antt =====
-- src/core/procedure-list-base.ts: accepted metadata rows.
use typeorm_procedure_kit.Common.{
  ℕ, ◌≡◌, ◌≢◌, ◌<◌, ◌≤◌, sym, arith, false, inl, inr, Bool-cases, Option, none, some, [], ◌∷◌,
  nat_beq, length, Result, ok, >>=-eq-ok,
}
use typeorm_procedure_kit.Common.Int.{pos, negsuc}
use typeorm_procedure_kit.Common.Text.{Text, trim, codes, to_upper_case}
use typeorm_procedure_kit.Value.{Number, int, float, max_safe_integer}
use typeorm_procedure_kit.Metadata.{
  Json, text, number, Fields, MetadataError, Argument, non_blank, required_text, read_string,
  lookup, fields_of, mode_of, without_blanks, safe_integer, required_integer, order_of, positive,
  read_positive, read_optional_string, decode_structured_type, decode_procedure_argument,
}

non_blank-ok : (key s t : Text) → non_blank key s ≡ ok t → t ≢ []
unfolding non_blank
non_blank-ok key s [] h e = elim (Bool-cases (nat_beq (length (trim s)) 0)) [
  | inl yes' ↦ let bad = rw yes' at h in cc
  | inr no' ↦
      let good : ok (trim s) ≡ ok [] = rw no' at h in
      let same : trim s ≡ [] = cc in
      let bad : nat_beq (length {A = ℕ} []) 0 ≡ false = rw same at no' in cc
]
non_blank-ok key s (c ∷ t) h e = cc

required_text-ok : (key : Text) (v : Json) (t : Text) → required_text key v ≡ ok t → t ≢ []
unfolding required_text
required_text-ok key (text s) t h = non_blank-ok key s t h
required_text-ok key _ t h = absurd cc

read_string-ok : (key : Text) (row : Fields) (t : Text) → read_string key row ≡ ok t → t ≢ []
unfolding read_string
read_string-ok key row t h = required_text-ok key (lookup key row) t h

abbrev accept : Argument → Result MetadataError Argument
accept a = ok a

ok_argument : (a b : Argument) → accept a ≡ accept b → a ≡ b
ok_argument a b h = cc

module _ (to_number : Text → Number) (max_metadata_rows : ℕ) where
  safe_integer-ok :
      (key : Text) (x : Number) (n : ℕ)
      → safe_integer to_number max_metadata_rows key x ≡ ok n
      → n ≤ max_safe_integer
  unfolding safe_integer
  safe_integer-ok key (int (pos m)) n h = ground arith
  safe_integer-ok key (int (negsuc m)) n h = cc
  safe_integer-ok key (float s) n h = cc

  required_integer-ok :
      (key : Text) (v : Json) (n : ℕ)
      → required_integer to_number max_metadata_rows key v ≡ ok n
      → n ≤ max_safe_integer
  unfolding required_integer
  required_integer-ok key (number x) n h = safe_integer-ok key x n h
  required_integer-ok key (text s) n h = safe_integer-ok key (to_number s) n h
  required_integer-ok key _ n h = absurd cc

  order_of-ok :
      (v : Json) (n : ℕ) → order_of to_number max_metadata_rows v ≡ ok n → n ≤ max_safe_integer
  unfolding order_of
  order_of-ok (text s) n h = elim (Bool-cases (nat_beq (length (trim s)) 0)) [
    | inl yes' ↦ let bad = rw yes' at h in cc
    | inr no' ↦ required_integer-ok (codes "order") (text s) n (rw no' at h)
  ]
  order_of-ok v n h = required_integer-ok (codes "order") v n h

  positive-ok :
      (key : Text) (o : Option ℕ) (n : ℕ)
      → positive to_number max_metadata_rows key o ≡ ok (some n)
      → 0 < n
  unfolding positive
  positive-ok key none n h = cc
  positive-ok key (some m) n h = ground arith

  -- An accepted row names its procedure, its argument and their type, and its order is a safe integer.
  pub decode_procedure_argument-named :
      (v : Json) (a : Argument)
      → decode_procedure_argument to_number max_metadata_rows v ≡ ok a
      → (a.procedure_name ≢ [])
        × (a.argument_name ≢ [])
        × (a.argument_type ≢ [])
        × (a.order ≤ max_safe_integer)
  unfolding decode_procedure_argument
  decode_procedure_argument-named v a h =
      let (row, e1, h1) = >>=-eq-ok (fields_of v) _ h in
      let (raw_mode, e2, h2) = >>=-eq-ok (read_string (codes "mode") row) _ h1 in
      let (mode, e3, h3) = >>=-eq-ok (mode_of (without_blanks (to_upper_case raw_mode))) _ h2 in
      let (order, e4, h4) =
        >>=-eq-ok (order_of to_number max_metadata_rows (lookup (codes "order") row)) _ h3 in
      let (size, e5, h5) =
        >>=-eq-ok (read_positive to_number max_metadata_rows (codes "size") row) _ h4 in
      let (sub, e6, h6) =
        >>=-eq-ok (read_positive to_number max_metadata_rows (codes "subprogramId") row) _ h5 in
      let (specific, e7, h7) = >>=-eq-ok (read_optional_string (codes "specificName") row) _ h6 in
      let (owner, e8, h8) = >>=-eq-ok (read_optional_string (codes "owner") row) _ h7 in
      let (overload, e9, h9) = >>=-eq-ok (read_optional_string (codes "overload") row) _ h8 in
      let (structured, e10, h10) =
        >>=-eq-ok
          (decode_structured_type to_number max_metadata_rows (lookup (codes "structuredType") row))
          _ h9 in
      let (procedure_name, e11, h11) = >>=-eq-ok (read_string (codes "procedureName") row) _ h10 in
      let (argument_name, e12, h12) = >>=-eq-ok (read_string (codes "argumentName") row) _ h11 in
      let (argument_type, e13, h13) = >>=-eq-ok (read_string (codes "argumentType") row) _ h12 in
      let same = ok_argument _ a h13 in
      rw (sym same) (
        read_string-ok (codes "procedureName") row procedure_name e11,
        read_string-ok (codes "argumentName") row argument_name e12,
        read_string-ok (codes "argumentType") row argument_type e13,
        order_of-ok (lookup (codes "order") row) order e4,
      )
