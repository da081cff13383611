-- ===== src/ErrorHandler/Envelope.antt =====
-- src/utils/database-error-handler.ts: the responses that are error envelopes, described without the code's tests.
use typeorm_procedure_kit.Common.{
  ℕ, ◌≡◌, ◌≢◌, ◌↔◌, refl, sym, ap, ◌∙◌, arith, true, false, not, Option, some, none, List, [], ◌∷◌,
  ◌++◌, all, nat_beq, err, inl, inr, Bool-cases, Option-cases,
}
use mathlib.Core.Path.{subst}
use typeorm_procedure_kit.Common.Int.{ℤ, magnitude}
use typeorm_procedure_kit.Common.JsMap.{get}
use typeorm_procedure_kit.Common.Text.{Text, text_eq, codes, trim}
use typeorm_procedure_kit.Value.{
  int, float, Value, undefined, null, symbol, callable, boolean, number, bigint, string, buffer,
  date, ref,
}
use typeorm_procedure_kit.ErrorHandler.{
  database_fault, Response, plain, array, object, no_rows, row, error_code_keys, error_text_keys,
  find_value, truthy, is_failure, check_for_database_error,
}

-- Codes that stand for a failure: any number but zero, a text with a character other than `0` between its
-- blanks, and of other values those that JavaScript takes for true.
pub data IsFailing : Value → Type 0 where
  failing_int : {z : ℤ} → magnitude z ≢ 0 → IsFailing (number (int z))
  failing_float : {s : Text} → IsFailing (number (float s))
  failing_text :
      {s : Text} (front : Text) (c : ℕ) (back : Text)
      → trim s ≡ front ++ (c ∷ back)
      → c ≢ 48
      → IsFailing (string s)
  failing_true : IsFailing (boolean true)
  failing_bigint : {z : ℤ} → magnitude z ≢ 0 → IsFailing (bigint z)
  failing_symbol : IsFailing symbol
  failing_callable : IsFailing callable
  failing_buffer : {bytes : List ℕ} → IsFailing (buffer bytes)
  failing_date : {d : Option Text} → IsFailing (date d)
  failing_ref : {a : ℕ} → IsFailing (ref a)

-- an object has a value at a name, and none at the names before it
pub data HasFirst (o : List (Text × Value)) : List Text → Value → Type 0 where
  has_here : {k : Text} {ks : List Text} {v : Value} → get o k ≡ some v → HasFirst o (k ∷ ks) v
  has_later :
      {k : Text} {ks : List Text} {v : Value}
      → get o k ≡ none
      → HasFirst o ks v
      → HasFirst o (k ∷ ks) v

abbrev pub code_names : List Text
code_names = codes "error_code" ∷ codes "err_code" ∷ codes "errorCode" ∷ codes "errCode" ∷ []

abbrev pub text_names : List Text
text_names = codes "error_text" ∷ codes "err_text" ∷ codes "errorText" ∷ codes "errText" ∷ []

-- An envelope: an object with a failing code and a text, or an array of one envelope.
pub data Fails : Response → Value → Value → Type 0 where
  fails_object :
      {o : List (Text × Value)} {code text : Value}
      → HasFirst o code_names code
      → HasFirst o text_names text
      → IsFailing code
      → Fails (object o) code text
  fails_array :
      {r : Response} {code text : Value}
      → Fails r code text
      → Fails (array (row r no_rows)) code text

find_value-HasFirst :
    (ks : List Text) (o : List (Text × Value)) (v : Value)
    → find_value ks o ≡ some v
    → HasFirst o ks v
unfolding find_value
find_value-HasFirst [] o v h = cc
find_value-HasFirst (k ∷ ks) o v h = elim (Option-cases (get o k)) [
  | inl none' ↦ has_later none' (find_value-HasFirst ks o v (rw (find_value, none') at h))
  | inr (w, e) ↦ has_here (e ∙ (rw (find_value, e) at h))
]

HasFirst-find_value :
    {o : List (Text × Value)} {ks : List Text} {v : Value}
    → HasFirst o ks v
    → find_value ks o ≡ some v
unfolding find_value
HasFirst-find_value (has_here e) = rw (find_value, e) refl
HasFirst-find_value (has_later e h) = rw (find_value, e) (HasFirst-find_value h)

not-all_zero :
    (s : Text)
    → not (all (nat_beq 48) s) ≡ true
    → (front : Text) × (c : ℕ) × (back : Text) × (s ≡ front ++ (c ∷ back)) × (c ≢ 48)
not-all_zero [] h = cc
not-all_zero (c ∷ s) h = elim (Bool-cases (nat_beq 48 c)) [
  | inl zero' ↦
      let (front, d, back, e, other) = not-all_zero s (ground arith) in
      (c ∷ front, d, back, ap {B = Text} (λ t. c ∷ t) e, other)
  | inr other ↦ ([], c, s, refl, ground arith)
]

all_zero-append :
    (front : Text) (c : ℕ) (back : Text)
    → c ≢ 48
    → not (all (nat_beq 48) (front ++ (c ∷ back))) ≡ true
all_zero-append [] c back other = ground arith
all_zero-append (d ∷ front) c back other = ground (arith, all_zero-append front c back other)

is_failure-IsFailing : (v : Value) → is_failure v ≡ true → IsFailing v
unfolding is_failure truthy
is_failure-IsFailing (number (int z)) h = failing_int (ground arith)
is_failure-IsFailing (number (float s)) h = failing_float
is_failure-IsFailing (string s) h =
    let (front, c, back, e, other) = not-all_zero (trim s) h in failing_text front c back e other
is_failure-IsFailing undefined h = cc
is_failure-IsFailing null h = cc
is_failure-IsFailing (boolean true) h = failing_true
is_failure-IsFailing (boolean false) h = cc
is_failure-IsFailing (bigint z) h = failing_bigint (ground arith)
is_failure-IsFailing symbol h = failing_symbol
is_failure-IsFailing callable h = failing_callable
is_failure-IsFailing (buffer b) h = failing_buffer
is_failure-IsFailing (date d) h = failing_date
is_failure-IsFailing (ref a) h = failing_ref

IsFailing-is_failure : {v : Value} → IsFailing v → is_failure v ≡ true
unfolding is_failure truthy
IsFailing-is_failure (failing_int h) = ground arith
IsFailing-is_failure failing_float = refl
IsFailing-is_failure (failing_text front c back e other) =
    subst (λ t. not (all (nat_beq 48) t) ≡ true) (sym e) (all_zero-append front c back other)
IsFailing-is_failure failing_true = refl
IsFailing-is_failure (failing_bigint h) = ground arith
IsFailing-is_failure failing_symbol = refl
IsFailing-is_failure failing_callable = refl
IsFailing-is_failure failing_buffer = refl
IsFailing-is_failure failing_date = refl
IsFailing-is_failure failing_ref = refl

Fails-check :
    {r : Response} {code text : Value}
    → Fails r code text
    → check_for_database_error r ≡ err (database_fault code text)
unfolding check_for_database_error
Fails-check (fails_object c t f) =
    rw (HasFirst-find_value c, HasFirst-find_value t, IsFailing-is_failure f) refl
Fails-check (fails_array h) = Fails-check h

check-object :
    (o : List (Text × Value)) (code text : Value)
    → check_for_database_error (object o) ≡ err (database_fault code text)
    → Fails (object o) code text
unfolding check_for_database_error
check-object o code text h = elim (Option-cases (find_value error_code_keys o)) [
  | inl no_code ↦ let bad = rw no_code at h in cc
  | inr (c, has_code) ↦ elim (Option-cases (find_value error_text_keys o)) [
    | inl no_text ↦ let bad = rw (has_code, no_text) at h in cc
    | inr (t, has_text) ↦ elim (Bool-cases (is_failure c)) [
      | inl yes' ↦
          let q = rw (has_code, has_text, yes') at h in
          let same : c ≡ code = cc in
          let also : t ≡ text = cc in
          fails_object (find_value-HasFirst error_code_keys o code (has_code ∙ ap some same))
            (find_value-HasFirst error_text_keys o text (has_text ∙ ap some also))
            (subst IsFailing same (is_failure-IsFailing c yes'))
      | inr no' ↦ let bad = rw (has_code, has_text, no') at h in cc
    ]
  ]
]

check-Fails :
    (r : Response) (code text : Value)
    → check_for_database_error r ≡ err (database_fault code text)
    → Fails r code text
unfolding check_for_database_error
check-Fails plain code text h = cc
check-Fails (array no_rows) code text h = cc
check-Fails (array (row r no_rows)) code text h = fails_array (check-Fails r code text h)
check-Fails (array (row r (row q rs))) code text h = cc
check-Fails (object o) code text h = check-object o code text h

-- A response raises an error with a code and a text exactly if it is an envelope with these: an object
-- that has both, each at the first of four names that is there, and whose code is a number but zero, a text
-- with a character other than `0` between its blanks, or another value that is true; or an array whose only
-- element is an envelope.
pub check_for_database_error_iff :
    (r : Response) (code text : Value)
    → (check_for_database_error r ≡ err (database_fault code text)) ↔ Fails r code text
check_for_database_error_iff r code text = (check-Fails r code text, λ f. Fails-check f)
