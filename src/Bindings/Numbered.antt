-- ===== src/Bindings/Numbered.antt =====
-- src/adapters/postgres/postgre-bindings.ts: placeholders and output names of a CALL statement.
use typeorm_procedure_kit.Common.{
  ℕ, zero, suc, ◌+◌, ◌≡◌, ◌∙◌, refl, sym, ap, arith, inl, inr, not, Option, none, some, List, [],
  ◌∷◌, ◌++◌, map, length, append_assoc, append-nil, length-append, if◌then◌else◌, Bool-cases,
  Result, ok, guard, >>=-eq-ok, ok-inj,
}
use mathlib.Core.Path.{subst}
use typeorm_procedure_kit.Common.Text.{Text}
use typeorm_procedure_kit.ErrorHandler.{Fault}
use typeorm_procedure_kit.Metadata.{StructuredType}
use typeorm_procedure_kit.Normalizer.{ProcedureArgument, ProcedureList}
use typeorm_procedure_kit.Materializer.{OutBinding, OutType, object_type, cursor_type, scalar_type}
use typeorm_procedure_kit.Portal.{normalize_input}
use typeorm_procedure_kit.Identifier.{quote_postgres_qualified_identifier}
use typeorm_procedure_kit.Composite.{assert_supported_composite, quote_composite_type}
use typeorm_procedure_kit.Bindings.{
  Expression, placeholder, null_composite, composite, as_value, is_unsupported, Built,
  nothing_built, is_in, is_out, noted_out, noted_cursor, is_cursor, bind,
  create_composite_expression, add_composite, add_cursor, add_typed, add_argument, build_arguments,
  BindingsObject, build, arguments_of,
}
use typeorm_procedure_kit.Payload.{
  Properties, PayloadValue, Payload, Binding, null_binding, bad_composite, bad_portal, bad_payload,
  bad_name, or_error, portal_name, read_payload_value, null_value, read_composite_value,
  normalize_composite_input, bound,
}

-- the numbers of the placeholders, in their order
abbrev pub numbers : List Expression → List ℕ
numbers [] = []
numbers (placeholder n ∷ es) = n ∷ numbers es
numbers (null_composite q ∷ es) = numbers es
numbers (composite q n ∷ es) = n ∷ numbers es

-- 1, …, n
abbrev pub count_to : ℕ → List ℕ
count_to zero = []
count_to (suc n) = count_to n ++ (suc n ∷ [])

-- the arguments that are not only read, in their order
abbrev pub output_names : List ProcedureArgument → List Text
output_names [] = []
output_names (a ∷ rest) = (if is_in a.mode then [] else a.argument_name ∷ []) ++ output_names rest

numbers-append : (xs ys : List Expression) → numbers (xs ++ ys) ≡ numbers xs ++ numbers ys
numbers-append [] ys = refl
numbers-append (placeholder n ∷ xs) ys = ap (λ ns. n ∷ ns) (numbers-append xs ys)
numbers-append (null_composite q ∷ xs) ys = numbers-append xs ys
numbers-append (composite q n ∷ xs) ys = ap (λ ns. n ∷ ns) (numbers-append xs ys)

abbrev names : List OutBinding → List Text
names bs = map (λ o. o.name) bs

names-append : (xs ys : List OutBinding) → names (xs ++ ys) ≡ names xs ++ names ys
names-append [] ys = refl
names-append (o ∷ xs) ys = ap (λ ns. o.name ∷ ns) (names-append xs ys)

-- the placeholders of `b` are 1, 2, … up to the number of its bindings
abbrev pub IsNumbered : Built → Type 0
IsNumbered b = numbers b.expressions ≡ count_to (length b.bindings)

-- `c` is `b` with one expression more, and the output name of argument `a` if it is one
record Adds (a : ProcedureArgument) (b c : Built) : Type 0 where
  numbered : IsNumbered b → IsNumbered c
  one_more : length c.expressions ≡ suc (length b.expressions)
  outputs : names c.out_bindings ≡ names b.out_bindings ++ output_names (a ∷ [])

noted_out-outputs :
    (a : ProcedureArgument) (type : OutType) (b : Built)
    → names (noted_out a type b).out_bindings ≡ names b.out_bindings ++ output_names (a ∷ [])
noted_out-outputs a type b = elim (Bool-cases (is_in a.mode)) [
  | inl yes' ↦ rw yes' (sym (append-nil _))
  | inr no' ↦ rw no' (names-append b.out_bindings _)
]

noted_out-same :
    (a : ProcedureArgument) (type : OutType) (b : Built)
    → ((noted_out a type b).expressions ≡ b.expressions)
      × ((noted_out a type b).bindings ≡ b.bindings)
noted_out-same a type b = ground arith

noted_cursor-same :
    (a : ProcedureArgument) (b : Built)
    → ((noted_cursor a b).expressions ≡ b.expressions)
      × ((noted_cursor a b).bindings ≡ b.bindings)
      × ((noted_cursor a b).out_bindings ≡ b.out_bindings)
noted_cursor-same a b = ground arith

length-suc : (xs : List Binding) (v : Binding) → length (xs ++ (v ∷ [])) ≡ suc (length xs)
length-suc xs v = omega (arith, length-append xs (v ∷ []))

-- a binding that is pushed with an expression that shows its number
bind-Adds :
    (a : ProcedureArgument) (v : Binding) (e : ℕ → Expression) (b c : Built)
    → ((n : ℕ) → numbers (e n ∷ []) ≡ n ∷ [])
    → c.expressions ≡ b.expressions
    → c.bindings ≡ b.bindings
    → names c.out_bindings ≡ names b.out_bindings ++ output_names (a ∷ [])
    → Adds a b (bind v e c)
bind-Adds a v e b c shows same same' outs = record {
  numbered = λ h.
      numbers-append c.expressions _
      ∙ ap (λ ns. numbers c.expressions ++ ns) (shows (suc (length c.bindings)))
      ∙ ap (λ ns. ns ++ (suc (length c.bindings) ∷ []))
          (ap numbers same ∙ h ∙ ap (λ bs. count_to (length bs)) (sym same'))
      ∙ ap count_to (sym (length-suc c.bindings v));
  one_more = omega (
    arith,
    length-append c.expressions (e (suc (length c.bindings)) ∷ []),
    ap (λ es. length es) same,
  );
  outputs = outs;
}

module _ (transform_column_name : Text → Text) (random_uuid : ℕ → Text)
    (to_json : Properties → Result Fault Text) where
  create_composite_expression-Adds :
      (a : ProcedureArgument) (t : StructuredType) (q : Text) (value : PayloadValue)
      (type : OutType) (b c : Built)
      → create_composite_expression transform_column_name random_uuid to_json a.mode t q value
          (noted_out a type b)
        ≡ ok c
      → Adds a b c
  unfolding create_composite_expression
  create_composite_expression-Adds a t q value type b c h =
      let noted = noted_out a type b in
      let (same, same') = noted_out-same a type b in
      elim (Bool-cases (is_out a.mode)) [
        | inl yes' ↦ subst (Adds a b) (ok-inj (rw yes' at h)) (record {
          numbered = λ n.
              numbers-append noted.expressions _
              ∙ append-nil (numbers noted.expressions)
              ∙ ap numbers same
              ∙ n
              ∙ ap (λ bs. count_to (length bs)) (sym same');
          one_more = omega (
            arith,
            length-append noted.expressions (null_composite q ∷ []),
            ap (λ es. length es) same,
          );
          outputs = noted_out-outputs a type b;
        })
        | inr no' ↦
            let (v, e, done) =
              >>=-eq-ok (normalize_composite_input transform_column_name to_json value t) _
                (rw no' at h) in
            subst (Adds a b) (ok-inj done) (
              bind-Adds a v (composite q) b noted (λ n. refl) same same'
                (noted_out-outputs a type b))
      ]

  add_composite-Adds :
      (payload : Payload) (index : ℕ) (a : ProcedureArgument) (t : StructuredType) (b c : Built)
      → add_composite transform_column_name random_uuid to_json payload index a t b ≡ ok c
      → Adds a b c
  unfolding add_composite
  add_composite-Adds payload index a t b c h =
      let (u, _, h1) =
        >>=-eq-ok (or_error bad_composite (assert_supported_composite (some a.argument_type) t)) _
          h in
      let (value, _, h2) =
        >>=-eq-ok
          (if is_out a.mode
            then ok null_value
            else read_composite_value payload index a.argument_name)
          _ h1 in
      let (q, _, h3) = >>=-eq-ok (or_error bad_composite (quote_composite_type t)) _ h2 in
      create_composite_expression-Adds a t q value object_type b c h3

  add_cursor-Adds :
      (payload : Payload) (index : ℕ) (a : ProcedureArgument) (b c : Built)
      → add_cursor transform_column_name random_uuid to_json payload index a b ≡ ok c
      → Adds a b c
  unfolding add_cursor
  add_cursor-Adds payload index a b c h =
      let noted = noted_out a cursor_type b in
      let (same, same') = noted_out-same a cursor_type b in
      let (keep, keep', keep'') = noted_cursor-same a noted in
      let outs = ap names keep'' ∙ noted_out-outputs a cursor_type b in
      let bound-Adds : (v : Binding) → Adds a b (bind v placeholder (noted_cursor a noted)) = λ v.
        bind-Adds a v placeholder b (noted_cursor a noted) (λ n. refl) (keep ∙ same) (keep' ∙ same')
          outs in
      elim (Bool-cases (is_out a.mode)) [
        | inl yes' ↦ subst (Adds a b) (ok-inj (rw yes' at h)) (bound-Adds null_binding)
        | inr no' ↦
            let (name, _, done) =
              >>=-eq-ok
                (or_error bad_portal (
                  normalize_input (random_uuid index)
                    (as_value (read_payload_value payload index a.argument_name))))
                _ (rw no' at h) in
            subst (Adds a b) (ok-inj done) (bound-Adds (portal_name name))
      ]

  add_typed-Adds :
      (o : Option StructuredType) (payload : Payload) (index : ℕ) (a : ProcedureArgument)
      (b c : Built)
      → add_typed transform_column_name random_uuid to_json o payload index a b ≡ ok c
      → Adds a b c
  unfolding add_typed
  add_typed-Adds (some t) payload index a b c h = add_composite-Adds payload index a t b c h
  add_typed-Adds none payload index a b c h = elim (Bool-cases (is_cursor a)) [
    | inl yes' ↦ add_cursor-Adds payload index a b c (rw yes' at h)
    | inr no' ↦
        let noted = noted_out a scalar_type b in
        let (same, same') = noted_out-same a scalar_type b in
        subst (Adds a b) (ok-inj (rw no' at h)) (
          bind-Adds a (bound (read_payload_value payload index a.argument_name)) placeholder b noted
            (λ n. refl) same same' (noted_out-outputs a scalar_type b))
  ]

  add_argument-Adds :
      (payload : Payload) (index : ℕ) (a : ProcedureArgument) (b c : Built)
      → add_argument transform_column_name random_uuid to_json payload index a b ≡ ok c
      → Adds a b c
  unfolding add_argument
  add_argument-Adds payload index a b c h = add_typed-Adds a.structured_type payload index a b c h

  build_arguments-Adds :
      (payload : Payload) (index : ℕ) (rest : List ProcedureArgument) (b c : Built)
      → build_arguments transform_column_name random_uuid to_json payload index rest b ≡ ok c
      → (IsNumbered b → IsNumbered c)
        × (length c.expressions ≡ length b.expressions + length rest)
        × (names c.out_bindings ≡ names b.out_bindings ++ output_names rest)
  unfolding build_arguments
  build_arguments-Adds payload index [] b c h =
      let same : b ≡ c = ok-inj h in
      (
        subst IsNumbered same,
        ap (λ x. length x.expressions) (sym same) ∙ omega arith,
        ap (λ x. names x.out_bindings) (sym same) ∙ sym (append-nil _),
      )
  build_arguments-Adds payload index (a ∷ rest) b c h =
      let (d, e, h1) =
        >>=-eq-ok (add_argument transform_column_name random_uuid to_json payload index a b) _ h in
      let adds = add_argument-Adds payload index a b d e in
      let (numbered, count, outs) = build_arguments-Adds payload (suc index) rest d c h1 in
      (
        λ n. numbered (adds.numbered n),
        omega (arith, count, adds.one_more),
        outs
            ∙ ap (λ ns. ns ++ output_names rest) adds.outputs
            ∙ append_assoc (names b.out_bindings) (output_names (a ∷ [])) (output_names rest)
            ∙ ap (λ ns. names b.out_bindings ++ ns)
                (append_assoc (if is_in a.mode then [] else a.argument_name ∷ []) []
                  (output_names rest)),
      )

  -- In a CALL statement that is built, the placeholders are $1, $2, … in their order, one for each
  -- binding; there is an expression for each argument, and the output names are those of the arguments
  -- that are not of mode IN, in their order.
  pub build-numbered :
      (package_name process_name : Text) (procedures : Option ProcedureList) (payload : Payload)
      (made : BindingsObject)
      → build transform_column_name random_uuid to_json package_name process_name procedures payload
        ≡ ok made
      → (numbers made.expressions ≡ count_to (length made.bindings))
        × (arguments : List ProcedureArgument) × (arguments_of procedures process_name
            ≡ ok arguments)
        × (length made.expressions ≡ length arguments)
        × (made.out_names ≡ output_names arguments)
  unfolding build
  build-numbered package_name process_name procedures payload made h =
      let (arguments, found, h1) = >>=-eq-ok (arguments_of procedures process_name) _ h in
      let (u, _, h2) = >>=-eq-ok (guard (not (is_unsupported payload)) bad_payload) _ h1 in
      let (b, e, h3) =
        >>=-eq-ok
          (build_arguments transform_column_name random_uuid to_json payload 0 arguments
            nothing_built)
          _ h2 in
      let (q, _, h4) =
        >>=-eq-ok
          (or_error bad_name
            (quote_postgres_qualified_identifier (package_name ∷ process_name ∷ [])))
          _ h3 in
      let same = ok-inj h4 in
      let (numbered, count, outs) = build_arguments-Adds payload 0 arguments nothing_built b e in
      subst
        (λ x.
          (numbers x.expressions ≡ count_to (length x.bindings))
          × (arguments' : List ProcedureArgument) × (arguments_of procedures process_name
              ≡ ok arguments')
          × (length x.expressions ≡ length arguments')
          × (x.out_names ≡ output_names arguments'))
        same (numbered refl, arguments, found, omega (arith, count), outs)
