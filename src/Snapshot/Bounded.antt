-- ===== src/Snapshot/Bounded.antt =====
-- src/core/procedure-list-base.ts: the size of a snapshot.
use typeorm_procedure_kit.Common.{
  ℕ, ◌+◌, ◌≤◌, ◌≡◌, ◌∙◌, refl, sym, ap, arith, inl, inr, Bool, true, false, not, Option, none, some,
  List, [], ◌∷◌, ◌++◌, length, nat_beq, ltb, if◌then◌else◌, Bool-cases, Result, ok, err, guard,
  >>=-eq-ok, ok-inj, err-neq-ok, guard-true, map, leb,
}
use mathlib.Core.Path.{subst}
use typeorm_procedure_kit.Common.JsMap.{get, put}
use typeorm_procedure_kit.Common.Sorting.{insert_by, sort_by}
use typeorm_procedure_kit.Common.Text.{Text, text_eq, to_lower_case}
use typeorm_procedure_kit.Value.{Number}
use typeorm_procedure_kit.ErrorHandler.{Fault}
use typeorm_procedure_kit.Metadata.{Json, Fields, Argument}
use typeorm_procedure_kit.Normalizer.{
  ProcedureArgument, ProcedureList, MetadataOptions, Overloads, to_argument, is_sentinel, or_empty,
  add_argument, is_configured, collect, sort_lists, normalize,
}
use typeorm_procedure_kit.Normalizer.Grouped.{collect-configured, collect-skipped}
use typeorm_procedure_kit.Snapshot.{
  PackagesSettings, bad_row, bad_argument, bad_procedure, prepare_failed, too_many_rows,
  too_many_prepared, no_arguments, rethrow, decode_rows, argument_count, metadata_count,
  normalize_rows, read_arguments, fetch_package_snapshot,
}

-- the arguments of a list, with the fields of their structured types
abbrev pub list_size : List ProcedureArgument → ℕ
list_size [] = 0
list_size (a ∷ xs) = argument_count a.structured_type + list_size xs

abbrev pub snapshot_size : ProcedureList → ℕ
snapshot_size [] = 0
snapshot_size ((name, xs) ∷ procedures) = list_size xs + snapshot_size procedures

not-ltb : (a b : ℕ) → not (ltb a b) ≡ true → b ≤ a
not-ltb a b h = ground arith

rethrow-ok {ℓ κ μ} :
    {E : Type ℓ} {F : Type κ} {A : Type μ} (f : E → F) (m : Result E A) (a : A)
    → rethrow f m ≡ ok a
    → m ≡ ok a
rethrow-ok f (ok b) a h = ap ok (ok-inj h)
rethrow-ok f (err e) a h = absurd (err-neq-ok h)

list_size-append :
    (xs ys : List ProcedureArgument) → list_size (xs ++ ys) ≡ list_size xs + list_size ys
list_size-append [] ys = omega arith
list_size-append (a ∷ xs) ys = omega (arith, list_size-append xs ys)

list_size-insert_by :
    (key : ProcedureArgument → ℕ) (a : ProcedureArgument) (xs : List ProcedureArgument)
    → list_size (insert_by key a xs) ≡ argument_count a.structured_type + list_size xs
unfolding insert_by
list_size-insert_by key a [] = refl
list_size-insert_by key a (b ∷ xs) = elim (Bool-cases (leb (key a) (key b))) [
  | inl yes' ↦ rw yes' refl
  | inr no' ↦ rw no' (omega (arith, list_size-insert_by key a xs))
]

list_size-sort_by :
    (key : ProcedureArgument → ℕ) (xs : List ProcedureArgument)
    → list_size (sort_by key xs) ≡ list_size xs
unfolding sort_by
list_size-sort_by key [] = refl
list_size-sort_by key (a ∷ xs) =
    omega (arith, list_size-insert_by key a (sort_by key xs), list_size-sort_by key xs)

snapshot_size-put :
    (m : ProcedureList) (k : Text) (v : List ProcedureArgument)
    → snapshot_size (put m k v) + list_size (or_empty (get m k)) ≡ snapshot_size m + list_size v
unfolding put get
snapshot_size-put [] k v = omega arith
snapshot_size-put ((j, w) ∷ m) k v = elim (Bool-cases (text_eq.beq j k)) [
  | inl yes' ↦ rw yes' (omega arith)
  | inr no' ↦ rw no' (omega (arith, snapshot_size-put m k v))
]

if-le :
    (b : Bool) (x y : ProcedureList) (n : ℕ)
    → snapshot_size x ≤ n
    → snapshot_size y ≤ n
    → snapshot_size (if b then x else y) ≤ n
if-le true x y n h k = h
if-le false x y n h k = k

snapshot_size-add_argument :
    (sentinel : Option Text) (name : Text) (item : Argument) (m : ProcedureList)
    → snapshot_size (add_argument sentinel name item m)
      ≤ snapshot_size m + argument_count item.structured_type
unfolding add_argument
snapshot_size-add_argument sentinel name item m =
    let old = or_empty (get m name) in
    let same = snapshot_size-put m name old in
    let more = snapshot_size-put m name (old ++ (to_argument item ∷ [])) in
    let grown = list_size-append old (to_argument item ∷ []) in
    if-le (nat_beq (length item.argument_name) 0) _ _ _ (omega arith) (
      if-le (is_sentinel sentinel (to_lower_case item.argument_name)) _ _ _ (omega (arith, same))
        (omega (arith, more, grown)))

module _ (procedure_list_base : List Text) (package_name : Text) (packages_length : ℕ)
    (options : MetadataOptions) where
  snapshot_size-sort_lists :
      (m : ProcedureList)
      → snapshot_size (sort_lists procedure_list_base package_name packages_length options m)
        ≡ snapshot_size m
  unfolding sort_lists
  snapshot_size-sort_lists [] = refl
  snapshot_size-sort_lists ((name, xs) ∷ m) =
      omega (arith, list_size-sort_by (λ a. a.order) xs, snapshot_size-sort_lists m)

  collect-nil :
      (overloads : Overloads) (m : ProcedureList)
      → ok m ≡ collect procedure_list_base package_name packages_length options [] overloads m
  unfolding collect
  collect-nil overloads m = refl

  snapshot_size-collect :
      (items : List Argument) (overloads : Overloads) (m found : ProcedureList)
      → collect procedure_list_base package_name packages_length options items overloads m
        ≡ ok found
      → snapshot_size found ≤ snapshot_size m + metadata_count items
  unfolding metadata_count
  snapshot_size-collect [] overloads m found h =
      let same : m ≡ found = ok-inj (collect-nil overloads m ∙ h) in
      subst (λ x. snapshot_size x ≤ snapshot_size m + 0) same (omega arith)
  snapshot_size-collect (item ∷ items) overloads m found h =
      let name = to_lower_case item.procedure_name in
      elim (Bool-cases
        (is_configured procedure_list_base package_name packages_length options name)) [
          | inl yes' ↦
              let (noted, _, after) =
                collect-configured procedure_list_base package_name packages_length options item
                  items overloads m found yes' h in
              omega (
                arith,
                snapshot_size-collect items noted _ found after,
                snapshot_size-add_argument options.no_argument_sentinel name item m,
              )
          | inr no' ↦
              let after =
                sym (
                  collect-skipped procedure_list_base package_name packages_length options item
                    items overloads m no')
                ∙ h in
              omega (arith, snapshot_size-collect items overloads m found after)
        ]

  snapshot_size-normalize :
      (raw_arguments : List Argument) (found : ProcedureList)
      → normalize procedure_list_base package_name packages_length options raw_arguments ≡ ok found
      → snapshot_size found ≤ metadata_count raw_arguments
  unfolding normalize
  snapshot_size-normalize raw_arguments found h =
      let (m, collected, same) =
        >>=-eq-ok
          (collect procedure_list_base package_name packages_length options raw_arguments [] []) _
          h in
      let is_found = ok-inj same in
      subst (λ x. snapshot_size x ≤ metadata_count raw_arguments) is_found
        (omega (
          arith,
          snapshot_size-sort_lists m,
          snapshot_size-collect raw_arguments [] [] m collected,
        ))

module _ (to_number : Text → Number) (max_metadata_rows : ℕ) where
  read_arguments-bounded :
      (rows : List Fields) (items : List Argument)
      → read_arguments to_number max_metadata_rows rows ≡ ok items
      → (length rows ≤ max_metadata_rows)
        × (metadata_count items ≤ max_metadata_rows)
        × (1 ≤ length items)
  unfolding read_arguments
  read_arguments-bounded rows items h =
      let (u, few_rows, h1) =
        >>=-eq-ok (guard (not (ltb max_metadata_rows (length rows))) too_many_prepared) _ h in
      let (read, decoded, h2) =
        >>=-eq-ok (rethrow bad_argument (decode_rows to_number max_metadata_rows rows)) _ h1 in
      let (v, few, h3) =
        >>=-eq-ok (guard (not (ltb max_metadata_rows (metadata_count read))) too_many_prepared) _
          h2 in
      let (w, any', h4) = >>=-eq-ok (guard (not (ltb (length read) 1)) no_arguments) _ h3 in
      let same : read ≡ items = ok-inj h4 in
      let rows_small = not-ltb max_metadata_rows (length rows) (guard-true _ _ u few_rows) in
      let small = not-ltb max_metadata_rows (metadata_count read) (guard-true _ _ v few) in
      let some' = not-ltb (length read) 1 (guard-true _ _ w any') in
      (
        rows_small,
        subst (λ x. metadata_count x ≤ max_metadata_rows) same small,
        subst (λ x. 1 ≤ length x) same some',
      )

  -- A snapshot that is fetched holds no more arguments and fields of structured types, together, than the
  -- row limit, and the query returned no more rows than it.
  pub fetch_package_snapshot-bounded :
      (to_camel_case : Text → Text) (prepare : List Fields → Result Fault (List Fields))
      (options : MetadataOptions) (settings : Option PackagesSettings) (package_name : Text)
      (rows : Result Fault (List Json)) (found : ProcedureList)
      → fetch_package_snapshot to_number max_metadata_rows to_camel_case prepare options settings
          package_name rows
        ≡ ok found
      → (snapshot_size found ≤ max_metadata_rows)
        × (metadata_rows : List Json) × (rows ≡ ok metadata_rows)
        × (length metadata_rows ≤ max_metadata_rows)
  unfolding fetch_package_snapshot
  fetch_package_snapshot-bounded to_camel_case prepare options none package_name rows found h =
      absurd (err-neq-ok h)
  fetch_package_snapshot-bounded to_camel_case prepare options (some settings) package_name (err e)
        found h =
      absurd (err-neq-ok h)
  fetch_package_snapshot-bounded to_camel_case prepare options (some settings) package_name
        (ok rows) found h =
      let (u, few, h1) =
        >>=-eq-ok (guard (not (ltb max_metadata_rows (length rows))) too_many_rows) _ h in
      let (normalized, _, h2) =
        >>=-eq-ok (rethrow bad_row (normalize_rows to_camel_case rows)) _ h1 in
      let (prepared, _, h3) = >>=-eq-ok (rethrow prepare_failed (prepare normalized)) _ h2 in
      let (items, read, h4) =
        >>=-eq-ok (read_arguments to_number max_metadata_rows prepared) _ h3 in
      let made = rethrow-ok bad_procedure _ found h4 in
      let size =
        snapshot_size-normalize (map to_lower_case settings.procedure_object_list) package_name
          (length settings.packages) options items found made in
      let bounds = read_arguments-bounded prepared items read in
      (
        omega (arith, size, bounds.1),
        rows,
        refl,
        not-ltb max_metadata_rows (length rows) (guard-true _ _ u few),
      )
