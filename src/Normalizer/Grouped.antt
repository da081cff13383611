-- ===== src/Normalizer/Grouped.antt =====
-- src/adapters/abstract/procedure-metadata-normalizer.ts: the arguments of each procedure.
use typeorm_procedure_kit.Common.{
  ℕ, ◌≡◌, ◌∙◌, refl, sym, ap, arith, inl, inr, Bool, true, false, not, ◌&&◌, Option, none, some,
  List, [], ◌∷◌, ◌++◌, append_assoc, append-nil, any, length, nat_beq, if◌then◌else◌, Bool-cases,
  ok, >>=-eq-ok,
}
use typeorm_procedure_kit.Common.JsMap.{get, get-put}
use typeorm_procedure_kit.Common.Sorting.{sort_by}
use typeorm_procedure_kit.Common.Text.{Text, text_eq, to_lower_case}
use typeorm_procedure_kit.Metadata.{Argument}
use typeorm_procedure_kit.Normalizer.{
  ProcedureArgument, ProcedureList, MetadataOptions, to_argument, is_sentinel, or_empty, Overloads,
  note_overload, add_argument, is_configured, collect, sort_lists, normalize,
}

-- the row gives procedure `p` a name for its argument
abbrev has_name : Text → Argument → Bool
has_name p item =
    text_eq.beq (to_lower_case item.procedure_name) p && not (nat_beq (length item.argument_name) 0)

abbrev added : Option Text → Argument → List ProcedureArgument
added sentinel item =
    if is_sentinel sentinel (to_lower_case item.argument_name) then [] else to_argument item ∷ []

get-add_argument :
    (sentinel : Option Text) (item : Argument) (procedures : ProcedureList) (p : Text)
    → get (add_argument sentinel (to_lower_case item.procedure_name) item procedures) p ≡ (
        if has_name p item
        then some (or_empty (get procedures p) ++ added sentinel item)
        else get procedures p)
unfolding add_argument
get-add_argument sentinel item procedures p =
    let name = to_lower_case item.procedure_name in
    ground (
      arith,
      append-nil (or_empty (get procedures p)),
      text_eq.beq_iff name p,
      get-put procedures name (or_empty (get procedures name)) p,
      get-put procedures name (or_empty (get procedures name) ++ (to_argument item ∷ [])) p,
    )

abbrev sorted : Option (List ProcedureArgument) → Option (List ProcedureArgument)
sorted none = none
sorted (some xs) = some (sort_by (λ a. a.order) xs)

sorted-if :
    (b : Bool) (xs : List ProcedureArgument)
    → sorted (if b then some xs else none) ≡ (if b then some (sort_by (λ a. a.order) xs) else none)
sorted-if true xs = refl
sorted-if false xs = refl

module _ (procedure_list_base : List Text) (package_name : Text) (packages_length : ℕ)
    (options : MetadataOptions) where
  -- The reference: the rows of one procedure that is configured, in their order.
  abbrev pub belongs : Text → Argument → Bool
  belongs p item =
      is_configured procedure_list_base package_name packages_length options
        (to_lower_case item.procedure_name)
      && has_name p item

  abbrev pub arguments_of : Text → List Argument → List ProcedureArgument
  arguments_of p [] = []
  arguments_of p (item ∷ items) =
      (if belongs p item then added options.no_argument_sentinel item else [])
      ++ arguments_of p items

  abbrev extended :
      Option (List ProcedureArgument) → Text → List Argument → Option (List ProcedureArgument)
  extended none p items = if any (belongs p) items then some (arguments_of p items) else none
  extended (some xs) p items = some (xs ++ arguments_of p items)

  extended-cons :
      (g : Option (List ProcedureArgument)) (p : Text) (item : Argument) (items : List Argument)
      → extended g p (item ∷ items)
        ≡ extended
            (if belongs p item
              then some (or_empty g ++ added options.no_argument_sentinel item)
              else g)
            p
            items
  extended-cons none p item items = elim (Bool-cases (belongs p item)) [
    | inl yes' ↦ rw yes' refl
    | inr no' ↦ rw no' refl
  ]
  extended-cons (some xs) p item items = elim (Bool-cases (belongs p item)) [
    | inl yes' ↦ rw yes' (ap some (sym (append_assoc xs _ _)))
    | inr no' ↦ rw no' refl
  ]

  abbrev configured : Argument → Bool
  configured item =
      is_configured procedure_list_base package_name packages_length options
        (to_lower_case item.procedure_name)

  pub collect-configured :
      (item : Argument) (items : List Argument) (overloads : Overloads)
      (procedures found : ProcedureList)
      → configured item ≡ true
      → collect procedure_list_base package_name packages_length options
          (item ∷ items)
          overloads
          procedures
        ≡ ok found
      → (noted : Overloads) × (note_overload
            (to_lower_case item.procedure_name)
            (options.get_overload_identity item)
            overloads
          ≡ ok noted)
        × (collect procedure_list_base package_name packages_length options items noted (
              add_argument options.no_argument_sentinel
                (to_lower_case item.procedure_name)
                item
                procedures)
            ≡ ok found)
  unfolding collect
  collect-configured item items overloads procedures found yes' h =
      >>=-eq-ok (note_overload _ _ overloads) _ (rw yes' at h)

  pub collect-skipped :
      (item : Argument) (items : List Argument) (overloads : Overloads) (procedures : ProcedureList)
      → configured item ≡ false
      → collect procedure_list_base package_name packages_length options
          (item ∷ items)
          overloads
          procedures
        ≡ collect procedure_list_base package_name packages_length options items overloads
            procedures
  unfolding collect
  collect-skipped item items overloads procedures no' = rw no' refl

  collect-extended :
      (items : List Argument) (overloads : Overloads) (procedures found : ProcedureList) (p : Text)
      → collect procedure_list_base package_name packages_length options items overloads procedures
        ≡ ok found
      → get found p ≡ extended (get procedures p) p items
  collect-extended [] overloads procedures found p h =
      unfold collect in ground (arith, append-nil (or_empty (get procedures p)))
  collect-extended (item ∷ items) overloads procedures found p h =
      let added' = some (or_empty (get procedures p) ++ added options.no_argument_sentinel item) in
      elim (Bool-cases (configured item)) [
        | inl yes' ↦
            let (noted, _, then') =
              collect-configured item items overloads procedures found yes' h in
            let same : belongs p item ≡ has_name p item = ap (λ b. b && has_name p item) yes' in
            collect-extended items noted
              (add_argument options.no_argument_sentinel (to_lower_case item.procedure_name) item
                procedures)
              found p then'
            ∙ ap (λ g. extended g p items)
                (get-add_argument options.no_argument_sentinel item procedures p
                  ∙ ap (λ b. if b then added' else get procedures p) (sym same))
            ∙ sym (extended-cons (get procedures p) p item items)
        | inr no' ↦
            let same : belongs p item ≡ false = ap (λ b. b && has_name p item) no' in
            collect-extended items overloads procedures found p
              (sym (collect-skipped item items overloads procedures no') ∙ h)
            ∙ ap (λ b. extended (if b then added' else get procedures p) p items) (sym same)
            ∙ sym (extended-cons (get procedures p) p item items)
      ]

  get-sort_lists :
      (procedures : ProcedureList) (p : Text)
      → get (sort_lists procedure_list_base package_name packages_length options procedures) p
        ≡ sorted (get procedures p)
  unfolding sort_lists get
  get-sort_lists [] p = refl
  get-sort_lists ((name, xs) ∷ procedures) p = elim (Bool-cases (text_eq.beq name p)) [
    | inl yes' ↦ rw yes' refl
    | inr no' ↦ rw no' (get-sort_lists procedures p)
  ]

  -- For accepted rows the result holds a procedure exactly if it is configured and some row gives it a
  -- name, and then its arguments are those rows without the sentinel, in their order, sorted by `order`.
  pub get-normalize :
      (raw_arguments : List Argument) (found : ProcedureList) (p : Text)
      → normalize procedure_list_base package_name packages_length options raw_arguments ≡ ok found
      → get found p ≡ (
          if any (belongs p) raw_arguments
          then some (sort_by (λ a. a.order) (arguments_of p raw_arguments))
          else none)
  unfolding normalize get
  get-normalize raw_arguments found p h =
      let (procedures, collected, same) =
        >>=-eq-ok
          (collect procedure_list_base package_name packages_length options raw_arguments [] []) _
          h in
      let same : sort_lists procedure_list_base package_name packages_length options procedures
          ≡ found =
        cc in
      rw (sym same) (
        get-sort_lists procedures p
        ∙ ap sorted (collect-extended raw_arguments [] [] procedures p collected)
        ∙ sorted-if (any (belongs p) raw_arguments) (arguments_of p raw_arguments))
