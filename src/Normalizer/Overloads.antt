-- ===== src/Normalizer/Overloads.antt =====
-- src/adapters/abstract/procedure-metadata-normalizer.ts: which rows are refused as overloads.
use typeorm_procedure_kit.Common.{
  ℕ, ◌≡◌, ◌∙◌, ◌⊎◌, refl, sym, ap, arith, inl, inr, Bool, true, false, not, ◌&&◌, ◌||◌, Option,
  none, some, List, [], ◌∷◌, all, Bool-cases, Result, ok, err, ok-inj, err-neq-ok, ◌>>=◌,
  Option-cases,
}
use typeorm_procedure_kit.Common.JsMap.{get, put, get-put}
use typeorm_procedure_kit.Common.Text.{Text, text_eq, to_lower_case}
use typeorm_procedure_kit.Metadata.{Argument}
use typeorm_procedure_kit.Normalizer.{
  ProcedureList, overloaded, MetadataOptions, Identity, text_identity, number_identity,
  same_identity, Overloads, agrees, note_overload, add_argument, is_configured, collect, normalize,
}

abbrev pub is_ok {ℓ κ} : {E : Type ℓ} {A : Type κ} → Result E A → Bool
is_ok (ok a) = true
is_ok (err e) = false

-- an absent identity agrees with any other
abbrev pub may_agree : Option Identity → Option Identity → Bool
may_agree none b = true
may_agree (some a) none = true
may_agree (some a) (some b) = same_identity a b

is_ok-then {ℓ κ μ} :
    {E : Type ℓ} {A : Type κ} {B : Type μ} (m : Result E A) (f : A → B)
    → is_ok (m >>= λ a. ok (f a)) ≡ is_ok m
is_ok-then (ok a) f = refl
is_ok-then (err e) f = refl

may_agree-none : (o : Option Identity) → may_agree o none ≡ true
may_agree-none none = refl
may_agree-none (some a) = refl

same_identity_trans :
    (a b c : Identity) → same_identity a b ≡ true → same_identity b c ≡ same_identity a c
same_identity_trans (text_identity s) (text_identity t) (text_identity u) h =
    ap (λ x. text_eq.beq x u) (sym ((text_eq.beq_iff s t).0 h))
same_identity_trans (number_identity n) (number_identity m) (number_identity k) h = ground arith
same_identity_trans (number_identity n) (number_identity m) (text_identity k) h = refl
same_identity_trans (text_identity n) (text_identity m) (number_identity k) h = refl
same_identity_trans (text_identity s) (number_identity n) c h = cc
same_identity_trans (number_identity n) (text_identity s) c h = cc

and_assoc : (a b c : Bool) → ((a && b) && c) ≡ (a && (b && c))
and_assoc true b c = refl
and_assoc false b c = refl

and-true : (b : Bool) → (b && true) ≡ b
and-true true = refl
and-true false = refl

note_overload-cases :
    (name : Text) (o : Option Identity) (overloads : Overloads)
    → ((may_agree (get overloads name) o ≡ true)
        × (noted : Overloads) × (note_overload name o overloads ≡ ok noted))
      ⊎ ((may_agree (get overloads name) o ≡ false)
          × (note_overload name o overloads ≡ err (overloaded name)))
unfolding note_overload agrees
note_overload-cases name none overloads = inl (may_agree-none (get overloads name), overloads, refl)
note_overload-cases name (some a) overloads = elim (Option-cases (get overloads name)) [
  | inl e ↦ rw e (inl (refl, _, refl))
  | inr (p, e) ↦ rw e (elim (Bool-cases (same_identity p a)) [
    | inl yes' ↦ rw yes' (inl (refl, _, refl))
    | inr no' ↦ rw no' (inr (refl, refl))
  ])
]

note_overload-some :
    (name : Text) (a : Identity) (overloads noted : Overloads)
    → note_overload name (some a) overloads ≡ ok noted
    → (agrees (get overloads name) a ≡ true) × (put overloads name a ≡ noted)
unfolding note_overload
note_overload-some name a overloads noted h = elim (Bool-cases (agrees (get overloads name) a)) [
  | inl yes' ↦ (yes', ok-inj (rw yes' at h))
  | inr no' ↦ absurd (err-neq-ok (rw no' at h))
]

may_agree-same :
    (prev : Option Identity) (a : Identity) (b : Option Identity)
    → agrees prev a ≡ true
    → may_agree (some a) b ≡ (may_agree prev b && may_agree (some a) b)
unfolding agrees
may_agree-same none a b h = refl
may_agree-same (some p) a none h = refl
may_agree-same (some p) a (some b) h = ground (arith, same_identity_trans p a b h)

put-fits :
    (name other : Text) (a : Identity) (b : Option Identity) (overloads : Overloads)
    → agrees (get overloads name) a ≡ true
    → may_agree (get (put overloads name a) other) b ≡ (
        may_agree (get overloads other) b && (not (text_eq.beq name other) || may_agree (some a) b))
put-fits name other a b overloads agreed = elim (Bool-cases (text_eq.beq name other)) [
  | inl yes' ↦
      let same : name ≡ other = (text_eq.beq_iff name other).0 yes' in
      ap (λ o. may_agree o b) (get-put overloads name a other)
      ∙ rw (yes', sym same) (may_agree-same (get overloads name) a b agreed)
  | inr no' ↦
      ap (λ o. may_agree o b) (get-put overloads name a other)
      ∙ rw no' (sym (and-true (may_agree (get overloads other) b)))
]

note_overload-fits :
    (name other : Text) (a b : Option Identity) (overloads noted : Overloads)
    → note_overload name a overloads ≡ ok noted
    → may_agree (get noted other) b
      ≡ (may_agree (get overloads other) b && (not (text_eq.beq name other) || may_agree a b))
unfolding note_overload agrees
note_overload-fits name other none b overloads noted h = ground (arith)
note_overload-fits name other (some a) b overloads noted h =
    let (agreed, stored) = note_overload-some name a overloads noted h in
    ap (λ m. may_agree (get m other) b) (sym stored) ∙ put-fits name other a b overloads agreed

module _ (procedure_list_base : List Text) (package_name : Text) (packages_length : ℕ)
    (options : MetadataOptions) where
  abbrev configured : Argument → Bool
  configured item =
      is_configured procedure_list_base package_name packages_length options
        (to_lower_case item.procedure_name)

  -- The reference: no two rows of one configured procedure have identities that differ.
  abbrev pub compatible : Argument → Argument → Bool
  compatible i j =
      not (text_eq.beq (to_lower_case i.procedure_name) (to_lower_case j.procedure_name))
      || may_agree (options.get_overload_identity i) (options.get_overload_identity j)

  abbrev pub all_compatible : List Argument → Bool
  all_compatible [] = true
  all_compatible (i ∷ items) =
      (not (configured i) || all (λ j. not (configured j) || compatible i j) items)
      && all_compatible items

  abbrev fits : Overloads → Argument → Bool
  fits overloads j =
      not (configured j)
      || may_agree (get overloads (to_lower_case j.procedure_name))
          (options.get_overload_identity j)

  all-fits :
      (overloads noted : Overloads) (i : Argument) (items : List Argument)
      → note_overload (to_lower_case i.procedure_name) (options.get_overload_identity i) overloads
        ≡ ok noted
      → all (fits noted) items
        ≡ (all (fits overloads) items && all (λ j. not (configured j) || compatible i j) items)
  all-fits overloads noted i [] h = refl
  all-fits overloads noted i (j ∷ items) h =
      let rest = all-fits overloads noted i items h in
      let one =
        note_overload-fits (to_lower_case i.procedure_name) (to_lower_case j.procedure_name)
          (options.get_overload_identity i) (options.get_overload_identity j) overloads noted h in
      ground arith

  all-fits_nil : (items : List Argument) → all (fits []) items ≡ true
  unfolding get
  all-fits_nil [] = refl
  all-fits_nil (i ∷ items) = ground (arith, all-fits_nil items)

  is_ok-collect :
      (items : List Argument) (overloads : Overloads) (procedures : ProcedureList)
      → is_ok (
          collect procedure_list_base package_name packages_length options items overloads
            procedures)
        ≡ (all (fits overloads) items && all_compatible items)
  unfolding collect
  is_ok-collect [] overloads procedures = refl
  is_ok-collect (item ∷ items) overloads procedures =
      let name = to_lower_case item.procedure_name in
      elim (Bool-cases (configured item)) [
        | inl yes' ↦
            elim (note_overload-cases name (options.get_overload_identity item) overloads) [
              | inl (free, noted, e) ↦
                  rw (yes', e, free)
                    (is_ok-collect items noted
                        (add_argument options.no_argument_sentinel name item procedures)
                      ∙ ap (λ b. b && all_compatible items) (all-fits overloads noted item items e)
                      ∙ and_assoc (all (fits overloads) items)
                          (all (λ j. not (configured j) || compatible item j) items)
                          (all_compatible items))
              | inr (clash, e) ↦ rw (yes', e, clash) refl
            ]
        | inr no' ↦ rw no' (is_ok-collect items overloads procedures ∙ refl)
      ]

  -- The rows are accepted exactly if no two rows of one configured procedure have overload identities
  -- that differ; a row without an identity agrees with every other.
  pub is_ok-normalize :
      (raw_arguments : List Argument)
      → is_ok (normalize procedure_list_base package_name packages_length options raw_arguments)
        ≡ all_compatible raw_arguments
  unfolding normalize get
  is_ok-normalize raw_arguments =
      is_ok-then
        (collect procedure_list_base package_name packages_length options raw_arguments [] []) _
      ∙ is_ok-collect raw_arguments [] []
      ∙ ap (λ b. b && all_compatible raw_arguments) (all-fits_nil raw_arguments)
