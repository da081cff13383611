-- ===== src/PostgresSerializer/Consistent.antt =====
-- src/adapters/postgres/postgre-serializer.ts: the parsers of the driver, against the registry.
use typeorm_procedure_kit.Common.{
  ℕ, ◌≡◌, refl, sym, arith, true, false, inl, inr, Option, none, some, Option-cases, Bool-cases,
  ◌∙◌, List, [], ◌∷◌, contains, nat_beq, nat_eq, if◌then◌else◌, is_some,
}
use typeorm_procedure_kit.Serializer.{
  SerializerType, Registry, entry, unregister_serializer, clear_serializer_registry, has_serializer,
  registered_serializer_types, type_beq,
}
use typeorm_procedure_kit.Serializer.Registered.{
  entry-register_serializer, entry-unregister_serializer, entry-clear_serializer_registry,
  contains-registered_serializer_types, type_beq_iff, type_eq,
}
use typeorm_procedure_kit.PostgresSerializer.{
  Builtins, TypeOverrides, Parser, default_parser, serializer_parser, object_type_cast,
  default_type_parsers, State, set_parsers, register_type_parser, set_serializer, find_replacement,
  replace_parser, release_parsers, delete_serializer, delete_all_serializers,
}

outside-cons :
    (o oid : ℕ) (oids covered : List ℕ)
    → contains o covered ≡ true
    → contains oid covered ≡ false
    → contains oid oids ≡ false
    → contains oid (o ∷ oids) ≡ false
outside-cons o oid oids covered inside outside other = elim (Bool-cases (nat_beq o oid)) [
  | inl yes' ↦
      let same : o ≡ oid = ground arith in
      let bad : contains oid covered ≡ true = rw (sym same) inside in cc
  | inr no' ↦ rw no' other
]

module _ (builtins : Builtins) (overrides : TypeOverrides) where
  abbrev Covers : SerializerType → ℕ → Type 0
  Covers t oid = contains oid (object_type_cast builtins t) ≡ true

  -- a parser that may stand at a type number
  abbrev pub Fits : Registry → ℕ → Parser → Type 0
  Fits r oid default_parser = (t : SerializerType) → Covers t oid → entry t r ≡ none
  Fits r oid (serializer_parser t) = Covers t oid × (is_some (entry t r) ≡ true)

  -- Each type number that a registered type covers is parsed by a registered type that covers it, and
  -- any other by the driver.
  abbrev pub IsConsistent : State builtins overrides → Type 0
  IsConsistent q = (oid : ℕ) → Fits q.registry oid (overrides.get_type_parser q.parsers oid)

  get-set_parsers :
      (p : Parser) (oids : List ℕ) (s : overrides.Store) (oid : ℕ)
      → overrides.get_type_parser (set_parsers builtins overrides p oids s) oid
        ≡ (if contains oid oids then p else overrides.get_type_parser s oid)
  unfolding set_parsers
  get-set_parsers p [] s oid = refl
  get-set_parsers p (o ∷ oids) s oid = ground (
    arith,
    get-set_parsers p oids (overrides.set_type_parser s o p) oid,
    overrides.get-set s o p oid,
  )

  entry-set :
      (t : SerializerType) (strategy : ℕ) (q : State builtins overrides) (u : SerializerType)
      → entry u (set_serializer builtins overrides t strategy q).registry
        ≡ (if type_beq t u then some strategy else entry u q.registry)
  unfolding set_serializer
  entry-set t strategy q u = elim (Bool-cases (has_serializer t q.registry)) [
    | inl yes' ↦
        rw
          (
            yes',
            entry-register_serializer t strategy (unregister_serializer t q.registry) u,
            entry-unregister_serializer t q.registry u,
          )
          (ground arith)
    | inr no' ↦ rw (no', entry-register_serializer t strategy q.registry u) refl
  ]

  entry-deleted :
      (t : SerializerType) (q : State builtins overrides) (u : SerializerType)
      → entry u (delete_serializer builtins overrides t q).registry
        ≡ (if type_beq t u then none else entry u q.registry)
  unfolding delete_serializer has_serializer
  entry-deleted t q u = elim (Bool-cases (has_serializer t q.registry)) [
    | inl yes' ↦ rw (yes', entry-unregister_serializer t q.registry u) refl
    | inr no' ↦ rw no' (ground (arith, type_beq_iff t u))
  ]

  Fits-set :
      (t : SerializerType) (strategy : ℕ) (q : State builtins overrides) (oid : ℕ) (p : Parser)
      → contains oid (object_type_cast builtins t) ≡ false
      → Fits q.registry oid p
      → Fits (set_serializer builtins overrides t strategy q).registry oid p
  Fits-set t strategy q oid default_parser other h =
      λ u covers. rw (entry-set t strategy q u) (ground (arith, type_beq_iff t u, h u covers))
  Fits-set t strategy q oid (serializer_parser u) other (covers, there) =
      (covers, rw (entry-set t strategy q u) (ground arith))

  parser-set :
      (t : SerializerType) (strategy : ℕ) (q : State builtins overrides) (oid : ℕ)
      → overrides.get_type_parser (set_serializer builtins overrides t strategy q).parsers oid ≡ (
          if contains oid (object_type_cast builtins t)
          then serializer_parser t
          else overrides.get_type_parser q.parsers oid)
  unfolding set_serializer register_type_parser
  parser-set t strategy q oid =
      get-set_parsers (serializer_parser t) (object_type_cast builtins t) q.parsers oid

  -- Setting a serializer keeps the driver's parsers in agreement with the registry.
  pub set_serializer-IsConsistent :
      (t : SerializerType) (strategy : ℕ) (q : State builtins overrides)
      → IsConsistent q
      → IsConsistent (set_serializer builtins overrides t strategy q)
  set_serializer-IsConsistent t strategy q h oid =
      elim (Bool-cases (contains oid (object_type_cast builtins t))) [
        | inl yes' ↦
            rw (parser-set t strategy q oid, yes')
              (yes', rw (entry-set t strategy q t) (ground (arith, (type_beq_iff t t).1 refl)))
        | inr no' ↦
            rw (parser-set t strategy q oid, no')
              (Fits-set t strategy q oid (overrides.get_type_parser q.parsers oid) no' (h oid))
      ]

  find-some :
      (oid : ℕ) (ts : List SerializerType) (t : SerializerType)
      → find_replacement builtins overrides oid ts ≡ some t
      → (contains t ts ≡ true) × Covers t oid
  unfolding find_replacement
  find-some oid [] t h = cc
  find-some oid (u ∷ ts) t h = elim (Bool-cases (contains oid (object_type_cast builtins u))) [
    | inl yes' ↦ let same : some u ≡ some t = rw yes' at h in ground (arith, (type_beq_iff u t).1)
    | inr no' ↦ let (there, covers) = find-some oid ts t (rw no' at h) in (ground arith, covers)
  ]

  find-none :
      (oid : ℕ) (ts : List SerializerType) (t : SerializerType)
      → find_replacement builtins overrides oid ts ≡ none
      → contains t ts ≡ true
      → contains oid (object_type_cast builtins t) ≡ false
  unfolding find_replacement
  find-none oid [] t h there = cc
  find-none oid (u ∷ ts) t h there =
      elim (Bool-cases (contains oid (object_type_cast builtins u))) [
        | inl yes' ↦ let bad : some u ≡ none = rw yes' at h in cc
        | inr no' ↦ elim (Bool-cases (type_beq u t)) [
          | inl same ↦ rw (sym ((type_beq_iff u t).0 same)) no'
          | inr other ↦ find-none oid ts t (rw no' at h) (rw other at there)
        ]
      ]

  Fits-deleted :
      (t : SerializerType) (q : State builtins overrides) (oid : ℕ) (p : Parser)
      → contains oid (object_type_cast builtins t) ≡ false
      → Fits q.registry oid p
      → Fits (delete_serializer builtins overrides t q).registry oid p
  Fits-deleted t q oid default_parser other h =
      λ u covers. rw (entry-deleted t q u) (ground (arith, h u covers))
  Fits-deleted t q oid (serializer_parser u) other (covers, there) =
      (covers, rw (entry-deleted t q u) (ground (arith, type_beq_iff t u)))

  -- the numbers in `oids` are still to be done
  abbrev FitsOutside : Registry → List ℕ → overrides.Store → Type 0
  FitsOutside r oids s =
      (oid : ℕ) → contains oid oids ≡ false → Fits r oid (overrides.get_type_parser s oid)

  replace_parser-some :
      (r : Registry) (o : ℕ) (oids : List ℕ) (s : overrides.Store) (t : SerializerType)
      → is_some (entry t r) ≡ true
      → Covers t o
      → FitsOutside r (o ∷ oids) s
      → FitsOutside r oids (register_type_parser builtins overrides t s)
  unfolding register_type_parser
  replace_parser-some r o oids s t there covers h oid other =
      elim (Bool-cases (contains oid (object_type_cast builtins t))) [
        | inl yes' ↦
            rw (get-set_parsers (serializer_parser t) (object_type_cast builtins t) s oid, yes')
              (yes', there)
        | inr no' ↦
            rw (get-set_parsers (serializer_parser t) (object_type_cast builtins t) s oid, no')
              (h oid (outside-cons o oid oids (object_type_cast builtins t) covers no' other))
      ]

  replace_parser-none :
      (r : Registry) (o : ℕ) (oids : List ℕ) (s : overrides.Store)
      → ((t : SerializerType) → Covers t o → entry t r ≡ none)
      → FitsOutside r (o ∷ oids) s
      → FitsOutside r oids (overrides.set_type_parser s o default_parser)
  replace_parser-none r o oids s free h oid other = elim (Bool-cases (nat_beq o oid)) [
    | inl yes' ↦
        let same : o ≡ oid = ground arith in
        rw (overrides.get-set s o default_parser oid, yes') (λ t covers. free t (rw same covers))
    | inr no' ↦ rw (overrides.get-set s o default_parser oid, no') (h oid (ground arith))
  ]

  not_registered :
      (r : Registry) (o : ℕ)
      → find_replacement builtins overrides o (registered_serializer_types r) ≡ none
      → (t : SerializerType) → Covers t o
      → entry t r ≡ none
  not_registered r o h t covers = elim (Option-cases (entry t r)) [
    | inl absent ↦ absent
    | inr (s, found) ↦
        let there : contains t (registered_serializer_types r) ≡ true =
          rw (contains-registered_serializer_types r t, found) refl in
        cc (find-none o (registered_serializer_types r) t h there)
  ]

  replace_parser-FitsOutside :
      (r : Registry) (o : ℕ) (oids : List ℕ) (s : overrides.Store) (m : Option SerializerType)
      → find_replacement builtins overrides o (registered_serializer_types r) ≡ m
      → FitsOutside r (o ∷ oids) s
      → FitsOutside r oids (replace_parser builtins overrides o m s)
  unfolding replace_parser
  replace_parser-FitsOutside r o oids s none found h =
      replace_parser-none r o oids s (not_registered r o found) h
  replace_parser-FitsOutside r o oids s (some t) found h =
      let (there, covers) = find-some o (registered_serializer_types r) t found in
      replace_parser-some r o oids s t (sym (contains-registered_serializer_types r t) ∙ there)
        covers h

  release_parsers-Fits :
      (r : Registry) (oids : List ℕ) (s : overrides.Store)
      → FitsOutside r oids s
      → FitsOutside r [] (release_parsers builtins overrides r oids s)
  unfolding release_parsers
  release_parsers-Fits r [] s h = h
  release_parsers-Fits r (o ∷ oids) s h =
      release_parsers-Fits r oids _ (replace_parser-FitsOutside r o oids s _ refl h)

  -- Deleting a serializer keeps the agreement: its type numbers go to another registered serializer
  -- that covers them, or back to the driver.
  pub delete_serializer-IsConsistent :
      (t : SerializerType) (q : State builtins overrides)
      → IsConsistent q
      → IsConsistent (delete_serializer builtins overrides t q)
  unfolding delete_serializer
  delete_serializer-IsConsistent t q h oid =
      release_parsers-Fits (delete_serializer builtins overrides t q).registry
        (object_type_cast builtins t) q.parsers
        (λ other free.
          Fits-deleted t q other (overrides.get_type_parser q.parsers other) free (h other))
        oid refl

  Covers-default :
      (t : SerializerType) (oid : ℕ)
      → Covers t oid
      → contains oid (default_type_parsers builtins) ≡ true
  unfolding object_type_cast
  Covers-default t oid h = ground arith

  Fits-cleared :
      (r : Registry) (oid : ℕ) (p : Parser)
      → contains oid (default_type_parsers builtins) ≡ false
      → Fits r oid p
      → Fits (clear_serializer_registry r) oid p
  Fits-cleared r oid default_parser other h = λ u covers. entry-clear_serializer_registry r u
  Fits-cleared r oid (serializer_parser u) other (covers, there) = cc (Covers-default u oid covers)

  -- Deleting every serializer keeps the agreement.
  pub delete_all_serializers-IsConsistent :
      (q : State builtins overrides)
      → IsConsistent q
      → IsConsistent (delete_all_serializers builtins overrides q)
  unfolding delete_all_serializers
  delete_all_serializers-IsConsistent q h oid =
      elim (Bool-cases (contains oid (default_type_parsers builtins))) [
        | inl yes' ↦
            rw (get-set_parsers default_parser (default_type_parsers builtins) q.parsers oid, yes')
              (λ u covers. entry-clear_serializer_registry q.registry u)
        | inr no' ↦
            rw (get-set_parsers default_parser (default_type_parsers builtins) q.parsers oid, no')
              (Fits-cleared q.registry oid (overrides.get_type_parser q.parsers oid) no' (h oid))
      ]
