-- ===== src/PostgresSerializer.antt =====
-- src/adapters/postgres/postgre-serializer.ts: the serializers that the PostgreSQL driver calls. The
-- driver's `TypeOverrides` is the record `TypeOverrides`, its type numbers the record `Builtins`.
-- Log messages are left out.
pub mod Consistent
pub mod Runs
mod Tests
use typeorm_procedure_kit.Common.{
  ℕ, ◌≡◌, Bool, Option, none, some, List, [], ◌∷◌, ◌++◌, contains, nat_beq, nat_eq, if◌then◌else◌,
}
use typeorm_procedure_kit.Serializer.{
  SerializerType, date_type, timestamp_type, timestamp_tz_type, timestamp_ltz_type, boolean_type,
  char_type, varchar_type, json_type, binary_type, xml_type, Registry, entry, register_serializer,
  unregister_serializer, clear_serializer_registry, has_serializer, registered_serializer_types,
}

-- `types.builtins` of the driver
pub record Builtins : Type 0 where
  pub bytea : ℕ
  pub bool : ℕ
  pub char : ℕ
  pub date : ℕ
  pub varchar : ℕ
  pub json : ℕ
  pub jsonb : ℕ
  pub timestamp : ℕ
  pub timestamptz : ℕ
  pub xml : ℕ

-- The parser of a type number: the driver's own, or the closure over `serializeValue` for a type.
pub data Parser : Type 0 where
  default_parser : Parser
  serializer_parser : SerializerType → Parser

-- What is used of the driver's class: after `setTypeParser`, `getTypeParser` returns the new parser for
-- this number, and what it returned before for the others.
pub record TypeOverrides : Type 1 where
  pub Store : Type 0
  pub empty_store : Store
  pub set_type_parser : Store → ℕ → Parser → Store
  pub get_type_parser : Store → ℕ → Parser
  pub get-empty : (oid : ℕ) → get_type_parser empty_store oid ≡ default_parser
  pub get-set :
      (s : Store) (oid : ℕ) (p : Parser) (other : ℕ)
      → get_type_parser (set_type_parser s oid p) other
        ≡ (if nat_beq oid other then p else get_type_parser s other)

module _ (builtins : Builtins) where
  -- OBJECT_TYPE_CAST
  unfoldable pub object_type_cast : SerializerType → List ℕ
  object_type_cast binary_type = builtins.bytea ∷ []
  object_type_cast boolean_type = builtins.bool ∷ []
  object_type_cast char_type = builtins.char ∷ []
  object_type_cast date_type = builtins.date ∷ []
  object_type_cast varchar_type = builtins.varchar ∷ []
  object_type_cast json_type = builtins.json ∷ builtins.jsonb ∷ []
  object_type_cast timestamp_type = builtins.timestamp ∷ []
  object_type_cast timestamp_tz_type = builtins.timestamptz ∷ []
  object_type_cast timestamp_ltz_type = builtins.timestamptz ∷ []
  object_type_cast xml_type = builtins.xml ∷ []

  -- the keys of `defaultTypeParsers`, some of them twice
  abbrev pub default_type_parsers : List ℕ
  default_type_parsers =
      builtins.bytea ∷ builtins.bool ∷ builtins.char ∷ builtins.date ∷ builtins.varchar
      ∷ builtins.json ∷ builtins.jsonb ∷ builtins.timestamp ∷ builtins.timestamptz
      ∷ builtins.timestamptz ∷ builtins.xml ∷ []

module _ (builtins : Builtins) (overrides : TypeOverrides) where
  pub record State : Type 0 where
    pub registry : Registry
    pub parsers : overrides.Store

  -- set one parser for each of the numbers
  unfoldable pub set_parsers : Parser → List ℕ → overrides.Store → overrides.Store
  set_parsers p [] s = s
  set_parsers p (oid ∷ oids) s = set_parsers p oids (overrides.set_type_parser s oid p)

  unfoldable pub register_type_parser : SerializerType → overrides.Store → overrides.Store
  unfolding set_parsers object_type_cast
  register_type_parser t s = set_parsers (serializer_parser t) (object_type_cast builtins t) s

  unfoldable pub set_serializer : SerializerType → ℕ → State → State
  unfolding register_type_parser register_serializer unregister_serializer has_serializer
  set_serializer t strategy q =
      let free =
        if has_serializer t q.registry then unregister_serializer t q.registry else q.registry in
      record {
        registry = register_serializer t strategy free;
        parsers = register_type_parser t q.parsers;
      }

  -- registeredSerializerTypes.find(…)
  unfoldable pub find_replacement : ℕ → List SerializerType → Option SerializerType
  unfolding object_type_cast
  find_replacement oid [] = none
  find_replacement oid (t ∷ more) =
      let rest = find_replacement oid more in
      if contains oid (object_type_cast builtins t) then some t else rest

  unfoldable pub replace_parser : ℕ → Option SerializerType → overrides.Store → overrides.Store
  unfolding register_type_parser
  replace_parser oid (some t) s = register_type_parser t s
  replace_parser oid none s = overrides.set_type_parser s oid default_parser

  unfoldable pub release_parsers : Registry → List ℕ → overrides.Store → overrides.Store
  unfolding replace_parser find_replacement registered_serializer_types
  release_parsers r [] s = s
  release_parsers r (oid ∷ oids) s =
      release_parsers r oids
        (replace_parser oid (find_replacement oid (registered_serializer_types r)) s)

  unfoldable pub delete_serializer : SerializerType → State → State
  unfolding release_parsers unregister_serializer has_serializer object_type_cast
  delete_serializer t q =
      let left =
        if has_serializer t q.registry then unregister_serializer t q.registry else q.registry in
      record {
        registry = left;
        parsers = release_parsers left (object_type_cast builtins t) q.parsers;
      }

  unfoldable pub delete_all_serializers : State → State
  unfolding clear_serializer_registry set_parsers
  delete_all_serializers q = record {
    registry = clear_serializer_registry q.registry;
    parsers = set_parsers default_parser (default_type_parsers builtins) q.parsers;
  }

abbrev pub empty_registry : Registry
empty_registry = record {
  date = none;
  timestamp = none;
  timestamp_tz = none;
  timestamp_ltz = none;
  boolean = none;
  char = none;
  varchar = none;
  json = none;
  binary = none;
  xml = none;
}

-- the public operations that change the state
pub data Command : Type 0 where
  set_command : SerializerType → ℕ → Command
  delete_command : SerializerType → Command
  delete_all_command : Command
