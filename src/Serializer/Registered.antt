-- ===== src/Serializer/Registered.antt =====
-- src/adapters/abstract/database-serializer.ts: the entries of the registry.
use typeorm_procedure_kit.Common.{
  ℕ, ◌≡◌, ◌↔◌, arith, true, none, some, if◌then◌else◌, is_some, Eq, contains,
}
use typeorm_procedure_kit.Serializer.{
  SerializerType, Registry, entry, register_serializer, unregister_serializer,
  clear_serializer_registry, has_serializer, registered_serializer_types, keep_registered, type_beq,
  type_index,
}

pub type_beq_iff : (t u : SerializerType) → (type_beq t u ≡ true) ↔ (t ≡ u)
unfolding type_beq type_index
type_beq_iff t u = ground arith

instance abbrev pub type_eq : Eq SerializerType
type_eq = record { beq = type_beq; beq_iff = type_beq_iff }

-- Registering a serializer replaces the entry of its type, and no other.
pub entry-register_serializer :
    (t : SerializerType) (s : ℕ) (r : Registry) (u : SerializerType)
    → entry u (register_serializer t s r) ≡ (if type_beq t u then some s else entry u r)
unfolding entry register_serializer type_beq type_index
entry-register_serializer t s r u = ground arith

pub entry-unregister_serializer :
    (t : SerializerType) (r : Registry) (u : SerializerType)
    → entry u (unregister_serializer t r) ≡ (if type_beq t u then none else entry u r)
unfolding entry unregister_serializer type_beq type_index
entry-unregister_serializer t r u = ground arith

pub entry-clear_serializer_registry :
    (r : Registry) (u : SerializerType) → entry u (clear_serializer_registry r) ≡ none
unfolding entry clear_serializer_registry unregister_serializer
entry-clear_serializer_registry r u = ground arith

-- The registered types are those that have an entry.
pub contains-registered_serializer_types :
    (r : Registry) (t : SerializerType)
    → contains t (registered_serializer_types r) ≡ is_some (entry t r)
unfolding registered_serializer_types keep_registered has_serializer entry type_beq type_index
contains-registered_serializer_types r t = ground arith
