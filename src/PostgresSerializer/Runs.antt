-- ===== src/PostgresSerializer/Runs.antt =====
-- Sequences of operations on a new serializer.
use typeorm_procedure_kit.Common.{arith, List, [], ◌∷◌, nat_eq}
use typeorm_procedure_kit.Serializer.{entry}
use typeorm_procedure_kit.PostgresSerializer.{
  Builtins, TypeOverrides, State, set_serializer, delete_serializer, delete_all_serializers,
  empty_registry, Command, set_command, delete_command, delete_all_command,
}
use typeorm_procedure_kit.PostgresSerializer.Consistent.{
  IsConsistent, set_serializer-IsConsistent, delete_serializer-IsConsistent,
  delete_all_serializers-IsConsistent,
}

module _ (builtins : Builtins) (overrides : TypeOverrides) where
  abbrev pub new_state : State builtins overrides
  new_state = record { registry = empty_registry; parsers = overrides.empty_store }

  unfoldable pub run_command : Command → State builtins overrides → State builtins overrides
  unfolding set_serializer delete_serializer delete_all_serializers
  run_command (set_command t s) q = set_serializer builtins overrides t s q
  run_command (delete_command t) q = delete_serializer builtins overrides t q
  run_command delete_all_command q = delete_all_serializers builtins overrides q

  unfoldable pub run_commands : List Command → State builtins overrides → State builtins overrides
  unfolding run_command
  run_commands [] q = q
  run_commands (c ∷ cs) q = run_commands cs (run_command c q)

  new_state-IsConsistent : IsConsistent builtins overrides new_state
  new_state-IsConsistent oid =
      rw (overrides.get-empty oid) (λ t covers. unfold entry in ground arith)

  run_command-IsConsistent :
      (c : Command) (q : State builtins overrides)
      → IsConsistent builtins overrides q
      → IsConsistent builtins overrides (run_command c q)
  unfolding run_command
  run_command-IsConsistent (set_command t s) q h =
      set_serializer-IsConsistent builtins overrides t s q h
  run_command-IsConsistent (delete_command t) q h =
      delete_serializer-IsConsistent builtins overrides t q h
  run_command-IsConsistent delete_all_command q h =
      delete_all_serializers-IsConsistent builtins overrides q h

  run_commands-IsConsistent_from :
      (cs : List Command) (q : State builtins overrides)
      → IsConsistent builtins overrides q
      → IsConsistent builtins overrides (run_commands cs q)
  unfolding run_commands
  run_commands-IsConsistent_from [] q h = h
  run_commands-IsConsistent_from (c ∷ cs) q h =
      run_commands-IsConsistent_from cs (run_command c q) (run_command-IsConsistent c q h)

  -- After any sequence of operations on a new serializer, the driver parses each type number by a
  -- registered type that covers it, and by its own parser exactly where no registered type does.
  pub run_commands-IsConsistent :
      (cs : List Command) → IsConsistent builtins overrides (run_commands cs new_state)
  run_commands-IsConsistent cs = run_commands-IsConsistent_from cs new_state new_state-IsConsistent
