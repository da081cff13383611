-- ===== src/Execute/Tests.antt =====
-- The theorems on queries, at a pool whose release fails.
use typeorm_procedure_kit.Common.{◌≡◌, ◌↔◌, refl, true, false, some, Result, ok, err}
use typeorm_procedure_kit.ErrorHandler.{Fault, error_fault, Response, plain}
use typeorm_procedure_kit.Connection.{Pool, slave, acquire, open_runner, check_manager}
use typeorm_procedure_kit.Execute.{execute, execute_procedure}
use typeorm_procedure_kit.Execute.Released.{follows, idle, execute-follows}
use typeorm_procedure_kit.Execute.Returned.{IsClean, IsConnected, execute_procedure-ok_iff}

abbrev failing_release : Pool
failing_release = record {
  is_initialized = true;
  slaves = some 0;
  create_query_runner = ok tt;
  connect = ok tt;
  is_manager_initialized = true;
  is_released = false;
  release = err (error_fault 3);
}

execute-follows_example :
    follows idle (execute failing_release slave (err (error_fault 1))).0 ≡ true
execute-follows_example = execute-follows failing_release slave (err (error_fault 1)) refl

-- a pool whose connections can be had and released
abbrev working : Pool
working = record failing_release { release = ok tt }

execute_procedure-ok_iff_example :
    ((execute_procedure working slave (ok (plain, plain))).1 ≡ ok (plain, plain)) ↔ (
      IsConnected working
      × (◌≡◌ {A = Result Fault (Response × Response)} (ok (plain, plain)) (ok (plain, plain)))
      × (IsClean plain × IsClean plain)
      × (working.release ≡ ok tt))
execute_procedure-ok_iff_example =
    execute_procedure-ok_iff working slave (ok (plain, plain)) (plain, plain)

returned : (execute working slave (ok plain)).1 ≡ ok plain
unfolding execute acquire open_runner check_manager
returned = refl
