-- ===== src/Execute.antt =====
-- src/core/execute-base.ts, and the release of src/core/connection-base.ts: how a query gets a
-- connection, runs, and gives the connection back. What the connection pool, the adapter and the logger
-- do is an argument.
pub mod Released
pub mod Returned
mod Tests
use typeorm_procedure_kit.Common.{
  ℕ, ◌≡◌, Bool, true, false, not, ◌&&◌, Option, none, some, List, [], ◌∷◌, ◌++◌, nat_beq,
  if◌then◌else◌, Result, ok, err, ◌>>=◌, ◌>>◌,
}
use typeorm_procedure_kit.ErrorHandler.{
  Fault, ensure_server_error, aggregate_fault, Response, check_for_database_error,
}
use typeorm_procedure_kit.Connection.{
  Pool, Mode, Event, acquire, connection_released, use_started, timer_success, timer_error,
}

-- `releaseEntityManager` of the connection, and then of `ExecuteBase`: `operation_error` if there is one
unfoldable pub release_result : Result Fault (Unit {0}) → Option Fault → Result Fault (Unit {0})
release_result (ok u) operation_error = ok tt
release_result (err e) none = err e
release_result (err e) (some f) = err (aggregate_fault f e)

-- `try { … } catch { … } finally { … }`: an error of `finally` replaces the outcome
unfoldable pub finally_result {ℓ} :
    {A : Type ℓ} → Result Fault (Unit {0}) → Result Fault A → Result Fault A
finally_result (ok u) m = m
finally_result (err e) m = err e

abbrev pub error_of {ℓ} : {A : Type ℓ} → Result Fault A → Option Fault
error_of (ok a) = none
error_of (err e) = some e

abbrev pub catch {ℓ} : {A : Type ℓ} → Result Fault A → Result Fault A
catch (ok a) = ok a
catch (err e) = err (ensure_server_error e)

abbrev timer_event {ℓ} : {A : Type ℓ} → Result Fault A → Event
timer_event (ok a) = timer_success
timer_event (err e) = timer_error

-- the `try` with its `catch` and `finally`, on the connection
unfoldable pub run_operation {ℓ} :
    {A : Type ℓ} → Pool → Result Fault A → List Event × Result Fault A
unfolding release_result finally_result
run_operation pool m =
    let outcome = catch m in
    (
      use_started ∷ timer_event m ∷ connection_released ∷ [],
      finally_result (release_result pool.release (error_of outcome)) outcome,
    )

unfoldable pub with_connection {ℓ} :
    {A : Type ℓ}
    → Pool
    → Result Fault A
    → List Event × Result Fault (Unit {0})
    → List Event × Result Fault A
unfolding run_operation
with_connection pool m (events, ok u) =
    let (more, result) = run_operation pool m in (events ++ more, result)
with_connection pool m (events, err e) = (events, err e)

-- The adapter's outcome: the rows, as the response that is checked.
unfoldable pub checked_rows : Result Fault Response → Result Fault Response
unfolding check_for_database_error
checked_rows m = do result ← m; check_for_database_error result; ok result

unfoldable pub execute : Pool → Mode → Result Fault Response → List Event × Result Fault Response
unfolding with_connection checked_rows acquire
execute pool mode adapter = with_connection pool (checked_rows adapter) (acquire pool mode)

-- the rows and the output bindings
unfoldable pub checked_procedure :
    Result Fault (Response × Response) → Result Fault (Response × Response)
unfolding check_for_database_error
checked_procedure m = do
  result ← m
  check_for_database_error result.0
  check_for_database_error result.1
  ok result

unfoldable pub execute_procedure :
    Pool
    → Mode
    → Result Fault (Response × Response)
    → List Event × Result Fault (Response × Response)
unfolding with_connection checked_procedure acquire
execute_procedure pool mode adapter =
    with_connection pool (checked_procedure adapter) (acquire pool mode)
