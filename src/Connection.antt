-- ===== src/Connection.antt =====
-- src/core/connection-base.ts: taking an entity manager from the pool.
use typeorm_procedure_kit.Common.{
  ℕ, Bool, false, not, Option, none, some, List, [], ◌∷◌, ◌++◌, nat_beq, if◌then◌else◌, Result, ok,
  err,
}
use typeorm_procedure_kit.Common.Text.{codes}
use typeorm_procedure_kit.ErrorHandler.{Fault, server_fault, aggregate_fault}

pub data Mode : Type 0 where
  master slave : Mode

-- What the data source and the query runner answer during one call; `slaves` is the number of configured
-- slaves, `none` without replication.
pub record Pool : Type 0 where
  pub is_initialized : Bool
  pub slaves : Option ℕ
  pub create_query_runner : Result Fault (Unit {0})
  pub connect : Result Fault (Unit {0})
  pub is_manager_initialized : Bool
  pub is_released : Bool
  pub release : Result Fault (Unit {0})

pub data Event : Type 0 where
  slave_warning runner_created connection_released use_started timer_success timer_error : Event

unfoldable pub has_slaves : Option ℕ → Bool
has_slaves none = false
has_slaves (some n) = not (nat_beq n 0)

unfoldable pub warn_when_slave_mode_falls_back_to_master : Pool → Mode → List Event
unfolding has_slaves
warn_when_slave_mode_falls_back_to_master pool master = []
warn_when_slave_mode_falls_back_to_master pool slave =
    if has_slaves pool.slaves then [] else slave_warning ∷ []

abbrev combine : Fault → Result Fault (Unit {0}) → Fault
combine e (ok u) = e
combine e (err cleanup) = aggregate_fault e cleanup

-- the `catch` with a query runner: it is released, unless it is already
unfoldable pub cleanup : Pool → Fault → List Event × Result Fault (Unit {0})
cleanup pool e =
    if pool.is_released
    then ([], err e)
    else (connection_released ∷ [], err (combine e pool.release))

unfoldable pub check_manager : Pool → Result Fault (Unit {0}) → List Event × Result Fault (Unit {0})
unfolding cleanup
check_manager pool (err e) = cleanup pool e
check_manager pool (ok u) =
    if pool.is_manager_initialized
    then ([], ok tt)
    else cleanup pool (server_fault (codes "Connection not initialized"))

unfoldable pub open_runner : Pool → Result Fault (Unit {0}) → List Event × Result Fault (Unit {0})
unfolding check_manager
open_runner pool (err e) = ([], err e)
open_runner pool (ok u) =
    let (events, result) = check_manager pool pool.connect in (runner_created ∷ events, result)

-- `getEntityManager`
unfoldable pub acquire : Pool → Mode → List Event × Result Fault (Unit {0})
unfolding open_runner warn_when_slave_mode_falls_back_to_master
acquire pool mode =
    if pool.is_initialized
    then (let (events, result) = open_runner pool pool.create_query_runner in
        (warn_when_slave_mode_falls_back_to_master pool mode ++ events, result))
    else ([], err (server_fault (codes "Connection to Database not established")))
