-- ===== src/Execute/Released.antt =====
-- src/core/execute-base.ts: the life of a query runner.
use typeorm_procedure_kit.Common.{
  ◌≡◌, refl, arith, Bool, true, false, List, [], ◌∷◌, ◌++◌, Result, ok, err, inl, inr, Bool-cases,
  append_assoc,
}
use typeorm_procedure_kit.ErrorHandler.{Fault, Response}
use typeorm_procedure_kit.Connection.{
  Pool, Mode, master, slave, Event, slave_warning, runner_created, connection_released, use_started,
  timer_success, timer_error, acquire, open_runner, check_manager, cleanup,
  warn_when_slave_mode_falls_back_to_master, has_slaves,
}
use typeorm_procedure_kit.Execute.{with_connection, run_operation, execute, checked_rows}

-- the life of a query runner
pub data Phase : Type 0 where
  idle opened used closed : Phase

-- A runner is opened once, used after that, and released once, at the end.
unfoldable pub follows : Phase → List Event → Bool
follows idle [] = true
follows idle (slave_warning ∷ es) = follows idle es
follows idle (runner_created ∷ es) = follows opened es
follows opened (use_started ∷ es) = follows used es
follows opened (connection_released ∷ es) = follows closed es
follows used (timer_success ∷ es) = follows used es
follows used (timer_error ∷ es) = follows used es
follows used (connection_released ∷ es) = follows closed es
follows closed [] = true
follows _ _ = false

run_operation-follows :
    {A : Type 0} (pool : Pool) (m : Result Fault A) → follows opened (run_operation pool m).0 ≡ true
unfolding run_operation follows
run_operation-follows pool (ok a) = refl
run_operation-follows pool (err e) = refl

-- what follows an acquisition that succeeded, or failed
abbrev Continues : List Event × Result Fault (Unit {0}) → Type 0
Continues (es, ok u) =
    (rest : List Event) → follows opened rest ≡ true → follows idle (es ++ rest) ≡ true
Continues (es, err e) = follows idle es ≡ true

warned-follows :
    (pool : Pool) (mode : Mode) (es : List Event)
    → follows idle (warn_when_slave_mode_falls_back_to_master pool mode ++ es) ≡ follows idle es
unfolding warn_when_slave_mode_falls_back_to_master has_slaves follows
warned-follows pool master es = refl
warned-follows pool slave es = ground arith

cleanup-follows :
    (pool : Pool) (e : Fault)
    → pool.is_released ≡ false
    → Continues (runner_created ∷ (cleanup pool e).0, (cleanup pool e).1)
unfolding cleanup follows
cleanup-follows pool e h = rw h refl

check_manager-Continues :
    (pool : Pool) (m : Result Fault (Unit {0}))
    → pool.is_released ≡ false
    → Continues (runner_created ∷ (check_manager pool m).0, (check_manager pool m).1)
unfolding check_manager
check_manager-Continues pool (err e) h = cleanup-follows pool e h
check_manager-Continues pool (ok u) h = elim (Bool-cases pool.is_manager_initialized) [
  | inl yes' ↦ rw yes' (λ rest f. unfold follows in f)
  | inr no' ↦ rw no' (cleanup-follows pool _ h)
]

open_runner-Continues :
    (pool : Pool) (m : Result Fault (Unit {0}))
    → pool.is_released ≡ false
    → Continues (open_runner pool m)
unfolding open_runner
open_runner-Continues pool (err e) h = unfold follows in refl
open_runner-Continues pool (ok u) h = check_manager-Continues pool pool.connect h

Continues-warned :
    (pool : Pool) (mode : Mode) (a : List Event × Result Fault (Unit {0}))
    → Continues a
    → Continues (warn_when_slave_mode_falls_back_to_master pool mode ++ a.0, a.1)
Continues-warned pool mode (es, ok u) h = λ rest f.
    rw
      (
        append_assoc (warn_when_slave_mode_falls_back_to_master pool mode) es rest,
        warned-follows pool mode (es ++ rest),
      )
      (h rest f)
Continues-warned pool mode (es, err e) h = rw (warned-follows pool mode es) h

acquire-Continues :
    (pool : Pool) (mode : Mode) → pool.is_released ≡ false → Continues (acquire pool mode)
unfolding acquire
acquire-Continues pool mode h = elim (Bool-cases pool.is_initialized) [
  | inl yes' ↦ rw yes' (
      Continues-warned pool mode (open_runner pool pool.create_query_runner)
        (open_runner-Continues pool pool.create_query_runner h))
  | inr no' ↦ rw no' (unfold follows in refl)
]

with_connection-follows :
    {A : Type 0} (pool : Pool) (m : Result Fault A) (a : List Event × Result Fault (Unit {0}))
    → Continues a
    → follows idle (with_connection pool m a).0 ≡ true
unfolding with_connection
with_connection-follows pool m (es, ok u) h =
    h (run_operation pool m).0 (run_operation-follows pool m)
with_connection-follows pool m (es, err e) h = h

-- Whatever the pool and the adapter answer, if a runner whose acquisition failed is not released
-- already, then a query opens at most one runner, uses it only while it is open, and releases it once,
-- at the end.
pub execute-follows :
    (pool : Pool) (mode : Mode) (adapter : Result Fault Response)
    → pool.is_released ≡ false
    → follows idle (execute pool mode adapter).0 ≡ true
unfolding execute
execute-follows pool mode adapter h =
    with_connection-follows pool (checked_rows adapter) (acquire pool mode)
      (acquire-Continues pool mode h)
