-- ===== src/Execute/Returned.antt =====
-- src/core/execute-base.ts: when a query or a procedure call returns.
use typeorm_procedure_kit.Common.{
  ◌≡◌, ◌≢◌, ◌↔◌, ◌⊎◌, refl, sym, ◌∙◌, true, List, Result, ok, err, ◌>>◌, >>=-eq-ok, inl, inr,
  Bool-cases, Option-cases, ok-inj,
}
use mathlib.Core.Path.{subst}
use typeorm_procedure_kit.Value.{Value}
use typeorm_procedure_kit.ErrorHandler.{
  Fault, Response, plain, array, object, no_rows, row, error_code_keys, error_text_keys, find_value,
  is_failure, check_for_database_error, database_fault,
}
use typeorm_procedure_kit.ErrorHandler.Envelope.{Fails, check_for_database_error_iff}
use typeorm_procedure_kit.Connection.{
  Pool, Mode, Event, acquire, open_runner, check_manager, cleanup,
}
use typeorm_procedure_kit.Execute.{
  with_connection, run_operation, execute_procedure, release_result, finally_result,
  checked_procedure, catch, error_of,
}

-- a response that is no error envelope
abbrev pub IsClean : Response → Type 0
IsClean r = (code text : Value) → ¬ Fails r code text

-- what `getEntityManager` needs: a data source, a runner, its connection and a manager
pub record IsConnected (pool : Pool) : Type 0 where
  pub initialized : pool.is_initialized ≡ true
  pub created : pool.create_query_runner ≡ ok tt
  pub connected : pool.connect ≡ ok tt
  pub managed : pool.is_manager_initialized ≡ true

-- an error of the check is that of an envelope
check_for_database_error_cases :
    (r : Response)
    → (check_for_database_error r ≡ ok tt)
      ⊎ ((code : Value) × (text : Value) × (check_for_database_error r
            ≡ err (database_fault code text)))
unfolding check_for_database_error
check_for_database_error_cases plain = inl refl
check_for_database_error_cases (array no_rows) = inl refl
check_for_database_error_cases (array (row r no_rows)) = check_for_database_error_cases r
check_for_database_error_cases (array (row r (row q rs))) = inl refl
check_for_database_error_cases (object o) = elim (Option-cases (find_value error_code_keys o)) [
  | inl none' ↦ inl (rw none' refl)
  | inr (code, e) ↦ elim (Option-cases (find_value error_text_keys o)) [
    | inl none' ↦ inl (rw (e, none') refl)
    | inr (text, e') ↦ elim (Bool-cases (is_failure code)) [
      | inl yes' ↦ inr (code, text, rw (e, e', yes') refl)
      | inr no' ↦ inl (rw (e, e', no') refl)
    ]
  ]
]

IsClean-iff : (r : Response) → (check_for_database_error r ≡ ok tt) ↔ IsClean r
IsClean-iff r = (
  (λ h code text fails.
      let raised = (check_for_database_error_iff r code text).1 fails in
      let bad : ◌≡◌ {A = Result Fault (Unit {0})} (ok tt) (err (database_fault code text)) =
        sym h ∙ raised in
      cc),
  (λ clean. elim (check_for_database_error_cases r) [
    | inl h ↦ h
    | inr (code, text, raised) ↦
        absurd (clean code text ((check_for_database_error_iff r code text).0 raised))
  ]),
)

cleanup-fails : (pool : Pool) (e : Fault) → (cleanup pool e).1 ≢ ok tt
unfolding cleanup
cleanup-fails pool e h = elim (Bool-cases pool.is_released) [
  | inl yes' ↦ let bad = rw yes' at h in cc
  | inr no' ↦ let bad = rw no' at h in cc
]

check_manager-ok :
    (pool : Pool) (m : Result Fault (Unit {0}))
    → (check_manager pool m).1 ≡ ok tt
    → (m ≡ ok tt) × (pool.is_manager_initialized ≡ true)
unfolding check_manager
check_manager-ok pool (err e) h = absurd (cleanup-fails pool e h)
check_manager-ok pool (ok u) h = elim (Bool-cases pool.is_manager_initialized) [
  | inl yes' ↦ (refl, yes')
  | inr no' ↦ absurd (cleanup-fails pool _ (rw no' at h))
]

open_runner-ok :
    (pool : Pool) (m : Result Fault (Unit {0}))
    → (open_runner pool m).1 ≡ ok tt
    → (m ≡ ok tt) × (pool.connect ≡ ok tt) × (pool.is_manager_initialized ≡ true)
unfolding open_runner
open_runner-ok pool (err e) h = cc
open_runner-ok pool (ok u) h =
    let (connected, managed) = check_manager-ok pool pool.connect h in (refl, connected, managed)

acquire-IsConnected : (pool : Pool) (mode : Mode) → (acquire pool mode).1 ≡ ok tt → IsConnected pool
unfolding acquire
acquire-IsConnected pool mode h = elim (Bool-cases pool.is_initialized) [
  | inl yes' ↦
      let (created, connected, managed) =
        open_runner-ok pool pool.create_query_runner (rw yes' at h) in
      record { initialized = yes'; created = created; connected = connected; managed = managed }
  | inr no' ↦ let bad = rw no' at h in cc
]

IsConnected-acquire : (pool : Pool) (mode : Mode) → IsConnected pool → (acquire pool mode).1 ≡ ok tt
unfolding acquire open_runner check_manager cleanup
IsConnected-acquire pool mode c = rw (c.initialized, c.created, c.connected, c.managed) refl

-- an operation on a connection returns what it returned if the connection can be released
abbrev Returns : {A : Type 0} → Result Fault A → Result Fault (Unit {0}) → A → Type 0
Returns m release a = (m ≡ ok a) × (release ≡ ok tt)

finally-Returns :
    {A : Type 0} (m : Result Fault A) (release : Result Fault (Unit {0})) (a : A)
    → (finally_result (release_result release (error_of (catch m))) (catch m) ≡ ok a)
      ↔ Returns m release a
unfolding release_result finally_result
finally-Returns (ok b) (ok u) a = ((λ h. (h, refl)), (λ h. h.0))
finally-Returns (ok b) (err e) a = ((λ h. cc), (λ h. cc (h.1)))
finally-Returns (err f) (ok u) a = ((λ h. cc), (λ h. cc (h.0)))
finally-Returns (err f) (err e) a = ((λ h. cc), (λ h. cc (h.0)))

with_connection-ok_iff :
    {A : Type 0} (pool : Pool) (m : Result Fault A) (a : List Event × Result Fault (Unit {0}))
    (x : A)
    → ((with_connection pool m a).1 ≡ ok x) ↔ ((a.1 ≡ ok tt) × Returns m pool.release x)
unfolding with_connection run_operation
with_connection-ok_iff pool m (es, ok u) x =
    let run = finally-Returns m pool.release x in ((λ h. (refl, run.0 h)), (λ h. run.1 h.1))
with_connection-ok_iff pool m (es, err e) x = ((λ h. cc), (λ h. cc (h.0)))

checked_procedure-ok_iff :
    (m : Result Fault (Response × Response)) (r : Response × Response)
    → (checked_procedure m ≡ ok r) ↔ ((m ≡ ok r) × (IsClean r.0 × IsClean r.1))
unfolding checked_procedure
checked_procedure-ok_iff (err e) r = ((λ h. cc), (λ h. cc (h.0)))
checked_procedure-ok_iff (ok q) r = (
  (λ h.
      let (u, first, more) =
        >>=-eq-ok (check_for_database_error q.0) (λ u. check_for_database_error q.1 >> ok q) h in
      let (u', second, done) = >>=-eq-ok (check_for_database_error q.1) (λ u. ok q) more in
      let same : q ≡ r = ok-inj done in
      (
        done,
        subst (λ x. IsClean x.0 × IsClean x.1) same
            ((IsClean-iff q.0).0 first, (IsClean-iff q.1).0 second),
      )),
  (λ h.
      let same : q ≡ r = ok-inj (h.0) in
      let clean : IsClean q.0 × IsClean q.1 =
        subst (λ x. IsClean x.0 × IsClean x.1) (sym same) h.1 in
      rw ((IsClean-iff q.0).1 clean.0, (IsClean-iff q.1).1 clean.1) h.0),
)

-- A procedure call returns rows and output values exactly if a connection can be had, the adapter returned
-- these, neither is an error envelope, and the connection can be released.
pub execute_procedure-ok_iff :
    (pool : Pool) (mode : Mode) (adapter : Result Fault (Response × Response))
    (r : Response × Response)
    → ((execute_procedure pool mode adapter).1 ≡ ok r)
      ↔ (IsConnected pool × (adapter ≡ ok r) × (IsClean r.0 × IsClean r.1) × (pool.release ≡ ok tt))
unfolding execute_procedure
execute_procedure-ok_iff pool mode adapter r =
    let used = with_connection-ok_iff pool (checked_procedure adapter) (acquire pool mode) r in
    let checked = checked_procedure-ok_iff adapter r in
    (
      (λ h.
          let (acquired, (returned, released)) = used.0 h in
          let (same, clean) = checked.0 returned in
          (acquire-IsConnected pool mode acquired, same, clean, released)),
      (λ (connected, same, clean, released).
          used.1 (IsConnected-acquire pool mode connected, (checked.1 (same, clean), released))),
    )
