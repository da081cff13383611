-- ===== src/Retry.antt =====
-- src/utils/async-utils.ts: `retry` and the delays between its attempts. What the function returns or
-- throws on each attempt is an argument, log messages are left out. `timeout` races promises and is
-- not modelled.
pub mod Attempts
mod Tests
use typeorm_procedure_kit.Common.{
  ℕ, zero, suc, ◌+◌, ◌*◌, Bool, true, false, not, ◌&&◌, Option, none, some, ◌||◌, List, [], ◌∷◌,
  ltb, nat_beq, if◌then◌else◌, Result, ok, err, guard, ◌>>=◌, ◌>>◌,
}
use typeorm_procedure_kit.Common.Int.{ℤ, pos, negsuc, is_negative, magnitude}
use typeorm_procedure_kit.Common.Text.{codes}
use typeorm_procedure_kit.Value.{is_safe_integer}
use typeorm_procedure_kit.ErrorHandler.{Fault, value_fault, server_fault, ensure_server_error}

pub data RetryError : Type 0 where
  bad_max_retries bad_delay : RetryError
  attempt_failed : Fault → RetryError

pub data RetryEvent : Type 0 where
  attempted : ℕ → RetryEvent
  waited : ℕ → RetryEvent

-- `assertNonNegativeDelay`
abbrev pub is_delay : ℤ → Bool
is_delay ms = not (not (is_safe_integer ms) || is_negative ms)

-- a thrown value that is no Error becomes a ServerError
unfoldable pub as_error : Fault → Fault
unfolding ensure_server_error
as_error (value_fault v) = ensure_server_error (value_fault v)
as_error e = e

abbrev pub logged {ℓ} :
    {A : Type ℓ}
    → RetryEvent
    → List RetryEvent × Result RetryError A
    → List RetryEvent × Result RetryError A
logged e (es, r) = (e ∷ es, r)

-- behind an attempt that was not the last: the wait, if its length may be one
unfoldable pub wait {ℓ} :
    {A : Type ℓ} → ℕ → List RetryEvent × Result RetryError A → List RetryEvent × Result RetryError A
wait ms next = if is_delay (pos ms) then logged (waited ms) next else ([], err bad_delay)

abbrev last_failure {ℓ} : {A : Type ℓ} → Option Fault → Result RetryError A
last_failure none =
    err (attempt_failed (server_fault (codes "Retry completed without an attempt result")))
last_failure (some e) = err (attempt_failed e)

module _ {ℓ} {A : Type ℓ} (fn : ℕ → Result Fault A) (delay_ms : ℕ) where
  -- the rest of the loop's body at attempt `k`, and then the loop, `n` attempts being left
  unfoldable pub after_attempt :
      ℕ
      → ℕ
      → Result Fault A
      → (Option Fault → List RetryEvent × Result RetryError A)
      → List RetryEvent × Result RetryError A
  unfolding wait as_error
  after_attempt n k (ok a) next = ([], ok a)
  after_attempt zero k (err e) next = next (some (as_error e))
  after_attempt (suc n) k (err e) next = wait (delay_ms * k) (next (some (as_error e)))

  -- The loop with `n` attempts left, the number `k` of the next one, and `lastError`.
  unfoldable pub attempts : ℕ → ℕ → Option Fault → List RetryEvent × Result RetryError A
  unfolding after_attempt
  attempts zero k last = ([], last_failure last)
  attempts (suc n) k last =
      logged (attempted k) (after_attempt n k (fn k) (λ e. attempts n (k + 1) e))

abbrev pub is_positive : ℤ → Bool
is_positive z = is_safe_integer z && not (is_negative z || nat_beq (magnitude z) 0)

unfoldable pub retry {ℓ} :
    {A : Type ℓ} → (ℕ → Result Fault A) → ℤ → ℤ → List RetryEvent × Result RetryError A
unfolding attempts
retry fn max_retries delay_ms =
    if is_positive max_retries
    then (if is_delay delay_ms
        then attempts fn (magnitude delay_ms) (magnitude max_retries) 1 none
        else ([], err bad_delay))
    else ([], err bad_max_retries)
