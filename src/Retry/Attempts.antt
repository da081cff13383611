-- ===== src/Retry/Attempts.antt =====
-- src/utils/async-utils.ts: the attempts and waits of `retry`, and its outcome.
use typeorm_procedure_kit.Common.{
  ℕ, zero, suc, ◌+◌, ◌*◌, ◌<◌, ◌≡◌, refl, sym, ap, arith, true, Option, none, some, List, [], ◌∷◌,
  Result, ok, err,
}
use typeorm_procedure_kit.Common.Int.{pos}
use typeorm_procedure_kit.ErrorHandler.{Fault}
use typeorm_procedure_kit.Retry.{
  RetryError, attempt_failed, RetryEvent, attempted, waited, is_delay, is_positive, as_error,
  attempts, after_attempt, wait, retry, logged,
}

-- `n` attempts that fail and one more, the first of number `k`; the wait grows by `delay_ms` each time
unfoldable pub schedule : ℕ → ℕ → ℕ → List RetryEvent
schedule delay_ms k zero = attempted k ∷ []
schedule delay_ms k (suc n) = attempted k ∷ waited (delay_ms * k) ∷ schedule delay_ms (k + 1) n

module _ {A : Type 0} (fn : ℕ → Result Fault A) (delay_ms : ℕ) where
  -- attempts of number `k` up to, and without, `k + n` fail, and their waits may be waited for
  abbrev pub FailsFor : ℕ → ℕ → Type 0
  FailsFor k n =
      (i : ℕ)
      → i < n
      → ((e : Fault) × (fn (k + i) ≡ err e)) × (is_delay (pos (delay_ms * (k + i))) ≡ true)

  after_failure :
      (n k : ℕ) (m : Result Fault A) (next : Option Fault → List RetryEvent × Result RetryError A)
      (e : Fault)
      → m ≡ err e
      → is_delay (pos (delay_ms * k)) ≡ true
      → after_attempt fn delay_ms (suc n) k m next
        ≡ logged (waited (delay_ms * k)) (next (some (as_error e)))
  unfolding after_attempt wait
  after_failure n k m next e h d = rw (h, d) refl

  FailsFor-suc : (k n : ℕ) → FailsFor k (suc n) → FailsFor (k + 1) n
  FailsFor-suc k n h i less =
      let q : k + 1 + i ≡ k + (i + 1) = omega arith in rw q (h (i + 1) (omega arith))

  after_success :
      (n k : ℕ) (m : Result Fault A) (next : Option Fault → List RetryEvent × Result RetryError A)
      (a : A)
      → m ≡ ok a
      → after_attempt fn delay_ms n k m next ≡ ([], ok a)
  unfolding after_attempt
  after_success n k m next a h = rw h refl

  after_last :
      (k : ℕ) (m : Result Fault A) (next : Option Fault → List RetryEvent × Result RetryError A)
      (e : Fault)
      → m ≡ err e
      → after_attempt fn delay_ms 0 k m next ≡ next (some (as_error e))
  unfolding after_attempt
  after_last k m next e h = rw h refl

  -- a failure that is not the last
  attempts-step :
      (n k : ℕ) (last : Option Fault) (e : Fault)
      → fn k ≡ err e
      → is_delay (pos (delay_ms * k)) ≡ true
      → attempts fn delay_ms (suc (suc n)) k last
        ≡ logged (attempted k) (
            logged
              (waited (delay_ms * k))
              (attempts fn delay_ms (suc n) (k + 1) (some (as_error e))))
  attempts-step n k last e h d =
      unfold attempts in ap (logged (attempted k)) (after_failure n k (fn k) _ e h d)

  attempts-ok :
      (n more k : ℕ) (last : Option Fault) (a : A)
      → FailsFor k n
      → fn (k + n) ≡ ok a
      → attempts fn delay_ms (suc (n + more)) k last ≡ (schedule delay_ms k n, ok a)
  unfolding schedule
  attempts-ok zero more k last a h good =
      let q : k + 0 ≡ k = omega arith in
      let z : 0 + more ≡ more = omega arith in
      rw z (
        unfold attempts in
        ap (logged (attempted k)) (after_success more k (fn k) _ a (rw (sym q) good)))
  attempts-ok (suc n) more k last a h good =
      let (failed, d) = h 0 (omega arith) in
      let q : k + 0 ≡ k = omega arith in
      let p : k + 1 + n ≡ k + suc n = omega arith in
      let z : suc n + more ≡ suc (n + more) = omega arith in
      rw
        (
          z,
          attempts-step (n + more) k last failed.0 (rw (sym q) failed.1) (rw (sym q) d),
          attempts-ok n more (k + 1) (some (as_error failed.0)) a (FailsFor-suc k n h) (rw p good),
        )
        refl

  attempts-exhausted :
      (n k : ℕ) (last : Option Fault) (e : Fault)
      → FailsFor k n
      → fn (k + n) ≡ err e
      → attempts fn delay_ms (suc n) k last
        ≡ (schedule delay_ms k n, err (attempt_failed (as_error e)))
  unfolding schedule
  attempts-exhausted zero k last e h bad =
      let q : k + 0 ≡ k = omega arith in
      unfold attempts in ap (logged (attempted k)) (after_last k (fn k) _ e (rw (sym q) bad))
  attempts-exhausted (suc n) k last e h bad =
      let (failed, d) = h 0 (omega arith) in
      let q : k + 0 ≡ k = omega arith in
      let p : k + 1 + n ≡ k + suc n = omega arith in
      rw
        (
          attempts-step n k last failed.0 (rw (sym q) failed.1) (rw (sym q) d),
          attempts-exhausted n (k + 1) (some (as_error failed.0)) e (FailsFor-suc k n h) (rw p bad),
        )
        refl

  -- If `n` attempts fail, their waits being valid delays, and the next succeeds, and at least one more than
  -- `n` is allowed, by valid arguments, then exactly these are made, the wait after attempt `k` is `k`
  -- times the delay, and the value is returned.
  pub retry-succeeds :
      (n more : ℕ) (a : A)
      → is_positive (pos (suc (n + more))) ≡ true
      → is_delay (pos delay_ms) ≡ true
      → FailsFor 1 n
      → fn (1 + n) ≡ ok a
      → retry fn (pos (suc (n + more))) (pos delay_ms) ≡ (schedule delay_ms 1 n, ok a)
  unfolding retry
  retry-succeeds n more a p d h good = rw (p, d) (attempts-ok n more 1 none a h good)

  -- If all the attempts that valid arguments allow fail, their waits being valid delays, all are made, and
  -- the last one's error is thrown, as an Error.
  pub retry-exhausted :
      (n : ℕ) (e : Fault)
      → is_positive (pos (suc n)) ≡ true
      → is_delay (pos delay_ms) ≡ true
      → FailsFor 1 n
      → fn (1 + n) ≡ err e
      → retry fn (pos (suc n)) (pos delay_ms)
        ≡ (schedule delay_ms 1 n, err (attempt_failed (as_error e)))
  unfolding retry
  retry-exhausted n e p d h bad = rw (p, d) (attempts-exhausted n 1 none e h bad)
