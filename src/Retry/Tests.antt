-- ===== src/Retry/Tests.antt =====
-- A function that fails twice, tried with a limit of five and of two.
use typeorm_procedure_kit.Common.{
  ℕ, zero, suc, ◌≡◌, refl, arith, [], ◌∷◌, Result, ok, err, ltb, if◌then◌else◌,
}
use typeorm_procedure_kit.Common.Int.{pos}
use typeorm_procedure_kit.ErrorHandler.{Fault, value_fault}
use typeorm_procedure_kit.Retry.{attempted, waited, as_error, attempt_failed, retry}
use typeorm_procedure_kit.Retry.Attempts.{schedule, FailsFor, retry-succeeds, retry-exhausted}

abbrev fails_twice : ℕ → Result Fault ℕ
fails_twice k = if ltb k 3 then err (value_fault k) else ok k

twice : FailsFor fails_twice 10 1 2
twice zero less = ((value_fault 1, refl), refl)
twice (suc zero) less = ((value_fault 2, refl), refl)
twice (suc (suc i)) less = absurd (omega arith)

once : FailsFor fails_twice 10 1 1
once zero less = ((value_fault 1, refl), refl)
once (suc i) less = absurd (omega arith)

waits_grow : schedule 10 1 2 ≡ attempted 1 ∷ waited 10 ∷ attempted 2 ∷ waited 20 ∷ attempted 3 ∷ []
unfolding schedule
waits_grow = refl

retry-succeeds_example : retry fails_twice (pos 5) (pos 10) ≡ (schedule 10 1 2, ok 3)
retry-succeeds_example = retry-succeeds fails_twice 10 2 2 3 refl refl twice refl

retry-exhausted_example :
    retry fails_twice (pos 2) (pos 10)
    ≡ (schedule 10 1 1, err (attempt_failed (as_error (value_fault 2))))
retry-exhausted_example = retry-exhausted fails_twice 10 1 (value_fault 2) refl refl once refl
