-- ===== src/Fetching/ReadMoves.antt =====
-- src/core/procedure-list-base.ts: the end of a read, as one package sees it.
use typeorm_procedure_kit.Common.{
  ℕ, ◌≡◌, ◌∙◌, refl, sym, ap, arith, inl, inr, true, false, ◌||◌, Option, some, nat_eq,
  if◌then◌else◌, Bool-cases, Option-cases, Result, ok, err,
}
use mathlib.Core.Path.{subst}
use typeorm_procedure_kit.Common.JsMap.{get, has, put, get-put, has-eq-get, has-put, has-delete}
use typeorm_procedure_kit.Common.Text.{Text, text_eq}
use typeorm_procedure_kit.ErrorHandler.{Fault}
use typeorm_procedure_kit.Normalizer.{ProcedureList}
use typeorm_procedure_kit.Fetching.{
  reading, read_done, settled, is_running, PackageFetch, Registry, should_rerun_fetch,
  schedule_retry, clear_retry_timer, store_snapshot, checked_snapshot, complete_read,
  continue_fetch, destroyed_fault,
}
use typeorm_procedure_kit.Fetching.Invariant.{HasTimers, IsWellFormed}
use typeorm_procedure_kit.Fetching.Reachable.{store_snapshot-fetches}
use typeorm_procedure_kit.Fetching.View.{
  view, Move, stay, publish, fail, view-ext, view-set_fetch, Move-same, Move-to, busy_of_running,
  settle-Move,
}

schedule_retry-Move :
    (q p : Text) (r : Registry)
    → (view q r).busy ≡ true
    → Move (view p r) (view p (schedule_retry q r))
unfolding schedule_retry
schedule_retry-Move q p r busy = elim (Bool-cases (r.is_destroyed || has r.retry_timers q)) [
  | inl yes' ↦ rw yes' stay
  | inr no' ↦
      let alive : r.is_destroyed ≡ false = ground arith in
      let added = has-put r.retry_timers q r.next_id p in
      rw no' (elim (Bool-cases (text_eq.beq q p)) [
        | inl yes' ↦
            let same : q ≡ p = (text_eq.beq_iff q p).0 yes' in
            Move-to (fail alive (ap (λ n. (view n r).busy) (sym same) ∙ busy))
              (view-ext _ _ refl refl (added ∙ ap (λ b. b || has r.retry_timers p) yes') refl)
        | inr no' ↦
            Move-same
              (view-ext _ _ refl refl (added ∙ ap (λ b. b || has r.retry_timers p) no') refl)
      ])
]

clear_retry_timer-view :
    (q p : Text) (r : Registry)
    → HasTimers r
    → view p (clear_retry_timer q r)
      ≡ record (view p r) { retrying = if text_eq.beq q p then false else (view p r).retrying }
unfolding clear_retry_timer
clear_retry_timer-view q p r inv = elim (Option-cases (get r.retry_timers q)) [
  | inl e ↦
      rw (e, clear_retry_timer)
        (view-ext _ _ refl refl (ground (arith, has-eq-get r.retry_timers p, text_eq.beq_iff q p))
          refl)
  | inr (t, e) ↦
      rw (e, clear_retry_timer)
        (view-ext _ _ refl refl (has-delete r.retry_timers q p inv.timers_unique) refl)
]

-- a snapshot that was read replaces that of its package
abbrev published : Text → ProcedureList → Registry → Registry
published q s r = record r {
  packages_with_procedures_list = put r.packages_with_procedures_list q s;
}

publish-Move :
    (q p : Text) (s : ProcedureList) (r : Registry)
    → r.is_destroyed ≡ false
    → (view q r).busy ≡ true
    → HasTimers r
    → Move (view p r) (view p (clear_retry_timer q (published q s r)))
publish-Move q p s r alive busy inv = elim (Bool-cases (text_eq.beq q p)) [
  | inl yes' ↦
      let same : q ≡ p = (text_eq.beq_iff q p).0 yes' in
      let stored =
        get-put r.packages_with_procedures_list q s p
        ∙ ap (λ b. if b then some s else get r.packages_with_procedures_list p) yes' in
      Move-to (publish s alive (ap (λ n. (view n r).busy) (sym same) ∙ busy)) (
        clear_retry_timer-view q p (published q s r) inv
        ∙ view-ext _ _ stored refl (ap (λ b. if b then false else (view p r).retrying) yes') refl)
  | inr no' ↦
      let stored =
        get-put r.packages_with_procedures_list q s p
        ∙ ap (λ b. if b then some s else get r.packages_with_procedures_list p) no' in
      Move-same (
        clear_retry_timer-view q p (published q s r) inv
        ∙ view-ext _ _ stored refl (ap (λ b. if b then false else (view p r).retrying) no') refl)
]

store_snapshot-Move :
    (q p : Text) (result : Result Fault ProcedureList) (r : Registry)
    → (view q r).busy ≡ true
    → HasTimers r
    → Move (view p r) (view p (store_snapshot q (checked_snapshot r result) r))
unfolding store_snapshot
store_snapshot-Move q p (err e) r busy inv = schedule_retry-Move q p r busy
store_snapshot-Move q p (ok s) r busy inv = elim (Bool-cases r.is_destroyed) [
  | inl over ↦
      subst (λ c. Move (view p r) (view p (store_snapshot q c r)))
        (ap (λ b. if b then err destroyed_fault else ok s) (sym over))
        (schedule_retry-Move q p r busy)
  | inr alive ↦
      subst (λ c. Move (view p r) (view p (store_snapshot q c r)))
        (ap (λ b. if b then err destroyed_fault else ok s) (sym alive))
        (publish-Move q p s r alive busy inv)
]

pub complete_read-Move :
    (id : ℕ) (f : PackageFetch) (result : Result Fault ProcedureList) (p : Text) (r : Registry)
    → get r.fetches id ≡ some f
    → f.phase ≡ reading
    → IsWellFormed r
    → Move (view p r) (view p (complete_read id f result r))
unfolding complete_read
complete_read-Move id f result p r e phase inv =
    let checked = checked_snapshot r result in
    let stored = store_snapshot f.package_name checked r in
    let there = ap (λ m. get m id) (store_snapshot-fetches f.package_name checked r) ∙ e in
    Move-to
      (store_snapshot-Move f.package_name p result r
        (busy_of_running id f r e (ap is_running phase) inv) inv.timers)
      (view-set_fetch p id f _ stored there (sym (ap is_running phase)))

pub continue_fetch-Move :
    (id : ℕ) (f : PackageFetch) (last_error : Option Fault) (p : Text) (r : Registry)
    → get r.fetches id ≡ some f
    → f.phase ≡ read_done last_error
    → IsWellFormed r
    → Move (view p r) (view p (continue_fetch id f last_error r))
unfolding continue_fetch
continue_fetch-Move id f last_error p r e phase inv = elim (Bool-cases (should_rerun_fetch f r)) [
  | inl yes' ↦ rw yes' (Move-same (view-set_fetch p id f _ r e (sym (ap is_running phase))))
  | inr no' ↦
      rw no' (
        settle-Move id f (record f { phase = settled last_error }) p r e (ap is_running phase) refl)
]
