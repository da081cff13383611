-- ===== src/Fetching/Reachable.antt =====
-- src/core/procedure-list-base.ts: the registries that the program reaches.
use typeorm_procedure_kit.Common.{
  ℕ, ◌≡◌, ◌∙◌, refl, ap, arith, inl, inr, Bool, true, false, Option, none, some, List, nat_beq,
  nat_eq, if◌then◌else◌, Bool-cases, Option-cases, Result-cases, Result, ok, err,
}
use typeorm_procedure_kit.Common.JsMap.{get, put, delete}
use typeorm_procedure_kit.Common.Text.{Text, text_eq}
use typeorm_procedure_kit.ErrorHandler.{Fault}
use typeorm_procedure_kit.Normalizer.{ProcedureList}
use typeorm_procedure_kit.Fetching.{
  reading, read_done, is_running, PackageFetch, Registry, new_registry, should_rerun_fetch,
  fetch_procedure_list, schedule_retry, clear_retry_timer, store_snapshot, checked_snapshot,
  set_fetch, complete_read, continue_fetch, return_fetch, fire_timer, clear_timeouts, stop_timers,
  destroy, all_settled, finish_destroy, phase_settled, Step, fetched, completed, continued,
  finished, fired, destroyed, released, Reach, start, later,
}
use typeorm_procedure_kit.Fetching.Invariant.{
  is_returned, HasTimers, IsWellFormed, TimersMatch-remove, FetchesMatch-set,
}
use typeorm_procedure_kit.Fetching.Kept.{
  still_running, FetchesMatch-orphan, FetchesMatch-return, schedule_retry-IsWellFormed,
  clear_retry_timer-IsWellFormed, fetch_procedure_list-IsWellFormed, get-clear_timeouts,
  get-clear_timeouts_of_none, clear_timeouts-IsUnique, all_settled-settled,
}

none-neq-some {ℓ} : {A : Type ℓ} {o : Option A} {a : A} → o ≡ none → o ≡ some a → ⊥
none-neq-some e h = cc

if-IsWellFormed :
    (b : Bool) (r s : Registry)
    → IsWellFormed r
    → IsWellFormed s
    → IsWellFormed (if b then r else s)
if-IsWellFormed true r s h k = h
if-IsWellFormed false r s h k = k

store_snapshot-IsWellFormed :
    (p : Text) (result : Result Fault ProcedureList) (r : Registry)
    → IsWellFormed r
    → IsWellFormed (store_snapshot p result r)
unfolding store_snapshot
store_snapshot-IsWellFormed p (err e) r inv = schedule_retry-IsWellFormed p r inv
store_snapshot-IsWellFormed p (ok s) r inv =
    clear_retry_timer-IsWellFormed p
      (record r { packages_with_procedures_list = put r.packages_with_procedures_list p s })
      (record { timers = inv.timers; fetches = inv.fetches })

-- storing a snapshot leaves the fetches alone
pub store_snapshot-fetches :
    (p : Text) (result : Result Fault ProcedureList) (r : Registry)
    → (store_snapshot p result r).fetches ≡ r.fetches
unfolding store_snapshot schedule_retry clear_retry_timer
store_snapshot-fetches p result r = ground arith

set_fetch-IsWellFormed :
    (id : ℕ) (f g : PackageFetch) (r : Registry)
    → get r.fetches id ≡ some f
    → g.package_name ≡ f.package_name
    → (is_running g.phase ≡ true → is_running f.phase ≡ true)
    → (is_returned f.phase ≡ false → is_returned g.phase ≡ false)
    → IsWellFormed r
    → IsWellFormed (set_fetch id g r)
set_fetch-IsWellFormed id f g r e same ran kept inv = record {
  timers = inv.timers;
  fetches = FetchesMatch-set id f g e same ran kept inv.fetches;
}

complete_read-IsWellFormed :
    (id : ℕ) (f : PackageFetch) (result : Result Fault ProcedureList) (r : Registry)
    → get r.fetches id ≡ some f
    → f.phase ≡ reading
    → IsWellFormed r
    → IsWellFormed (complete_read id f result r)
unfolding complete_read
complete_read-IsWellFormed id f result r e phase inv =
    let checked = checked_snapshot r result in
    set_fetch-IsWellFormed id f _ (store_snapshot f.package_name checked r)
      (ap (λ m. get m id) (store_snapshot-fetches f.package_name checked r) ∙ e) refl
      (λ h. ap is_running phase) (λ h. refl)
      (store_snapshot-IsWellFormed f.package_name checked r inv)

continue_fetch-IsWellFormed :
    (id : ℕ) (f : PackageFetch) (last_error : Option Fault) (r : Registry)
    → get r.fetches id ≡ some f
    → f.phase ≡ read_done last_error
    → IsWellFormed r
    → IsWellFormed (continue_fetch id f last_error r)
unfolding continue_fetch
continue_fetch-IsWellFormed id f last_error r e phase inv =
    elim (Bool-cases (should_rerun_fetch f r)) [
      | inl yes' ↦
          rw yes'
            (set_fetch-IsWellFormed id f _ r e refl (λ h. ap is_running phase) (λ h. refl) inv)
      | inr no' ↦
          rw no' (set_fetch-IsWellFormed id f _ r e refl (λ h. ap is_running phase) (λ h. refl) inv)
    ]

return_fetch-IsWellFormed :
    (id : ℕ) (f : PackageFetch) (last_error : Option Fault) (r : Registry)
    → get r.fetches id ≡ some f
    → IsWellFormed r
    → IsWellFormed (return_fetch id f last_error r)
unfolding return_fetch
return_fetch-IsWellFormed id f last_error r e inv =
    elim (Option-cases (get r.package_fetch_states f.package_name)) [
      | inl none' ↦
          rw (none', return_fetch)
            (record {
              timers = inv.timers;
              fetches = FetchesMatch-orphan id f _ e refl (λ h. cc) inv.fetches;
            })
      | inr (current, here) ↦ elim (Bool-cases (nat_beq current id)) [
        | inl yes' ↦
            rw (here, return_fetch, yes')
              (record {
                timers = inv.timers;
                fetches = FetchesMatch-return id f _ e refl (ground arith) inv.fetches;
              })
        | inr no' ↦
            rw (here, return_fetch, no')
              (record {
                timers = inv.timers;
                fetches = FetchesMatch-orphan id f _ e refl (λ h. ground arith) inv.fetches;
              })
      ]
    ]

fire_timer-IsWellFormed :
    (t : ℕ) (p : Text) (r : Registry)
    → get r.armed t ≡ some p
    → IsWellFormed r
    → IsWellFormed (fire_timer t p r)
unfolding fire_timer
fire_timer-IsWellFormed t p r e inv =
    let gone : IsWellFormed
        (record r { armed = delete r.armed t; retry_timers = delete r.retry_timers p }) =
      record {
        timers = TimersMatch-remove t p (inv.timers.armed_known t p e) inv.timers;
        fetches = inv.fetches;
      } in
    elim (Result-cases (
      fetch_procedure_list p
        (record r { armed = delete r.armed t; retry_timers = delete r.retry_timers p }))) [
          | inl (s, began) ↦
              rw (began, fire_timer) (fetch_procedure_list-IsWellFormed p _ s began gone)
          | inr (fault, refused) ↦ rw (refused, fire_timer) gone
        ]

-- `destroy` clears every timer
clear_timeouts-none :
    (r : Registry) (t : ℕ) → HasTimers r → get (clear_timeouts r.retry_timers r.armed) t ≡ none
clear_timeouts-none r t inv = elim (Option-cases (get r.armed t)) [
  | inl e ↦ get-clear_timeouts_of_none r.retry_timers r.armed t e inv.armed_unique
  | inr (p, e) ↦
      get-clear_timeouts r.retry_timers r.armed p t (inv.armed_known t p e) inv.armed_unique
]

stop_timers-IsWellFormed : (r : Registry) → IsWellFormed r → IsWellFormed (stop_timers r)
unfolding stop_timers get
stop_timers-IsWellFormed r inv = record {
  timers = record {
    armed_known = λ t p e. absurd (none-neq-some (clear_timeouts-none r t inv.timers) e);
    known_armed = λ t p e. absurd (none-neq-some refl e);
    timers_fresh = λ t p e. absurd (none-neq-some (clear_timeouts-none r t inv.timers) e);
    stopped = λ e. refl;
    armed_unique = clear_timeouts-IsUnique r.retry_timers r.armed inv.timers.armed_unique;
    timers_unique = tt;
  };
  fetches = inv.fetches;
}

destroy-IsWellFormed : (r : Registry) → IsWellFormed r → IsWellFormed (destroy r)
unfolding destroy
destroy-IsWellFormed r inv =
    if-IsWellFormed r.is_destroyed r (stop_timers r) inv (stop_timers-IsWellFormed r inv)

settled-running :
    (fetches : List (ℕ × PackageFetch)) (id : ℕ) (f : PackageFetch)
    → get fetches id ≡ some f
    → phase_settled (get fetches id) ≡ true
    → is_running f.phase ≡ false
settled-running fetches id f e h = ground arith

finish_destroy-IsWellFormed :
    (r : Registry)
    → all_settled r.fetches r.package_fetch_states ≡ true
    → IsWellFormed r
    → IsWellFormed (finish_destroy r)
unfolding finish_destroy get
finish_destroy-IsWellFormed r settled' inv = record {
  timers = inv.timers;
  fetches = record {
    registered = λ id f e h. absurd (
        still_running
          (settled-running r.fetches id f e (
            all_settled-settled r.fetches r.package_fetch_states f.package_name id settled'
              (inv.fetches.registered id f e h)))
          h);
    known = λ id p e. absurd (none-neq-some refl e);
    fetches_fresh = inv.fetches.fetches_fresh;
    states_unique = tt;
  };
}

-- Every piece of the program keeps the registry well-formed.
pub Step-IsWellFormed : {r s : Registry} → Step r s → IsWellFormed r → IsWellFormed s
Step-IsWellFormed {r} {s} (fetched p e) inv = fetch_procedure_list-IsWellFormed p r s e inv
Step-IsWellFormed {r} (completed id {f} result e phase) inv =
    complete_read-IsWellFormed id f result r e phase inv
Step-IsWellFormed {r} (continued id {f} {e = err'} e phase) inv =
    continue_fetch-IsWellFormed id f err' r e phase inv
Step-IsWellFormed {r} (finished id {f} {e = err'} e phase) inv =
    return_fetch-IsWellFormed id f err' r e inv
Step-IsWellFormed {r} (fired t p e quiet) inv = fire_timer-IsWellFormed t p r e inv
Step-IsWellFormed {r} destroyed inv = destroy-IsWellFormed r inv
Step-IsWellFormed {r} (released over settled') inv = finish_destroy-IsWellFormed r settled' inv

new_registry-IsWellFormed : IsWellFormed new_registry
unfolding get
new_registry-IsWellFormed = record {
  timers = record {
    armed_known = λ t p e. absurd (none-neq-some refl e);
    known_armed = λ t p e. absurd (none-neq-some refl e);
    timers_fresh = λ t p e. absurd (none-neq-some refl e);
    stopped = λ e. refl;
    armed_unique = tt;
    timers_unique = tt;
  };
  fetches = record {
    registered = λ id f e h. absurd (none-neq-some refl e);
    known = λ id p e. absurd (none-neq-some refl e);
    fetches_fresh = λ id f e. absurd (none-neq-some refl e);
    states_unique = tt;
  };
}

pub Reach-IsWellFormed : {r : Registry} → Reach r → IsWellFormed r
Reach-IsWellFormed start = new_registry-IsWellFormed
Reach-IsWellFormed (later reached step) = Step-IsWellFormed step (Reach-IsWellFormed reached)
