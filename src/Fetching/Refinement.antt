-- ===== src/Fetching/Refinement.antt =====
-- src/core/procedure-list-base.ts: each step of the registry, as one package sees it.
use typeorm_procedure_kit.Common.{
  ℕ, ◌≡◌, ◌∙◌, refl, sym, ap, arith, inl, inr, true, false, Option, none, some, List, [], ◌∷◌,
  nat_beq, nat_eq, if◌then◌else◌, Bool-cases, Option-cases, ok,
}
use mathlib.Core.Path.{subst}
use typeorm_procedure_kit.Common.JsMap.{get, has, delete, get-delete, has-eq-get, has-delete}
use typeorm_procedure_kit.Common.Text.{Text, text_eq}
use typeorm_procedure_kit.ErrorHandler.{Fault}
use typeorm_procedure_kit.Fetching.{
  Phase, reading, read_done, settled, returned, is_running, PackageFetch, Registry, begin_fetch,
  request_rerun, fetch_procedure_list, set_fetch, return_fetch, fire_timer, stop_timers,
  all_waiting, is_waiting, stop_timers, destroy, all_settled, finish_destroy, Step, fetched,
  completed, continued, finished, fired, destroyed, released, Reach,
}
use typeorm_procedure_kit.Fetching.Invariant.{
  is_returned, HasTimers, HasFetches, IsWellFormed, TimersMatch-remove, no_timer,
}
use typeorm_procedure_kit.Fetching.Reachable.{Reach-IsWellFormed}
use typeorm_procedure_kit.Fetching.View.{
  view, runs, registered_fetch, Move, stay, retry, close, drop, view-ext, view-set_fetch, Move-same,
  Move-to, begin_fetch-busy, begin_fetch-Move,
}
use typeorm_procedure_kit.Fetching.ReadMoves.{complete_read-Move, continue_fetch-Move}
use typeorm_procedure_kit.Fetching.Kept.{fetch_procedure_list-cases, all_settled-settled}

request_rerun-view : (id : ℕ) (p : Text) (r : Registry) → view p (request_rerun id r) ≡ view p r
unfolding request_rerun
request_rerun-view id p r = elim (Option-cases (get r.fetches id)) [
  | inl e ↦ rw (e, request_rerun) refl
  | inr (f, e) ↦
      rw (e, request_rerun) (view-set_fetch p id f (record f { rerun_requested = true }) r e refl)
]

fetch_procedure_list-Move :
    (q p : Text) (r s : Registry)
    → fetch_procedure_list q r ≡ ok s
    → IsWellFormed r
    → Move (view p r) (view p s)
fetch_procedure_list-Move q p r s h inv =
    let (alive, how) = fetch_procedure_list-cases q r s h in
    elim how [
      | inl (free, e) ↦
          subst (λ x. Move (view p r) (view p x)) e (begin_fetch-Move q p r alive free inv)
      | inr (id, mine, e) ↦ Move-same (ap (view p) (sym e) ∙ request_rerun-view id p r)
    ]

-- the entry of a fetch that does not run makes no difference
delete-busy :
    (id : ℕ) (f g : PackageFetch) (p : Text) (r : Registry)
    → get r.fetches id ≡ some f
    → is_running f.phase ≡ false
    → is_running g.phase ≡ is_running f.phase
    → get r.package_fetch_states f.package_name ≡ some id
    → HasFetches r
    → runs
        (registered_fetch (set_fetch id g r) (get (delete r.package_fetch_states f.package_name) p))
      ≡ (view p r).busy
delete-busy id f g p r e over same mine inv = elim (Bool-cases (text_eq.beq f.package_name p)) [
  | inl yes' ↦
      let here : f.package_name ≡ p = (text_eq.beq_iff f.package_name p).0 yes' in
      ap (λ o. runs (registered_fetch (set_fetch id g r) o))
        (gone ∙ ap (λ b. if b then none else get r.package_fetch_states p) yes')
      ∙ sym (
          ap (λ o. runs (registered_fetch r o)) (ap (get r.package_fetch_states) (sym here) ∙ mine)
          ∙ ap runs e
          ∙ over)
  | inr no' ↦
      ap (λ o. runs (registered_fetch (set_fetch id g r) o))
        (gone ∙ ap (λ b. if b then none else get r.package_fetch_states p) no')
      ∙ ap (λ v. v.busy) (view-set_fetch p id f g r e same)
]
  where
    gone :
        get (delete r.package_fetch_states f.package_name) p
        ≡ (if text_eq.beq f.package_name p then none else get r.package_fetch_states p)
    gone = get-delete r.package_fetch_states f.package_name p inv.states_unique

return_fetch-view :
    (id : ℕ) (f : PackageFetch) (last_error : Option Fault) (p : Text) (r : Registry)
    → get r.fetches id ≡ some f
    → f.phase ≡ settled last_error
    → IsWellFormed r
    → view p (return_fetch id f last_error r) ≡ view p r
unfolding return_fetch
return_fetch-view id f last_error p r e phase inv =
    let same =
      view-set_fetch p id f (record f { phase = returned last_error }) r e
        (sym (ap is_running phase)) in
    elim (Option-cases (get r.package_fetch_states f.package_name)) [
      | inl none' ↦ rw (none', return_fetch) same
      | inr (current, here) ↦ elim (Bool-cases (nat_beq current id)) [
        | inl yes' ↦
            rw (here, return_fetch, yes')
              (view-ext _ _ refl
                (delete-busy id f _ p r e (ap is_running phase) (sym (ap is_running phase))
                  (ground arith) inv.fetches)
                refl refl)
        | inr no' ↦ rw (here, return_fetch, no') same
      ]
    ]

pub all_waiting-waiting :
    (fetches : List (ℕ × PackageFetch)) (id : ℕ) (f : PackageFetch)
    → all_waiting fetches ≡ true
    → get fetches id ≡ some f
    → is_waiting f.phase ≡ true
unfolding all_waiting get
all_waiting-waiting [] id f h e = cc
all_waiting-waiting ((i, g) ∷ fetches) id f h e = ground (arith, all_waiting-waiting fetches id f)

running_of_waiting : (p : Phase) → is_waiting p ≡ true → is_returned p ≡ false → is_running p ≡ true
running_of_waiting reading w h = refl
running_of_waiting (read_done e) w h = cc
running_of_waiting (settled e) w h = cc
running_of_waiting (returned e) w h = cc

still-busy :
    (q p : Text) (r : Registry)
    → (view q r).busy ≡ true
    → (view p r).busy ≡ (if text_eq.beq q p then true else (view p r).busy)
still-busy q p r busy = elim (Bool-cases (text_eq.beq q p)) [
  | inl yes' ↦
      let same : q ≡ p = (text_eq.beq_iff q p).0 yes' in
      ap (λ n. (view n r).busy) (sym same)
      ∙ busy
      ∙ sym (ap (λ b. if b then true else (view p r).busy) yes')
  | inr no' ↦ sym (ap (λ b. if b then true else (view p r).busy) no')
]

-- Between events a fetch that is asked for runs, whether it begins or is there.
pub fetch_procedure_list-view :
    (q p : Text) (r : Registry)
    → r.is_destroyed ≡ false
    → all_waiting r.fetches ≡ true
    → IsWellFormed r
    → (s : Registry) × (fetch_procedure_list q r ≡ ok s)
      × (view p s ≡ record (view p r) { busy = if text_eq.beq q p then true else (view p r).busy })
unfolding fetch_procedure_list
fetch_procedure_list-view q p r alive quiet inv =
    elim (Option-cases (get r.package_fetch_states q)) [
      | inl free ↦ (
        begin_fetch q r,
        simp (alive, free),
        view-ext _ _ (unfold begin_fetch in refl) (begin_fetch-busy q p r free inv)
            (unfold begin_fetch in refl) (unfold begin_fetch in refl),
      )
      | inr (id, mine) ↦
          let (f, there, name, live) = inv.fetches.known id q mine in
          let runs' =
            running_of_waiting f.phase (all_waiting-waiting r.fetches id f quiet there) live in
          let busy : (view q r).busy ≡ true =
            ap (λ o. runs (registered_fetch r o)) mine ∙ ap runs there ∙ runs' in
          (
            request_rerun id r,
            simp (alive, mine),
            request_rerun-view id p r ∙ view-ext _ _ refl (still-busy q p r busy) refl refl,
          )
    ]

alive_of_timer :
    (q : Text) (r : Registry) {t : ℕ}
    → HasTimers r
    → get r.retry_timers q ≡ some t
    → r.is_destroyed ≡ false
alive_of_timer q r inv known = elim (Bool-cases r.is_destroyed) [
  | inl over ↦ absurd (no_timer q r.retry_timers (inv.stopped over) known)
  | inr alive ↦ alive
]

-- what a timer of package `q` does to package `p`
fire-Move :
    (q p : Text) (r : Registry)
    → r.is_destroyed ≡ false
    → has r.retry_timers q ≡ true
    → Move (view p r) (record (view p r) {
      busy = if text_eq.beq q p then true else (view p r).busy;
      retrying = if text_eq.beq q p then false else (view p r).retrying;
    })
fire-Move q p r alive armed = elim (Bool-cases (text_eq.beq q p)) [
  | inl yes' ↦
      let same : q ≡ p = (text_eq.beq_iff q p).0 yes' in
      rw yes' (retry alive (ap (has r.retry_timers) (sym same) ∙ armed))
  | inr no' ↦ rw no' stay
]

fire_timer-Move :
    (t : ℕ) (q p : Text) (r : Registry)
    → get r.armed t ≡ some q
    → all_waiting r.fetches ≡ true
    → IsWellFormed r
    → Move (view p r) (view p (fire_timer t q r))
unfolding fire_timer
fire_timer-Move t q p r e quiet inv =
    let gone : Registry = record r {
      armed = delete r.armed t;
      retry_timers = delete r.retry_timers q;
    } in
    let known = inv.timers.armed_known t q e in
    let alive : r.is_destroyed ≡ false = alive_of_timer q r inv.timers known in
    let (s, began, seen) =
      fetch_procedure_list-view q p gone alive quiet
        (record { timers = TimersMatch-remove t q known inv.timers; fetches = inv.fetches }) in
    rw (began, fire_timer)
      (Move-to (fire-Move q p r alive (ground (arith, has-eq-get r.retry_timers q))) (
        seen
        ∙ view-ext _ _ refl refl (has-delete r.retry_timers q p inv.timers.timers_unique) refl))

destroy-Move : (p : Text) (r : Registry) → Move (view p r) (view p (destroy r))
unfolding destroy stop_timers has
destroy-Move p r = elim (Bool-cases r.is_destroyed) [
  | inl over ↦ Move-same (ap (λ b. view p (if b then r else stop_timers r)) over)
  | inr alive ↦
      subst (λ b. Move (view p r) (view p (if b then r else stop_timers r))) (sym alive)
        (close alive)
]

finish_destroy-Move :
    (p : Text) (r : Registry)
    → r.is_destroyed ≡ true
    → all_settled r.fetches r.package_fetch_states ≡ true
    → Move (view p r) (view p (finish_destroy r))
unfolding finish_destroy get
finish_destroy-Move p r over settled' =
    Move-to (drop over (idle (get r.package_fetch_states p) refl))
      (view-ext _ _ refl (sym (idle (get r.package_fetch_states p) refl)) refl refl)
  where
    idle : (o : Option ℕ) → get r.package_fetch_states p ≡ o → runs (registered_fetch r o) ≡ false
    idle none h = refl
    idle (some id) h =
        ground (arith, all_settled-settled r.fetches r.package_fetch_states p id settled' h)

-- Whatever piece of the program runs in a reachable registry, each package makes a move of the
-- specification: a snapshot changes only while a fetch runs and before `destroy`, or is dropped after
-- `destroy` once no fetch runs; nothing begins and no timer is armed after `destroy`.
pub Step-Move : {r s : Registry} → Reach r → Step r s → (p : Text) → Move (view p r) (view p s)
Step-Move {r} {s} reached (fetched q e) p =
    fetch_procedure_list-Move q p r s e (Reach-IsWellFormed reached)
Step-Move {r} reached (completed id {f} result e phase) p =
    complete_read-Move id f result p r e phase (Reach-IsWellFormed reached)
Step-Move {r} reached (continued id {f} {e = last_error} e phase) p =
    continue_fetch-Move id f last_error p r e phase (Reach-IsWellFormed reached)
Step-Move {r} reached (finished id {f} {e = last_error} e phase) p =
    Move-same (return_fetch-view id f last_error p r e phase (Reach-IsWellFormed reached))
Step-Move {r} reached (fired t q e quiet) p =
    fire_timer-Move t q p r e quiet (Reach-IsWellFormed reached)
Step-Move {r} reached destroyed p = destroy-Move p r
Step-Move {r} reached (released over settled') p = finish_destroy-Move p r over settled'
