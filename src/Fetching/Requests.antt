-- ===== src/Fetching/Requests.antt =====
-- src/core/procedure-list-base.ts: a request for a fetch that runs already.
use typeorm_procedure_kit.Common.{
  ℕ, ◌≡◌, ◌∙◌, refl, sym, ap, arith, inl, inr, ◌⊎◌, true, false, Option, some, ◌≢◌, nat_eq,
  Option-cases, some-inj, Result, Result-cases, ok,
}
use mathlib.Core.Path.{subst}
use native.Mathlib.Decide.{ℕ_discrete}
use typeorm_procedure_kit.Common.JsMap.{get, put, delete, get-put-at, get-put-other}
use typeorm_procedure_kit.Common.Text.{Text, text_eq}
use typeorm_procedure_kit.ErrorHandler.{Fault}
use typeorm_procedure_kit.Normalizer.{ProcedureList}
use typeorm_procedure_kit.Fetching.{
  Reach, reading, read_done, settled, returned, is_running, PackageFetch, Registry,
  should_rerun_fetch, Step, fetched, completed, continued, finished, fired, destroyed, released,
  complete_read, continue_fetch, request_rerun, begin_fetch, fetch_procedure_list, fire_timer,
  return_fetch, store_snapshot, checked_snapshot, destroy, stop_timers, finish_destroy,
}
use typeorm_procedure_kit.Fetching.Invariant.{HasFetches, IsWellFormed}
use typeorm_procedure_kit.Fetching.Reachable.{Reach-IsWellFormed, store_snapshot-fetches}
use typeorm_procedure_kit.Fetching.Kept.{fetch_procedure_list-cases, still_running}

return_fetch-fetches :
    (j : ℕ) (h : PackageFetch) (last_error : Option Fault) (r : Registry) (id : ℕ)
    → get (return_fetch j h last_error r).fetches id
      ≡ get (put r.fetches j (record h { phase = returned last_error })) id
unfolding return_fetch
return_fetch-fetches j h last_error r id = ground arith

destroy-fetches : (id : ℕ) (r : Registry) → get (destroy r).fetches id ≡ get r.fetches id
unfolding destroy stop_timers
destroy-fetches id r = ground arith

-- Fetch `f` has become the fetch `o`, which still runs, and has the request or has begun to read again.
abbrev pub Answers : PackageFetch → Option PackageFetch → Type 0
Answers f o =
    (g : PackageFetch) × (o ≡ some g)
    × (is_running g.phase ≡ true)
    × ((g.rerun_requested ≡ true)
        ⊎ ((e : Option Fault) × (f.phase ≡ read_done e) × (g.phase ≡ reading)))

module _ {f : PackageFetch} (runs : is_running f.phase ≡ true)
    (requested : f.rerun_requested ≡ true) where
  kept-Answers : {o : Option PackageFetch} → o ≡ some f → Answers f o
  kept-Answers e = (f, e, runs, inl requested)

  request_rerun-Answers :
      (id j : ℕ) (r : Registry)
      → get r.fetches id ≡ some f
      → Answers f (get (request_rerun j r).fetches id)
  unfolding request_rerun
  request_rerun-Answers id j r there = elim (Option-cases (get r.fetches j)) [
    | inl e ↦ rw (e, request_rerun) (kept-Answers there)
    | inr (h, e) ↦
        rw (e, request_rerun)
          (elim (ℕ_discrete j id) [
            | yes same ↦
                let is_f : h ≡ f = some-inj (sym e ∙ ap (get r.fetches) same ∙ there) in
                (
                  record h { rerun_requested = true },
                  get-put-at r.fetches _ same,
                  ap (λ x. is_running x.phase) is_f ∙ runs,
                  inl refl,
                )
            | no other ↦ kept-Answers (get-put-other r.fetches j _ id other ∙ there)
          ])
  ]

  fetch_procedure_list-Answers :
      (id : ℕ) (p : Text) (r s : Registry)
      → fetch_procedure_list p r ≡ ok s
      → HasFetches r
      → get r.fetches id ≡ some f
      → Answers f (get s.fetches id)
  unfolding begin_fetch
  fetch_procedure_list-Answers id p r s h inv there =
      elim ((fetch_procedure_list-cases p r s h).1) [
        | inl (free, e) ↦
            subst (λ x. Answers f (get x.fetches id)) e
              (kept-Answers (
                get-put-other r.fetches r.next_id _ id
                  (λ same. omega (arith, inv.fetches_fresh id f there))
                ∙ there))
        | inr (j, mine, e) ↦
            subst (λ x. Answers f (get x.fetches id)) e (request_rerun-Answers id j r there)
      ]

  complete_read-Answers :
      (id j : ℕ) (h : PackageFetch) (result : Result Fault ProcedureList) (r : Registry)
      → get r.fetches j ≡ some h
      → get r.fetches id ≡ some f
      → Answers f (get (complete_read j h result r).fetches id)
  unfolding complete_read
  complete_read-Answers id j h result r e there =
      let stored = store_snapshot h.package_name (checked_snapshot r result) r in
      let same-fetches = store_snapshot-fetches h.package_name (checked_snapshot r result) r in
      elim (ℕ_discrete j id) [
        | yes same ↦
            let is_f : h ≡ f = some-inj (sym e ∙ ap (get r.fetches) same ∙ there) in
            (
              _,
              get-put-at stored.fetches _ same,
              refl,
              inl (ap (λ x. x.rerun_requested) is_f ∙ requested),
            )
        | no other ↦
            kept-Answers
              (get-put-other stored.fetches j _ id other ∙ ap (λ m. get m id) same-fetches ∙ there)
      ]

  continue_fetch-Answers :
      (id j : ℕ) (h : PackageFetch) (last_error : Option Fault) (r : Registry)
      → r.is_destroyed ≡ false
      → get r.fetches j ≡ some h
      → h.phase ≡ read_done last_error
      → get r.fetches id ≡ some f
      → Answers f (get (continue_fetch j h last_error r).fetches id)
  unfolding continue_fetch
  continue_fetch-Answers id j h last_error r alive e phase there = elim (ℕ_discrete j id) [
    | yes same ↦
        let is_f : h ≡ f = some-inj (sym e ∙ ap (get r.fetches) same ∙ there) in
        let again : should_rerun_fetch h r ≡ true =
          ground (arith, ap (λ x. x.rerun_requested) is_f) in
        rw again (
          _,
          get-put-at r.fetches _ same,
          refl,
          inr (last_error, ap (λ x. x.phase) (sym is_f) ∙ phase, refl),
        )
    | no other ↦ kept-Answers (get-put-other r.fetches j _ id other ∙ there)
  ]

  return_fetch-Answers :
      (id j : ℕ) (h : PackageFetch) (last_error : Option Fault) (r : Registry)
      → get r.fetches j ≡ some h
      → h.phase ≡ settled last_error
      → get r.fetches id ≡ some f
      → Answers f (get (return_fetch j h last_error r).fetches id)
  unfolding return_fetch
  return_fetch-Answers id j h last_error r e phase there =
      let other : j ≢ id = λ same.
        let is_f : h ≡ f = some-inj (sym e ∙ ap (get r.fetches) same ∙ there) in
        still_running (ap is_running phase) (ap (λ x. is_running x.phase) is_f ∙ runs) in
      kept-Answers
        (return_fetch-fetches j h last_error r id ∙ get-put-other r.fetches j _ id other ∙ there)

  fire_timer-Answers :
      (id t : ℕ) (p : Text) (r : Registry)
      → IsWellFormed r
      → get r.fetches id ≡ some f
      → Answers f (get (fire_timer t p r).fetches id)
  unfolding fire_timer
  fire_timer-Answers id t p r inv there =
      let gone : Registry = record r {
        armed = delete r.armed t;
        retry_timers = delete r.retry_timers p;
      } in
      elim (Result-cases (fetch_procedure_list p gone)) [
        | inl (s, began) ↦
            rw (began, fire_timer)
              (fetch_procedure_list-Answers id p gone s began inv.fetches there)
        | inr (fault, refused) ↦ rw (refused, fire_timer) (kept-Answers there)
      ]

-- A request is not lost: while a fetch runs that was asked to run again, each piece of the program that
-- leaves the registry undestroyed leaves the fetch running, with the request or with a new read begun.
pub Step-Answers :
    {r s : Registry} {f : PackageFetch}
    → Reach r
    → Step r s
    → (id : ℕ) → get r.fetches id ≡ some f
    → is_running f.phase ≡ true
    → f.rerun_requested ≡ true
    → s.is_destroyed ≡ false
    → Answers f (get s.fetches id)
unfolding continue_fetch finish_destroy
Step-Answers {r} {s} reached (fetched q e) id there runs requested alive =
    fetch_procedure_list-Answers runs requested id q r s e (Reach-IsWellFormed reached).fetches
      there
Step-Answers {r} reached (completed j {f = h} result e phase) id there runs requested alive =
    complete_read-Answers runs requested id j h result r e there
Step-Answers {r} reached (continued j {f = h} {e = last_error} e phase) id there runs requested
      alive =
    continue_fetch-Answers runs requested id j h last_error r alive e phase there
Step-Answers {r} reached (finished j {f = h} {e = last_error} e phase) id there runs requested
      alive =
    return_fetch-Answers runs requested id j h last_error r e phase there
Step-Answers {r} reached (fired t q e quiet) id there runs requested alive =
    fire_timer-Answers runs requested id t q r (Reach-IsWellFormed reached) there
Step-Answers {r} reached destroyed id there runs requested alive =
    kept-Answers runs requested (destroy-fetches id r ∙ there)
Step-Answers {r} reached (released over settled') id there runs requested alive =
    kept-Answers runs requested there
