-- ===== src/Fetching/Kept.antt =====
-- src/core/procedure-list-base.ts: what the operations of the registry keep.
use typeorm_procedure_kit.Common.{
  ℕ, suc, ◌<◌, ◌≡◌, ◌≢◌, ◌⊎◌, ◌∙◌, refl, sym, ap, arith, inl, inr, Bool, true, false, ◌||◌, none,
  some, List, [], ◌∷◌, nat_eq, Bool-cases, Option-cases, some-inj, ok, ok-inj, err-neq-ok,
}
use mathlib.Core.Path.{subst}
use native.Mathlib.Decide.{ℕ_discrete}
use typeorm_procedure_kit.Common.JsMap.{
  get, has, put, delete, IsUnique, get-put-other, get-put-cases, get-delete, delete-IsUnique,
  has-eq-get,
}
use typeorm_procedure_kit.Common.Text.{Text, text_eq}
use typeorm_procedure_kit.Fetching.{
  is_running, PackageFetch, Registry, begin_fetch, request_rerun, fetch_procedure_list,
  schedule_retry, clear_retry_timer, clear_timeouts, all_settled, phase_settled,
}
use typeorm_procedure_kit.Fetching.Invariant.{
  FetchesMatch, IsWellFormed, TimersMatch-add, TimersMatch-remove, TimersMatch-later,
  FetchesMatch-begin, FetchesMatch-set, FetchesMatch-later,
}

pub still_running : {b : Bool} → b ≡ false → b ≡ true → ⊥
still_running e h = ground arith

-- a fetch that is no longer registered returns
pub FetchesMatch-orphan :
    {fetches : List (ℕ × PackageFetch)} {states : List (Text × ℕ)} {next_id : ℕ} (id : ℕ)
    (f g : PackageFetch)
    → get fetches id ≡ some f
    → is_running g.phase ≡ false
    → get states f.package_name ≢ some id
    → FetchesMatch fetches states next_id
    → FetchesMatch (put fetches id g) states next_id
FetchesMatch-orphan {fetches} {states} {next_id} id f g e over gone inv = record {
  registered = λ i k e' h. elim (get-put-cases fetches id g i e') [
    | inl (here, new) ↦ absurd (still_running (ap (λ x. is_running x.phase) (sym new) ∙ over) h)
    | inr (other, old) ↦ inv.registered i k old h
  ];
  known = λ i q e'.
      let (k, there, name, live) = inv.known i q e' in
      let other : id ≢ i = λ here.
        let is_f : k ≡ f = some-inj (sym there ∙ ap (λ x. get fetches x) (sym here) ∙ e) in
        let at_q : f.package_name ≡ q = ap (λ x. x.package_name) (sym is_f) ∙ name in
        gone (ap (λ n. get states n) at_q ∙ e' ∙ ap some (sym here)) in
      (k, get-put-other fetches id g i other ∙ there, name, live);
  fetches_fresh = λ i k e'. elim (get-put-cases fetches id g i e') [
    | inl (here, new) ↦ subst (λ x. x < next_id) here (inv.fetches_fresh id f e)
    | inr (other, old) ↦ inv.fetches_fresh i k old
  ];
  states_unique = inv.states_unique;
}

-- a settled fetch leaves, with its entry if it is the registered one
pub FetchesMatch-return :
    {fetches : List (ℕ × PackageFetch)} {states : List (Text × ℕ)} {next_id : ℕ} (id : ℕ)
    (f g : PackageFetch)
    → get fetches id ≡ some f
    → is_running g.phase ≡ false
    → get states f.package_name ≡ some id
    → FetchesMatch fetches states next_id
    → FetchesMatch (put fetches id g) (delete states f.package_name) next_id
FetchesMatch-return {fetches} {states} {next_id} id f g e over mine inv = record {
  registered = λ i k e' h. elim (get-put-cases fetches id g i e') [
    | inl (here, new) ↦ absurd (still_running (ap (λ x. is_running x.phase) (sym new) ∙ over) h)
    | inr (other, old) ↦ ground (
      arith,
      get-delete states f.package_name k.package_name inv.states_unique,
      inv.registered i k old h,
      text_eq.beq_iff f.package_name k.package_name,
    )
  ];
  known = λ i q e'.
      let old : get states q ≡ some i =
        ground (arith, get-delete states f.package_name q inv.states_unique) in
      let (k, there, name, live) = inv.known i q old in
      let other : id ≢ i = λ here.
        let is_f : k ≡ f = some-inj (sym there ∙ ap (λ x. get fetches x) (sym here) ∙ e) in
        let at_q : f.package_name ≡ q = ap (λ x. x.package_name) (sym is_f) ∙ name in
        ground (
          arith,
          get-delete states f.package_name q inv.states_unique,
          text_eq.beq_iff f.package_name q,
        ) in
      (k, get-put-other fetches id g i other ∙ there, name, live);
  fetches_fresh = λ i k e'. elim (get-put-cases fetches id g i e') [
    | inl (here, new) ↦ subst (λ x. x < next_id) here (inv.fetches_fresh id f e)
    | inr (other, old) ↦ inv.fetches_fresh i k old
  ];
  states_unique = delete-IsUnique states f.package_name inv.states_unique;
}

pub schedule_retry-IsWellFormed :
    (p : Text) (r : Registry) → IsWellFormed r → IsWellFormed (schedule_retry p r)
unfolding schedule_retry
schedule_retry-IsWellFormed p r inv = elim (Bool-cases (r.is_destroyed || has r.retry_timers p)) [
  | inl yes' ↦ rw yes' inv
  | inr no' ↦
      let alive : r.is_destroyed ≡ false = ground arith in
      let free : get r.retry_timers p ≡ none = ground (arith, has-eq-get r.retry_timers p) in
      rw no' (record {
        timers = TimersMatch-add p alive free inv.timers;
        fetches = FetchesMatch-later (suc r.next_id) (omega arith) inv.fetches;
      })
]

pub clear_retry_timer-IsWellFormed :
    (p : Text) (r : Registry) → IsWellFormed r → IsWellFormed (clear_retry_timer p r)
unfolding clear_retry_timer
clear_retry_timer-IsWellFormed p r inv = elim (Option-cases (get r.retry_timers p)) [
  | inl e ↦ rw (e, clear_retry_timer) inv
  | inr (t, e) ↦
      rw (e, clear_retry_timer)
        (record { timers = TimersMatch-remove t p e inv.timers; fetches = inv.fetches })
]

pub fetch_procedure_list-cases :
    (p : Text) (r s : Registry)
    → fetch_procedure_list p r ≡ ok s
    → (r.is_destroyed ≡ false)
      × (((get r.package_fetch_states p ≡ none) × (begin_fetch p r ≡ s))
          ⊎ ((id : ℕ) × (get r.package_fetch_states p ≡ some id) × (request_rerun id r ≡ s)))
unfolding fetch_procedure_list
fetch_procedure_list-cases p r s h = elim (Bool-cases r.is_destroyed) [
  | inl yes' ↦ absurd (err-neq-ok (rw yes' at h))
  | inr no' ↦ (
    no',
    elim (Option-cases (get r.package_fetch_states p)) [
      | inl e ↦ inl (e, ok-inj (rw (no', e) at h))
      | inr (id, e) ↦ inr (id, e, ok-inj (rw (no', e) at h))
    ],
  )
]

pub request_rerun-IsWellFormed :
    (id : ℕ) (r : Registry) → IsWellFormed r → IsWellFormed (request_rerun id r)
unfolding request_rerun
request_rerun-IsWellFormed id r inv = elim (Option-cases (get r.fetches id)) [
  | inl e ↦ rw (e, request_rerun) inv
  | inr (f, e) ↦
      rw (e, request_rerun)
        (record {
          timers = inv.timers;
          fetches =
              FetchesMatch-set id f (record f { rerun_requested = true }) e refl (λ h. h) (λ h. h)
                inv.fetches;
        })
]

pub begin_fetch-IsWellFormed :
    (p : Text) (r : Registry)
    → get r.package_fetch_states p ≡ none
    → IsWellFormed r
    → IsWellFormed (begin_fetch p r)
unfolding begin_fetch
begin_fetch-IsWellFormed p r free inv = record {
  timers = TimersMatch-later (suc r.next_id) (omega arith) inv.timers;
  fetches = FetchesMatch-begin p free inv.fetches;
}

pub fetch_procedure_list-IsWellFormed :
    (p : Text) (r s : Registry) → fetch_procedure_list p r ≡ ok s → IsWellFormed r → IsWellFormed s
fetch_procedure_list-IsWellFormed p r s h inv = elim ((fetch_procedure_list-cases p r s h).1) [
  | inl (free, e) ↦ subst IsWellFormed e (begin_fetch-IsWellFormed p r free inv)
  | inr (id, mine, e) ↦ subst IsWellFormed e (request_rerun-IsWellFormed id r inv)
]

pub get-clear_timeouts_of_none :
    (timers : List (Text × ℕ)) (armed : List (ℕ × Text)) (t : ℕ)
    → get armed t ≡ none
    → IsUnique armed
    → get (clear_timeouts timers armed) t ≡ none
unfolding clear_timeouts
get-clear_timeouts_of_none [] armed t h u = h
get-clear_timeouts_of_none ((p, x) ∷ timers) armed t h u =
    get-clear_timeouts_of_none timers (delete armed x) t (ground (arith, get-delete armed x t u))
      (delete-IsUnique armed x u)

pub get-clear_timeouts :
    (timers : List (Text × ℕ)) (armed : List (ℕ × Text)) (p : Text) (t : ℕ)
    → get timers p ≡ some t
    → IsUnique armed
    → get (clear_timeouts timers armed) t ≡ none
unfolding clear_timeouts get
get-clear_timeouts [] armed p t h u = cc
get-clear_timeouts ((q, x) ∷ timers) armed p t h u = elim (ℕ_discrete x t) [
  | yes same ↦
      get-clear_timeouts_of_none timers (delete armed x) t (ground (arith, get-delete armed x t u))
        (delete-IsUnique armed x u)
  | no other ↦
      get-clear_timeouts timers (delete armed x) p t (ground arith) (delete-IsUnique armed x u)
]

pub clear_timeouts-IsUnique :
    (timers : List (Text × ℕ)) (armed : List (ℕ × Text))
    → IsUnique armed
    → IsUnique (clear_timeouts timers armed)
unfolding clear_timeouts
clear_timeouts-IsUnique [] armed u = u
clear_timeouts-IsUnique ((q, x) ∷ timers) armed u =
    clear_timeouts-IsUnique timers (delete armed x) (delete-IsUnique armed x u)

pub all_settled-settled :
    (fetches : List (ℕ × PackageFetch)) (states : List (Text × ℕ)) (p : Text) (id : ℕ)
    → all_settled fetches states ≡ true
    → get states p ≡ some id
    → phase_settled (get fetches id) ≡ true
unfolding all_settled get
all_settled-settled fetches [] p id h e = cc
all_settled-settled fetches ((q, x) ∷ states) p id h e = elim (Bool-cases (text_eq.beq q p)) [
  | inl yes' ↦
      let same : x ≡ id = some-inj (rw yes' at e) in
      subst (λ i. phase_settled (get fetches i) ≡ true) same (ground arith)
  | inr no' ↦ all_settled-settled fetches states p id (ground arith) (rw no' at e)
]
