-- ===== src/Fetching/Invariant.antt =====
-- src/core/procedure-list-base.ts: what holds of the timers and fetches of every registry.
use typeorm_procedure_kit.Common.{
  some-inj, ℕ, suc, ◌<◌, ◌≤◌, ◌≡◌, ◌∙◌, refl, sym, ap, arith, inl, inr, Bool, true, false, none,
  some, List, [], ◌∷◌, nat_eq,
}
use mathlib.Core.Path.{subst}
use native.Mathlib.Decide.{ℕ_discrete}
use typeorm_procedure_kit.Common.JsMap.{
  get, put, delete, IsUnique, get-put, get-put-same, get-put-other, get-put-cases, get-delete,
  put-IsUnique, delete-IsUnique,
}
use typeorm_procedure_kit.Common.Text.{Text, text_eq}
use typeorm_procedure_kit.Fetching.{Phase, reading, returned, is_running, PackageFetch, Registry}

abbrev pub is_returned : Phase → Bool
is_returned (returned e) = true
is_returned _ = false

-- The timers armed are those in the map, and none is left after `destroy`.
pub record TimersMatch (armed : List (ℕ × Text)) (timers : List (Text × ℕ)) (next_id : ℕ)
    (is_destroyed : Bool) : Type 0 where
  pub armed_known : (t : ℕ) (p : Text) → get armed t ≡ some p → get timers p ≡ some t
  pub known_armed : (t : ℕ) (p : Text) → get timers p ≡ some t → get armed t ≡ some p
  pub timers_fresh : (t : ℕ) (p : Text) → get armed t ≡ some p → t < next_id
  pub stopped : is_destroyed ≡ true → timers ≡ []
  pub armed_unique : IsUnique armed
  pub timers_unique : IsUnique timers

-- A fetch that runs is the one registered under its package.
pub record FetchesMatch (fetches : List (ℕ × PackageFetch)) (states : List (Text × ℕ)) (next_id : ℕ)
    : Type 0 where
  pub registered :
      (id : ℕ) (f : PackageFetch)
      → get fetches id ≡ some f
      → is_running f.phase ≡ true
      → get states f.package_name ≡ some id
  pub known :
      (id : ℕ) (p : Text)
      → get states p ≡ some id
      → (f : PackageFetch) × (get fetches id ≡ some f)
        × (f.package_name ≡ p)
        × (is_returned f.phase ≡ false)
  pub fetches_fresh : (id : ℕ) (f : PackageFetch) → get fetches id ≡ some f → id < next_id
  pub states_unique : IsUnique states

abbrev pub HasTimers : Registry → Type 0
HasTimers r = TimersMatch r.armed r.retry_timers r.next_id r.is_destroyed

abbrev pub HasFetches : Registry → Type 0
HasFetches r = FetchesMatch r.fetches r.package_fetch_states r.next_id

pub record IsWellFormed (r : Registry) : Type 0 where
  pub timers : HasTimers r
  pub fetches : HasFetches r

abbrev pub fresh_fetch : Text → PackageFetch
fresh_fetch p = record { package_name = p; rerun_requested = false; phase = reading }

pub no_timer :
    (p : Text) (timers : List (Text × ℕ)) {t : ℕ} → timers ≡ [] → get timers p ≡ some t → ⊥
unfolding get
no_timer p [] e h = cc
no_timer p (x ∷ timers) e h = cc

module _ {armed : List (ℕ × Text)} {timers : List (Text × ℕ)} {next_id : ℕ}
    {is_destroyed : Bool} where
  pub TimersMatch-add :
      (p : Text)
      → is_destroyed ≡ false
      → get timers p ≡ none
      → TimersMatch armed timers next_id is_destroyed
      → TimersMatch (put armed next_id p) (put timers p next_id) (suc next_id) is_destroyed
  TimersMatch-add p running fresh inv = record {
    armed_known = λ t q e. ground (
      arith,
      get-put armed next_id p t,
      get-put timers p next_id q,
      inv.armed_known t q,
      text_eq.beq_iff p q,
    );
    known_armed = λ t q e. ground (
      arith,
      get-put armed next_id p t,
      get-put timers p next_id q,
      inv.known_armed t q,
      inv.timers_fresh t q,
      text_eq.beq_iff p q,
    );
    timers_fresh = λ t q e. ground (arith, get-put armed next_id p t, inv.timers_fresh t q);
    stopped = λ e. ground arith;
    armed_unique = put-IsUnique armed next_id p inv.armed_unique;
    timers_unique = put-IsUnique timers p next_id inv.timers_unique;
  }

  pub TimersMatch-remove :
      (t : ℕ) (p : Text)
      → get timers p ≡ some t
      → TimersMatch armed timers next_id is_destroyed
      → TimersMatch (delete armed t) (delete timers p) next_id is_destroyed
  unfolding get
  TimersMatch-remove t p e inv = record {
    armed_known = λ u q h. ground (
      arith,
      get-delete armed t u inv.armed_unique,
      get-delete timers p q inv.timers_unique,
      inv.armed_known u q,
      inv.known_armed t p e,
      text_eq.beq_iff p q,
    );
    known_armed = λ u q h. ground (
      arith,
      get-delete armed t u inv.armed_unique,
      get-delete timers p q inv.timers_unique,
      inv.known_armed u q,
      inv.known_armed t p e,
      text_eq.beq_iff p q,
    );
    timers_fresh =
        λ u q h. ground (arith, get-delete armed t u inv.armed_unique, inv.timers_fresh u q);
    stopped = λ d. absurd (no_timer p timers (inv.stopped d) e);
    armed_unique = delete-IsUnique armed t inv.armed_unique;
    timers_unique = delete-IsUnique timers p inv.timers_unique;
  }

  pub TimersMatch-later :
      (m : ℕ)
      → next_id ≤ m
      → TimersMatch armed timers next_id is_destroyed
      → TimersMatch armed timers m is_destroyed
  TimersMatch-later m le inv = record {
    armed_known = inv.armed_known;
    known_armed = inv.known_armed;
    timers_fresh = λ t p e. omega (arith, inv.timers_fresh t p e);
    stopped = inv.stopped;
    armed_unique = inv.armed_unique;
    timers_unique = inv.timers_unique;
  }

module _ {fetches : List (ℕ × PackageFetch)} {states : List (Text × ℕ)} {next_id : ℕ} where
  pub FetchesMatch-begin :
      (p : Text)
      → get states p ≡ none
      → FetchesMatch fetches states next_id
      → FetchesMatch (put fetches next_id (fresh_fetch p)) (put states p next_id) (suc next_id)
  FetchesMatch-begin p free inv = record {
    registered = λ id f e h. elim (get-put-cases fetches next_id (fresh_fetch p) id e) [
      | inl (same, new) ↦
          subst (λ g. get (put states p next_id) g.package_name ≡ some id) new
            (get-put-same states p next_id ∙ ap some same)
      | inr (other, old) ↦
          let here = inv.registered id f old h in
          get-put-other states p next_id f.package_name (λ same. ground arith) ∙ here
    ];
    known = λ id q e. elim (get-put-cases states p next_id q e) [
      | inl (same, new) ↦ (
        fresh_fetch p,
        subst (λ i. get (put fetches next_id (fresh_fetch p)) i ≡ some (fresh_fetch p)) new
            (get-put-same fetches next_id (fresh_fetch p)),
        same,
        refl,
      )
      | inr (other, old) ↦
          let (f, there, name, live) = inv.known id q old in
          (
            f,
            get-put-other fetches next_id (fresh_fetch p) id
                  (λ same. omega (arith, inv.fetches_fresh id f there))
                ∙ there,
            name,
            live,
          )
    ];
    fetches_fresh = λ id f e. elim (get-put-cases fetches next_id (fresh_fetch p) id e) [
      | inl (same, new) ↦ omega arith
      | inr (other, old) ↦ omega (arith, inv.fetches_fresh id f old)
    ];
    states_unique = put-IsUnique states p next_id inv.states_unique;
  }

  -- a fetch changes, but keeps its package, and does not start again or return
  pub FetchesMatch-set :
      (id : ℕ) (f g : PackageFetch)
      → get fetches id ≡ some f
      → g.package_name ≡ f.package_name
      → (is_running g.phase ≡ true → is_running f.phase ≡ true)
      → (is_returned f.phase ≡ false → is_returned g.phase ≡ false)
      → FetchesMatch fetches states next_id
      → FetchesMatch (put fetches id g) states next_id
  FetchesMatch-set id f g e same ran kept inv = record {
    registered = λ i k e' h. elim (get-put-cases fetches id g i e') [
      | inl (here, new) ↦
          let was = inv.registered id f e (ran (ap (λ x. is_running x.phase) new ∙ h)) in
          ap (λ n. get states n) (sym (ap (λ x. x.package_name) new) ∙ same) ∙ was ∙ ap some here
      | inr (other, old) ↦ inv.registered i k old h
    ];
    known = λ i q e'.
        let (k, there, name, live) = inv.known i q e' in
        elim (ℕ_discrete id i) [
          | yes here ↦
              let is_f : k ≡ f = some-inj (sym there ∙ ap (λ x. get fetches x) (sym here) ∙ e) in
              (
                g,
                subst (λ x. get (put fetches id g) x ≡ some g) here (get-put-same fetches id g),
                same ∙ ap (λ x. x.package_name) (sym is_f) ∙ name,
                kept (ap (λ x. is_returned x.phase) (sym is_f) ∙ live),
              )
          | no other ↦ (k, get-put-other fetches id g i other ∙ there, name, live)
        ];
    fetches_fresh = λ i k e'. elim (get-put-cases fetches id g i e') [
      | inl (here, new) ↦ subst (λ x. x < next_id) here (inv.fetches_fresh id f e)
      | inr (other, old) ↦ inv.fetches_fresh i k old
    ];
    states_unique = inv.states_unique;
  }

  pub FetchesMatch-later :
      (m : ℕ) → next_id ≤ m → FetchesMatch fetches states next_id → FetchesMatch fetches states m
  FetchesMatch-later m le inv = record {
    registered = inv.registered;
    known = inv.known;
    fetches_fresh = λ i f e. omega (arith, inv.fetches_fresh i f e);
    states_unique = inv.states_unique;
  }
