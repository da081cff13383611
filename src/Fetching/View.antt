-- ===== src/Fetching/View.antt =====
-- src/core/procedure-list-base.ts: the registry as the readers of one package see it.
use typeorm_procedure_kit.Common.{
  ℕ, ◌≡◌, ◌≢◌, ◌⊎◌, ◌∙◌, refl, sym, ap, arith, inl, inr, Bool, true, false, Option, none, some,
  nat_eq, if◌then◌else◌, Bool-cases, some-inj,
}
use mathlib.Core.Path.{subst}
use native.Mathlib.Decide.{ℕ_discrete}
use typeorm_procedure_kit.Common.JsMap.{get, has, put, get-put, get-put-same, get-put-other}
use typeorm_procedure_kit.Common.Text.{Text, text_eq}
use typeorm_procedure_kit.Normalizer.{ProcedureList}
use typeorm_procedure_kit.Fetching.{is_running, PackageFetch, Registry, begin_fetch, set_fetch}
use typeorm_procedure_kit.Fetching.Invariant.{IsWellFormed, fresh_fetch}

-- One package: what is stored, whether a fetch of it runs and a timer waits, and whether the registry is
-- destroyed.
pub record PackageView : Type 0 where
  pub snapshot : Option ProcedureList
  pub busy : Bool
  pub retrying : Bool
  pub closed : Bool

abbrev pub runs : Option PackageFetch → Bool
runs none = false
runs (some f) = is_running f.phase

abbrev pub registered_fetch : Registry → Option ℕ → Option PackageFetch
registered_fetch r none = none
registered_fetch r (some id) = get r.fetches id

abbrev pub view : Text → Registry → PackageView
view p r = record {
  snapshot = get r.packages_with_procedures_list p;
  busy = runs (registered_fetch r (get r.package_fetch_states p));
  retrying = has r.retry_timers p;
  closed = r.is_destroyed;
}

-- The specification: what one step may do to a package.
pub data Move (v : PackageView) : PackageView → Type 0 where
  stay : Move v v
  begin : v.closed ≡ false → v.busy ≡ false → Move v (record v { busy = true })
  publish :
      (s : ProcedureList)
      → v.closed ≡ false
      → v.busy ≡ true
      → Move v (record v { snapshot = some s; retrying = false })
  fail : v.closed ≡ false → v.busy ≡ true → Move v (record v { retrying = true })
  rest : v.busy ≡ true → Move v (record v { busy = false })
  retry : v.closed ≡ false → v.retrying ≡ true → Move v (record v { busy = true; retrying = false })
  close : v.closed ≡ false → Move v (record v { retrying = false; closed = true })
  drop : v.closed ≡ true → v.busy ≡ false → Move v (record v { snapshot = none })

pub view-ext :
    (v w : PackageView)
    → v.snapshot ≡ w.snapshot
    → v.busy ≡ w.busy
    → v.retrying ≡ w.retrying
    → v.closed ≡ w.closed
    → v ≡ w
view-ext v w a b c d = cc

-- A fetch that changes, but runs as it did, changes no view.
pub view-set_fetch :
    (p : Text) (id : ℕ) (f g : PackageFetch) (r : Registry)
    → get r.fetches id ≡ some f
    → is_running g.phase ≡ is_running f.phase
    → view p (set_fetch id g r) ≡ view p r
view-set_fetch p id f g r e same = view-ext _ _ refl (go (get r.package_fetch_states p)) refl refl
  where
    go : (o : Option ℕ) → runs (registered_fetch (set_fetch id g r) o) ≡ runs (registered_fetch r o)
    go none = refl
    go (some i) = elim (ℕ_discrete id i) [
      | yes here ↦
          subst (λ x. runs (get (put r.fetches id g) x) ≡ runs (get r.fetches x)) here
            (ap runs (get-put-same r.fetches id g) ∙ same ∙ ap runs (sym e))
      | no other ↦ ap runs (get-put-other r.fetches id g i other)
    ]

pub option-dec : (o : Option ℕ) (id : ℕ) → (o ≡ some id) ⊎ (o ≢ some id)
option-dec none id = inr (λ e. cc)
option-dec (some i) id = elim (ℕ_discrete i id) [
  | yes same ↦ inl (ap some same)
  | no other ↦ inr (λ e. other (some-inj e))
]

pub Move-same : {v w : PackageView} → w ≡ v → Move v w
Move-same {v} e = subst (Move v) (sym e) stay

-- a running fetch is registered under its package
pub busy_of_running :
    (id : ℕ) (f : PackageFetch) (r : Registry)
    → get r.fetches id ≡ some f
    → is_running f.phase ≡ true
    → IsWellFormed r
    → (view f.package_name r).busy ≡ true
busy_of_running id f r e h inv =
    ap (λ o. runs (registered_fetch r o)) (inv.fetches.registered id f e h) ∙ ap runs e ∙ h

pub Move-to : {v w x : PackageView} → Move v x → w ≡ x → Move v w
Move-to {v} m e = subst (Move v) (sym e) m

-- a fetch that no longer runs
pub settle-Move :
    (id : ℕ) (f g : PackageFetch) (p : Text) (r : Registry)
    → get r.fetches id ≡ some f
    → is_running f.phase ≡ true
    → is_running g.phase ≡ false
    → Move (view p r) (view p (set_fetch id g r))
settle-Move id f g p r e ran over = elim (option-dec (get r.package_fetch_states p) id) [
  | inl mine ↦
      let before : (view p r).busy ≡ true =
        ap (λ o. runs (registered_fetch r o)) mine ∙ ap runs e ∙ ran in
      let after : (view p (set_fetch id g r)).busy ≡ false =
        ap (λ o. runs (registered_fetch (set_fetch id g r) o)) mine
        ∙ ap runs (get-put-same r.fetches id g)
        ∙ over in
      Move-to (rest before) (view-ext _ _ refl after refl refl)
  | inr other ↦ Move-same (view-ext _ _ refl (go (get r.package_fetch_states p) other) refl refl)
]
  where
    go :
        (o : Option ℕ)
        → o ≢ some id
        → runs (registered_fetch (set_fetch id g r) o) ≡ runs (registered_fetch r o)
    go none h = refl
    go (some i) h = ap runs (get-put-other r.fetches id g i (λ same. h (ap some (sym same))))

pub begin_fetch-busy :
    (q p : Text) (r : Registry)
    → get r.package_fetch_states q ≡ none
    → IsWellFormed r
    → (view p (begin_fetch q r)).busy ≡ (if text_eq.beq q p then true else (view p r).busy)
unfolding begin_fetch
begin_fetch-busy q p r free inv = elim (Bool-cases (text_eq.beq q p)) [
  | inl yes' ↦
      let here = get-put r.package_fetch_states q r.next_id p in
      rw yes' (
        ap (λ o. runs (registered_fetch (begin_fetch q r) o))
          (here ∙ ap (λ b. if b then some r.next_id else get r.package_fetch_states p) yes')
        ∙ ap runs (get-put-same r.fetches r.next_id (fresh_fetch q)))
  | inr no' ↦
      let here = get-put r.package_fetch_states q r.next_id p in
      rw no' (
        ap (λ o. runs (registered_fetch (begin_fetch q r) o))
          (here ∙ ap (λ b. if b then some r.next_id else get r.package_fetch_states p) no')
        ∙ old (get r.package_fetch_states p) refl)
]
  where
    old :
        (o : Option ℕ)
        → get r.package_fetch_states p ≡ o
        → runs (registered_fetch (begin_fetch q r) o) ≡ runs (registered_fetch r o)
    old none e = refl
    old (some i) e =
        let (f, there, name, live) = inv.fetches.known i p e in
        ap runs (
          get-put-other r.fetches r.next_id (fresh_fetch q) i
            (λ same. omega (arith, inv.fetches.fetches_fresh i f there)))

pub begin_fetch-Move :
    (q p : Text) (r : Registry)
    → r.is_destroyed ≡ false
    → get r.package_fetch_states q ≡ none
    → IsWellFormed r
    → Move (view p r) (view p (begin_fetch q r))
unfolding begin_fetch
begin_fetch-Move q p r alive free inv = elim (Bool-cases (text_eq.beq q p)) [
  | inl yes' ↦
      let same : q ≡ p = (text_eq.beq_iff q p).0 yes' in
      let idle : (view p r).busy ≡ false =
        ap (λ o. runs (registered_fetch r o)) (ap (get r.package_fetch_states) (sym same) ∙ free) in
      let after =
        begin_fetch-busy q p r free inv ∙ ap (λ b. if b then true else (view p r).busy) yes' in
      Move-to (begin alive idle) (view-ext _ _ refl after refl refl)
  | inr no' ↦
      let after =
        begin_fetch-busy q p r free inv ∙ ap (λ b. if b then true else (view p r).busy) no' in
      Move-same (view-ext _ _ refl after refl refl)
]
