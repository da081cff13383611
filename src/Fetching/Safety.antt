-- ===== src/Fetching/Safety.antt =====
-- src/core/procedure-list-base.ts: fetches and timers of the reachable registries.
use typeorm_procedure_kit.Common.{
  some-inj, ℕ, ◌≡◌, ◌∙◌, sym, ap, inl, inr, true, false, some, Bool-cases, nat_eq,
}
use typeorm_procedure_kit.Common.JsMap.{get}
use typeorm_procedure_kit.Common.Text.{Text, text_eq}
use typeorm_procedure_kit.Fetching.{is_running, PackageFetch, Registry, Reach}
use typeorm_procedure_kit.Fetching.Invariant.{no_timer}
use typeorm_procedure_kit.Fetching.Reachable.{Reach-IsWellFormed}

-- In every reachable registry, two fetches of one package that both still run are the same fetch.
pub one_fetch_per_package :
    {r : Registry} {f g : PackageFetch}
    → Reach r
    → (i j : ℕ) → get r.fetches i ≡ some f
    → get r.fetches j ≡ some g
    → is_running f.phase ≡ true
    → is_running g.phase ≡ true
    → f.package_name ≡ g.package_name
    → i ≡ j
one_fetch_per_package {r} {f} {g} reached i j ei ej ri rj same =
    let inv = (Reach-IsWellFormed reached).fetches in
    some-inj (
      sym (inv.registered i f ei ri)
      ∙ ap (get r.package_fetch_states) same
      ∙ inv.registered j g ej rj)

-- In every reachable registry, two timers armed for one package are the same, and the registry is not
-- destroyed.
pub one_timer_per_package :
    {r : Registry} {p : Text}
    → Reach r
    → (t u : ℕ) → get r.armed t ≡ some p
    → get r.armed u ≡ some p
    → (t ≡ u) × (r.is_destroyed ≡ false)
one_timer_per_package {r} {p} reached t u et eu =
    let inv = (Reach-IsWellFormed reached).timers in
    (some-inj (sym (inv.armed_known t p et) ∙ inv.armed_known u p eu), alive)
  where
    alive : r.is_destroyed ≡ false
    alive = elim (Bool-cases r.is_destroyed) [
      | inl over ↦
          let inv = (Reach-IsWellFormed reached).timers in
          absurd (no_timer p r.retry_timers (inv.stopped over) (inv.armed_known t p et))
      | inr alive' ↦ alive'
    ]
