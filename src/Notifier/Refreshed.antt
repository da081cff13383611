-- ===== src/Notifier/Refreshed.antt =====
-- src/core/notify-base.ts: the calls that refresh a package.
use typeorm_procedure_kit.Common.{
  ◌≡◌, refl, sym, ap, ◌∙◌, arith, inl, inr, Bool, true, false, ◌&&◌, ◌||◌, List, [], ◌∷◌, map,
  contains, if◌then◌else◌, Bool-cases, Option-cases, Option, some, any, ℕ, nat_eq, ok, ok-inj,
}
use mathlib.Core.Path.{subst}
use typeorm_procedure_kit.Common.JsMap.{get, put}
use typeorm_procedure_kit.Common.Text.{Text, text_eq, codes, to_lower_case}
use typeorm_procedure_kit.Fetching.{
  Registry, PackageFetch, is_waiting, fetch_procedure_list, begin_fetch, request_rerun, all_waiting,
  Reach, later, fetched,
}
use typeorm_procedure_kit.Fetching.Reachable.{Reach-IsWellFormed}
use typeorm_procedure_kit.Fetching.View.{PackageView, view}
use typeorm_procedure_kit.Fetching.Refinement.{fetch_procedure_list-view, all_waiting-waiting}
use typeorm_procedure_kit.Fetching.Kept.{fetch_procedure_list-cases}
use typeorm_procedure_kit.Notifier.{
  NotifyData, items, single, Notifier, read_string_field, is_given, given, refresh_package,
  package_key, process_package, is_package_event,
}

-- whether a name that was read stands for package `p`
abbrev pub is_name_of : Text → Option Text → Bool
is_name_of p name = is_given name && text_eq.beq (package_key (given name)) p

-- Whether a notification names package `p`.
abbrev pub names : Text → NotifyData → Bool
names p (items list) = any (λ item. is_name_of p (read_string_field item (codes "name"))) list
names p (single item) =
    is_name_of p (read_string_field item (codes "object"))
    && (is_given (read_string_field item (codes "event"))
        && is_package_event (given (read_string_field item (codes "event"))))

-- the packages that can be refreshed
abbrev pub is_configured : Text → List Text → Bool
is_configured p packages = is_given (some p) && contains p (map to_lower_case packages)

-- a view with a fetch that runs, if it is asked for
abbrev pub with_fetch : Bool → PackageView → PackageView
with_fetch asked v = record v { busy = asked || v.busy }

with_one_more :
    (here before : Bool) (v w : PackageView)
    → v ≡ with_fetch before w
    → record v { busy = if here then true else v.busy } ≡ with_fetch (here || before) w
with_one_more true before v w e =
    ap {A = PackageView} {B = PackageView} (λ x. record x { busy = true }) e
with_one_more false before v w e = e

-- A notifier behind calls that asked for packages, from a registry between events: each package that was
-- asked for has a fetch that runs, and all else in the registry is as it was.
pub record Refreshes (asked : Text → Bool) (r : Registry) (n : Notifier) : Type 0 where
  pub active : n.is_destroyed ≡ false
  pub reached : Reach n.registry
  pub alive : n.registry.is_destroyed ≡ false
  pub quiet : all_waiting n.registry.fetches ≡ true
  pub seen : (p : Text) → view p n.registry ≡ with_fetch (asked p) (view p r)

all_waiting-put :
    (fetches : List (ℕ × PackageFetch)) (id : ℕ) (f : PackageFetch)
    → all_waiting fetches ≡ true
    → is_waiting f.phase ≡ true
    → all_waiting (put fetches id f) ≡ true
unfolding all_waiting put
all_waiting-put [] id f quiet h = rw h refl
all_waiting-put ((i, g) ∷ fetches) id f quiet h = ground (arith, all_waiting-put fetches id f)

request_rerun-alive :
    (id : ℕ) (r : Registry) → r.is_destroyed ≡ false → (request_rerun id r).is_destroyed ≡ false
unfolding request_rerun
request_rerun-alive id r alive = ground arith

request_rerun-quiet :
    (id : ℕ) (r : Registry)
    → all_waiting r.fetches ≡ true
    → all_waiting (request_rerun id r).fetches ≡ true
unfolding request_rerun
request_rerun-quiet id r quiet = elim (Option-cases (get r.fetches id)) [
  | inl e ↦ rw (e, request_rerun) quiet
  | inr (f, e) ↦
      rw (e, request_rerun)
        (all_waiting-put r.fetches id (record f { rerun_requested = true }) quiet
          (all_waiting-waiting r.fetches id f quiet e))
]

fetch_procedure_list-quiet :
    (q : Text) (r s : Registry)
    → fetch_procedure_list q r ≡ ok s
    → all_waiting r.fetches ≡ true
    → (s.is_destroyed ≡ false) × (all_waiting s.fetches ≡ true)
unfolding begin_fetch
fetch_procedure_list-quiet q r s h quiet =
    let (alive, how) = fetch_procedure_list-cases q r s h in
    elim how [
      | inl (free, e) ↦
          subst (λ x. (x.is_destroyed ≡ false) × (all_waiting x.fetches ≡ true)) e
            (alive, all_waiting-put r.fetches r.next_id _ quiet refl)
      | inr (id, mine, e) ↦
          subst (λ x. (x.is_destroyed ≡ false) × (all_waiting x.fetches ≡ true)) e
            (request_rerun-alive id r alive, request_rerun-quiet id r quiet)
    ]

-- a refresh asks for one package more
refresh_package-Refreshes :
    (asked : Text → Bool) (q : Text) (r : Registry) (n : Notifier)
    → Refreshes asked r n
    → Refreshes (λ p. text_eq.beq q p || asked p) r (refresh_package q n)
unfolding refresh_package
refresh_package-Refreshes asked q r n h =
    let inv = Reach-IsWellFormed h.reached in
    let (s, began, now) = fetch_procedure_list-view q q n.registry h.alive h.quiet inv in
    let (alive, quiet) = fetch_procedure_list-quiet q n.registry s began h.quiet in
    rw (h.active, refresh_package, began)
      (record {
        active = refl;
        reached = later h.reached (fetched q began);
        alive = alive;
        quiet = quiet;
        seen = λ p.
            let (s', began', now') = fetch_procedure_list-view q p n.registry h.alive h.quiet inv in
            let same : s ≡ s' = ok-inj (sym began ∙ began') in
            ap (view p) same ∙ now' ∙ with_one_more (text_eq.beq q p) (asked p) _ _ (h.seen p);
      })

pub Refreshes-ext :
    {asked asked' : Text → Bool} {r : Registry} {n : Notifier}
    → ((p : Text) → asked p ≡ asked' p)
    → Refreshes asked r n
    → Refreshes asked' r n
Refreshes-ext {r} same h = record {
  active = h.active;
  reached = h.reached;
  alive = h.alive;
  quiet = h.quiet;
  seen = λ p. h.seen p ∙ ap (λ b. with_fetch b (view p r)) (same p);
}

key_configured :
    (packages : List Text) (q p : Text)
    → is_configured q packages ≡ true
    → text_eq.beq q p ≡ (is_configured p packages && text_eq.beq q p)
key_configured packages q p h = elim (Bool-cases (text_eq.beq q p)) [
  | inl yes' ↦
      let here = ap (λ x. is_configured x packages) (sym ((text_eq.beq_iff q p).0 yes')) ∙ h in
      rw (yes', here) refl
  | inr no' ↦ ground arith
]

key_not_configured :
    (packages : List Text) (q p : Text)
    → is_configured q packages ≡ false
    → false ≡ (is_configured p packages && text_eq.beq q p)
key_not_configured packages q p h = elim (Bool-cases (text_eq.beq q p)) [
  | inl yes' ↦
      let here = ap (λ x. is_configured x packages) (sym ((text_eq.beq_iff q p).0 yes')) ∙ h in
      rw (yes', here) refl
  | inr no' ↦ ground arith
]

pub process_package-Refreshes :
    (asked : Text → Bool) (packages : List Text) (raw : Text) (r : Registry) (n : Notifier)
    → Refreshes asked r n
    → Refreshes
        (λ p. (is_configured p packages && text_eq.beq (package_key raw) p) || asked p)
        r
        (process_package packages raw n)
unfolding process_package
process_package-Refreshes asked packages raw r n h =
    let q = package_key raw in
    elim (Bool-cases (is_configured q packages)) [
      | inl yes' ↦
          rw (yes', process_package)
            (Refreshes-ext (λ p. ap (λ b. b || asked p) (key_configured packages q p yes'))
              (refresh_package-Refreshes asked q r n h))
      | inr no' ↦
          rw (no', process_package)
            (Refreshes-ext (λ p. ap (λ b. b || asked p) (key_not_configured packages q p no')) h)
    ]
