-- ===== src/Notifier/Notified.antt =====
-- src/core/notify-base.ts: which packages a notification refreshes.
use typeorm_procedure_kit.Common.{
  ◌≡◌, refl, sym, arith, inl, inr, Bool, true, false, ◌&&◌, ◌||◌, List, [], ◌∷◌, if◌then◌else◌,
  Bool-cases, Option, nat_eq,
}
use mathlib.Core.Path.{subst}
use typeorm_procedure_kit.Common.Text.{Text, text_eq, codes}
use typeorm_procedure_kit.Fetching.{Registry, all_waiting, Reach}
use typeorm_procedure_kit.Notifier.{
  NotifyItem, NotifyData, items, single, Notifier, read_string_field, is_given, given, package_key,
  process_package, process_items, is_package_event, process_single, package_notify_callback,
}
use typeorm_procedure_kit.Notifier.Refreshed.{
  is_name_of, names, is_configured, Refreshes, Refreshes-ext, process_package-Refreshes,
}

and_true : (b : Bool) → b ≡ (b && true)
and_true true = refl
and_true false = refl

and_false : (b : Bool) → false ≡ (b && false)
and_false true = refl
and_false false = refl

never : (b asked : Bool) → asked ≡ ((b && false) || asked)
never true asked = refl
never false asked = refl

either : (b x y asked : Bool) → ((b && y) || ((b && x) || asked)) ≡ ((b && (x || y)) || asked)
either true true true asked = refl
either true true false asked = refl
either true false y asked = refl
either false x y asked = refl

nothing_asked :
    (n : Notifier)
    → n.is_destroyed ≡ false
    → Reach n.registry
    → n.registry.is_destroyed ≡ false
    → all_waiting n.registry.fetches ≡ true
    → Refreshes (λ p. false) n.registry n
nothing_asked n active reached alive quiet = record {
  active = active;
  reached = reached;
  alive = alive;
  quiet = quiet;
  seen = λ p. refl;
}

-- a name that may be missing
process_given-Refreshes :
    (asked : Text → Bool) (packages : List Text) (name : Option Text) (r : Registry) (n : Notifier)
    → Refreshes asked r n
    → Refreshes
        (λ p. (is_configured p packages && is_name_of p name) || asked p)
        r
        (if is_given name then process_package packages (given name) n else n)
process_given-Refreshes asked packages name r n h = elim (Bool-cases (is_given name)) [
  | inl yes' ↦
      subst
        (λ b.
          Refreshes
            (λ p.
              (is_configured p packages && (b && text_eq.beq (package_key (given name)) p))
              || asked p)
            r (if b then process_package packages (given name) n else n))
        (sym yes') (process_package-Refreshes asked packages (given name) r n h)
  | inr no' ↦
      subst
        (λ b.
          Refreshes
            (λ p.
              (is_configured p packages && (b && text_eq.beq (package_key (given name)) p))
              || asked p)
            r (if b then process_package packages (given name) n else n))
        (sym no') (Refreshes-ext (λ p. never (is_configured p packages) (asked p)) h)
]

process_items-Refreshes :
    (asked : Text → Bool) (packages : List Text) (list : List NotifyItem) (r : Registry)
    (n : Notifier)
    → Refreshes asked r n
    → Refreshes
        (λ p. (is_configured p packages && names p (items list)) || asked p)
        r
        (process_items packages list n)
unfolding process_items
process_items-Refreshes asked packages [] r n h =
    Refreshes-ext (λ p. never (is_configured p packages) (asked p)) h
process_items-Refreshes asked packages (item ∷ list) r n h =
    let name = read_string_field item (codes "name") in
    Refreshes-ext
      (λ p. either (is_configured p packages) (is_name_of p name) (names p (items list)) (asked p))
      (process_items-Refreshes (λ p. (is_configured p packages && is_name_of p name) || asked p)
        packages list r _ (process_given-Refreshes asked packages name r n h))

process_single-Refreshes :
    (packages : List Text) (item : NotifyItem) (r : Registry) (n : Notifier)
    → Refreshes (λ p. false) r n
    → Refreshes
        (λ p. is_configured p packages && names p (single item))
        r
        (process_single packages item n)
unfolding process_single
process_single-Refreshes packages item r n h =
    let event = read_string_field item (codes "event") in
    let name = read_string_field item (codes "object") in
    elim (Bool-cases (is_given event && is_package_event (given event))) [
      | inl yes' ↦
          rw (yes', process_single)
            (subst
              (λ b.
                Refreshes (λ p. is_configured p packages && (is_name_of p name && true)) r
                  (if b then process_package packages (given name) n else n))
              (and_true (is_given name))
              (Refreshes-ext (λ p. ground arith)
                (process_given-Refreshes (λ p. false) packages name r n h)))
      | inr no' ↦
          rw (no', process_single)
            (subst
              (λ b.
                Refreshes (λ p. is_configured p packages && (is_name_of p name && false)) r
                  (if b then process_package packages (given name) n else n))
              (and_false (is_given name)) (Refreshes-ext (λ p. ground arith) h))
    ]

-- Before `destroy`, with a registry between events, a notification leaves a running fetch of exactly those
-- packages more that it names and that are configured; no snapshot and no timer changes.
pub package_notify_callback-Refreshes :
    (packages : List Text) (notification : NotifyData) (n : Notifier)
    → n.is_destroyed ≡ false
    → Reach n.registry
    → n.registry.is_destroyed ≡ false
    → all_waiting n.registry.fetches ≡ true
    → Refreshes
        (λ p. is_configured p packages && names p notification)
        n.registry
        (package_notify_callback packages notification n)
unfolding package_notify_callback
package_notify_callback-Refreshes packages (items list) n active reached alive quiet =
    subst
      (λ b.
        Refreshes (λ p. is_configured p packages && names p (items list)) n.registry
          (if b then n else process_items packages list n))
      (sym active)
      (Refreshes-ext (λ p. ground arith)
        (process_items-Refreshes (λ p. false) packages list n.registry n
          (nothing_asked n active reached alive quiet)))
package_notify_callback-Refreshes packages (single item) n active reached alive quiet =
    subst
      (λ b.
        Refreshes (λ p. is_configured p packages && names p (single item)) n.registry
          (if b then n else process_single packages item n))
      (sym active)
      (process_single-Refreshes packages item n.registry n
        (nothing_asked n active reached alive quiet))
