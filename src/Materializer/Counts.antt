-- ===== src/Materializer/Counts.antt =====
-- src/adapters/postgres/postgre-result-materializer.ts: how often a portal is closed, and held in the map.
use typeorm_procedure_kit.Common.{
  ℕ, zero, suc, ◌+◌, ◌≤◌, ◌≡◌, ◌∙◌, refl, arith, inl, inr, Bool, true, false, Option, none, some,
  List, [], ◌∷◌, ◌++◌, min, contains, if◌then◌else◌, Bool-cases, some-inj, Result, ok, err,
}
use mathlib.Core.Path.{subst}
use typeorm_procedure_kit.Common.JsMap.{get, put, delete}
use typeorm_procedure_kit.Common.Text.{Text, text_eq}
use typeorm_procedure_kit.Value.{Value, Heap}
use typeorm_procedure_kit.Tracker.{Tracker, TrackerError}
use typeorm_procedure_kit.ErrorHandler.{Fault}
use typeorm_procedure_kit.Materializer.{PortalOutput, close_pending_portals}
use typeorm_procedure_kit.PortalFetch.{
  PortalEvent, fetched, closed, Server, MaterializeError, fetch_size, add_rows, after_rows,
  after_fetch, fetch_rows, fetch_fuel, fetch_and_close_portal,
}

-- how often a portal is closed
abbrev pub closes : Text → List PortalEvent → ℕ
closes n [] = 0
closes n (fetched p k ∷ es) = closes n es
closes n (closed p ∷ es) = (if text_eq.beq p n then 1 else 0) + closes n es

-- how many entries of the map hold a portal of this name
abbrev pub holders : Text → List (Text × PortalOutput) → ℕ
holders n [] = 0
holders n ((k, p) ∷ portals) = (if text_eq.beq p.portal_name n then 1 else 0) + holders n portals

pub closes-append :
    (n : Text) (xs ys : List PortalEvent) → closes n (xs ++ ys) ≡ closes n xs + closes n ys
closes-append n [] ys = omega arith
closes-append n (fetched p k ∷ xs) ys = closes-append n xs ys
closes-append n (closed p ∷ xs) ys = omega (arith, closes-append n xs ys)

pub holders-delete :
    (n k : Text) (portals : List (Text × PortalOutput)) (p : PortalOutput)
    → get portals k ≡ some p
    → holders n (delete portals k) + (if text_eq.beq p.portal_name n then 1 else 0)
      ≡ holders n portals
unfolding get delete
holders-delete n k [] p h = cc
holders-delete n k ((j, q) ∷ portals) p h = elim (Bool-cases (text_eq.beq j k)) [
  | inl yes' ↦
      let same : q ≡ p = some-inj (rw yes' at h) in
      rw yes' (
        subst
          (λ x.
            holders n portals + (if text_eq.beq x.portal_name n then 1 else 0)
            ≡ (if text_eq.beq q.portal_name n then 1 else 0) + holders n portals)
          same (omega arith))
  | inr no' ↦ rw no' (omega (arith, holders-delete n k portals p (rw no' at h)))
]

pub holders-put :
    (n k : Text) (portals : List (Text × PortalOutput)) (p : PortalOutput)
    → holders n (put portals k p)
      ≤ holders n portals + (if text_eq.beq p.portal_name n then 1 else 0)
unfolding put
holders-put n k [] p = omega arith
holders-put n k ((j, q) ∷ portals) p = elim (Bool-cases (text_eq.beq j k)) [
  | inl yes' ↦ rw yes' (omega arith)
  | inr no' ↦ rw no' (omega (arith, holders-put n k portals p))
]

-- what stays open is closed at the end, each name once
pub closes-close_pending_portals :
    (n : Text) (names : List Text) (portals : List (Text × PortalOutput))
    → closes n (close_pending_portals names portals)
      ≡ (if contains n names then 0 else min 1 (holders n portals))
unfolding close_pending_portals
closes-close_pending_portals n names [] = ground arith
closes-close_pending_portals n names ((k, p) ∷ portals) = ground (
  arith,
  text_eq.beq_iff p.portal_name n,
  closes-close_pending_portals n names portals,
  closes-close_pending_portals n (p.portal_name ∷ names) portals,
)

module _ (heap : Heap) (server : Server) (n : Text) where
  pub closes-fetch_rows :
      (fuel : ℕ) (portal : Text) (t : Tracker) (rows : List Value)
      → closes n (fetch_rows heap server fuel portal t rows).0 ≡ 0
  unfolding fetch_rows after_fetch after_rows
  closes-fetch_rows zero portal t rows = refl
  closes-fetch_rows (suc fuel) portal t rows =
      closes-after_fetch t rows (server.fetch portal rows (fetch_size t)) _
        (λ t' rows'. closes-fetch_rows fuel portal t' rows')
    where
      closes-after_rows :
          (b : Bool) (rows : List Value) (p : Tracker × Option TrackerError)
          (next : Tracker → List PortalEvent × Result MaterializeError (Tracker × List Value))
          → ((t' : Tracker) → closes n (next t').0 ≡ 0)
          → closes n (after_rows b rows p next).0 ≡ 0
      closes-after_rows true rows (t, none) next h = refl
      closes-after_rows false rows (t, none) next h = h t
      closes-after_rows b rows (t, some e) next h = refl

      closes-after_fetch :
          (t : Tracker) (rows : List Value) (answer : Result Fault (List Value))
          (next : Tracker
            → List Value
            → List PortalEvent × Result MaterializeError (Tracker × List Value))
          → ((t' : Tracker) (rows' : List Value) → closes n (next t' rows').0 ≡ 0)
          → closes n (after_fetch heap t rows answer next).0 ≡ 0
      closes-after_fetch t rows (err f) next h = refl
      closes-after_fetch t rows (ok batch) next h =
          closes-after_rows _ _ (add_rows heap t batch) _ (λ t'. h t' _)

  pub closes-fetch_and_close_portal :
      (portal : Text) (t : Tracker)
      → closes n (fetch_and_close_portal heap server portal t).0
        ≡ (if text_eq.beq portal n then 1 else 0)
  unfolding fetch_and_close_portal
  closes-fetch_and_close_portal portal t =
      closes-append n (fetch_rows heap server (fetch_fuel t) portal t []).0 (closed portal ∷ [])
      ∙ omega (arith, closes-fetch_rows (fetch_fuel t) portal t [])
