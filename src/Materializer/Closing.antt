-- ===== src/Materializer/Closing.antt =====
-- src/adapters/postgres/postgre-result-materializer.ts: which portals are closed.
use typeorm_procedure_kit.Common.{
  ℕ, ◌+◌, ◌≤◌, ◌≡◌, ◌∙◌, refl, sym, arith, inl, inr, true, false, ◌||◌, Option, none, some, List,
  [], ◌∷◌, ◌++◌, contains, if◌then◌else◌, Bool-cases, Option-cases, Result, Result-cases, ok, err,
  err-neq-ok,
}
use mathlib.Core.Path.{subst}
use typeorm_procedure_kit.Common.JsMap.{get, put, delete}
use typeorm_procedure_kit.Common.Text.{Text, text_eq}
use typeorm_procedure_kit.Value.{Value, Heap, string}
use typeorm_procedure_kit.Tracker.{Tracker, TrackerError, add_value}
use typeorm_procedure_kit.Portal.{PortalError, unnamed_portal, assert_returned}
use typeorm_procedure_kit.Portal.Safety.{assert_returned-ok_iff, assert_returned-IsUnnamed_iff}
use typeorm_procedure_kit.Materializer.{
  OutBinding, PortalOutput, Row, is_cursor_type, returned_value, returned_value, ProcedureResult,
  close_pending_portals, note_portal, collect_portals, after_scalar, after_portal, deliver,
  materialize_outputs, materialize,
}
use typeorm_procedure_kit.PortalFetch.{
  PortalEvent, Server, MaterializeError, fetch_and_close_portal,
}
use typeorm_procedure_kit.Materializer.Counts.{
  closes, holders, closes-append, holders-delete, holders-put, closes-close_pending_portals,
  closes-fetch_and_close_portal,
}

module _ (transform_column_name : Text → Text) (cursors_names : List Text) (output_record : Row)
    (heap : Heap) (server : Server) (composite_outputs : List (Text × Value)) (n : Text) where
  abbrev Delivered : Type 0
  Delivered =
      List PortalEvent × List (Text × PortalOutput) × Result MaterializeError ProcedureResult

  closes-after_portal :
      (m : ℕ) (left : List (Text × PortalOutput))
      (read : List PortalEvent × Result MaterializeError (Tracker × List Value))
      (next : Tracker → List Value → Delivered)
      → ((t : Tracker) (rows : List Value)
          → closes n (next t rows).0 + holders n (next t rows).1 ≡ m)
      → holders n left ≡ m
      → let d =
          after_portal transform_column_name cursors_names output_record heap server
            composite_outputs left read next in
        closes n d.0 + holders n d.1 ≡ closes n read.0 + m
  unfolding after_portal
  closes-after_portal m left (events, err e) next h same = omega (arith, same)
  closes-after_portal m left (events, ok (t, rows)) next h same =
      omega (arith, h t rows, closes-append n events (next t rows).0)

  closes-after_scalar :
      (m : ℕ) (portals : List (Text × PortalOutput)) (added : Tracker × Option TrackerError)
      (next : Tracker → Delivered)
      → ((t : Tracker) → closes n (next t).0 + holders n (next t).1 ≡ m)
      → holders n portals ≡ m
      → let d =
          after_scalar transform_column_name cursors_names output_record heap server
            composite_outputs portals added next in
        closes n d.0 + holders n d.1 ≡ m
  unfolding after_scalar
  closes-after_scalar m portals (t, none) next h same = h t
  closes-after_scalar m portals (t, some e) next h same = omega (arith, same)

  -- each portal of the map is closed by the loop or left open by it
  closes-deliver :
      (bindings : List OutBinding) (portals : List (Text × PortalOutput)) (t : Tracker)
      (r : ProcedureResult)
      → let d =
          deliver transform_column_name cursors_names output_record heap server composite_outputs
            bindings portals t r in
        closes n d.0 + holders n d.1 ≡ holders n portals
  unfolding deliver
  closes-deliver [] portals t r = omega arith
  closes-deliver (b ∷ bindings) portals t r = elim (Option-cases (get portals b.name)) [
    | inl e ↦
        rw (e, deliver)
          (closes-after_scalar (holders n portals) portals (add_value heap t _) _
            (λ t'. closes-deliver bindings portals t' _) refl)
    | inr (p, e) ↦
        rw (e, deliver)
          (closes-after_portal (holders n (delete portals b.name)) (delete portals b.name)
              (fetch_and_close_portal heap server p.portal_name t) _
              (λ t' rows. closes-deliver bindings (delete portals b.name) t' _) refl
            ∙ omega (
              arith,
              closes-fetch_and_close_portal heap server n p.portal_name t,
              holders-delete n b.name portals p e,
            ))
  ]

closes-finally :
    (n : Text) (events : List PortalEvent) (left : List (Text × PortalOutput)) (m : ℕ)
    → closes n events + holders n left ≡ m
    → m ≤ 1
    → closes n (events ++ close_pending_portals [] left) ≡ m
closes-finally n events left m total few = omega (
  arith,
  total,
  few,
  closes-append n events (close_pending_portals [] left),
  closes-close_pending_portals n [] left,
)

-- the names that were accepted so far
abbrev IsAccepted : List Text → Type 0
IsAccepted used = (s : Text) → contains s used ≡ true → assert_returned (string s) ≡ ok s

abbrev IsHeldOnce : List Text → List (Text × PortalOutput) → Type 0
IsHeldOnce used portals = (s : Text) → holders s portals ≤ (if contains s used then 1 else 0)

-- what `assertReturned` returns or names is the text that it was given
assert_returned-same :
    (v : Value) (s : Text) → assert_returned v ≡ ok s → assert_returned (string s) ≡ ok s
unfolding assert_returned
assert_returned-same (string r) s h =
    let same : s ≡ r = ((assert_returned-ok_iff r s).0 h).0 in
    subst (λ x. assert_returned (string x) ≡ ok s) (sym same) h
assert_returned-same v s h = cc

assert_returned-unnamed :
    (v : Value) (s : Text)
    → assert_returned v ≡ err (unnamed_portal s)
    → assert_returned (string s) ≡ err (unnamed_portal s)
unfolding assert_returned
assert_returned-unnamed (string r) s h =
    let same : s ≡ r = ((assert_returned-IsUnnamed_iff r s).0 h).0 in
    subst (λ x. assert_returned (string x) ≡ err (unnamed_portal s)) (sym same) h
assert_returned-unnamed v s h = cc

module _ (transform_column_name : Text → Text) (cursors_names : List Text)
    (output_record : Row) where
  holders-note_portal :
      (b : OutBinding) (v : Value) (answer : Result PortalError Text)
      (portals : List (Text × PortalOutput)) (used : List Text)
      (next : List (Text × PortalOutput)
        → List Text
        → List (Text × PortalOutput) × Result MaterializeError (Unit {0}))
      → assert_returned v ≡ answer
      → IsAccepted used
      → IsHeldOnce used portals
      → ((portals' : List (Text × PortalOutput)) (used' : List Text)
          → IsAccepted used'
          → IsHeldOnce used' portals'
          → (n : Text) → holders n (next portals' used').0 ≤ 1)
      → (n : Text)
      → holders n
          (note_portal transform_column_name cursors_names output_record b answer portals used
            next).0
        ≤ 1
  unfolding note_portal
  holders-note_portal b v (err (unnamed_portal s)) portals used next e acc once later n =
      let portal : PortalOutput = record {
        output_name = transform_column_name b.name;
        portal_name = s;
      } in
      let fresh : contains s used ≡ false = not-accepted s (assert_returned-unnamed v s e) in
      ground (arith, once n, holders-put n b.name portals portal, text_eq.beq_iff s n)
    where
      not-accepted :
          (s : Text) → assert_returned (string s) ≡ err (unnamed_portal s) → contains s used ≡ false
      not-accepted s h = elim (Bool-cases (contains s used)) [
        | inl yes' ↦ absurd (err-neq-ok (sym h ∙ acc s yes'))
        | inr no' ↦ no'
      ]
  holders-note_portal b v (ok s) portals used next e acc once later n =
      let portal : PortalOutput = record {
        output_name = transform_column_name b.name;
        portal_name = s;
      } in
      elim (Bool-cases (contains s used)) [
        | inl yes' ↦ rw yes' (ground (arith, once n))
        | inr no' ↦ rw no' (
            later (put portals b.name portal) (s ∷ used)
              (λ x h. elim (Bool-cases (text_eq.beq s x)) [
                | inl here ↦
                    subst (λ y. assert_returned (string y) ≡ ok y) ((text_eq.beq_iff s x).0 here)
                      (assert_returned-same v s e)
                | inr other ↦ acc x (ground (arith, text_eq.beq_iff s x, text_eq.beq_iff x s))
              ])
              (λ x. ground (
                arith,
                once x,
                holders-put x b.name portals portal,
                text_eq.beq_iff s x,
                text_eq.beq_iff x s,
              ))
              n)
      ]
  holders-note_portal b v (err f) portals used next e acc once later n = ground (arith, once n)

  -- no two entries of the collected map hold the same portal
  holders-collect_portals :
      (bindings : List OutBinding) (portals : List (Text × PortalOutput)) (used : List Text)
      → IsAccepted used
      → IsHeldOnce used portals
      → (n : Text)
      → holders n
          (collect_portals transform_column_name cursors_names output_record bindings portals
            used).0
        ≤ 1
  unfolding collect_portals
  holders-collect_portals [] portals used acc once n = ground (arith, once n)
  holders-collect_portals (b ∷ bindings) portals used acc once n =
      elim (Bool-cases (is_cursor_type b.type || contains b.name cursors_names)) [
        | inl yes' ↦ rw yes' (
            holders-note_portal b
              (returned_value transform_column_name cursors_names output_record b)
              (assert_returned (returned_value transform_column_name cursors_names output_record b))
              portals used
              (collect_portals transform_column_name cursors_names output_record bindings) refl acc
              once
              (λ portals' used' acc' once' m.
                holders-collect_portals bindings portals' used' acc' once' m)
              n)
        | inr no' ↦ rw no' (holders-collect_portals bindings portals used acc once n)
      ]

  -- With the composite outputs loaded, whatever the server answers and whether reading succeeds or
  -- fails, each portal that the procedure is found to return is closed exactly once, and no other is
  -- closed.
  pub materialize-closes_once :
      (heap : Heap) (server : Server) (composite_outputs : List (Text × Value))
      (bindings : List OutBinding) (t : Tracker) (n : Text)
      → let portals =
          (collect_portals transform_column_name cursors_names output_record bindings [] []).0 in
        (closes n
            (materialize transform_column_name cursors_names output_record heap server
              (ok composite_outputs)
              bindings
              t).0
          ≡ holders n portals)
        × (holders n portals ≤ 1)
  unfolding materialize materialize_outputs
  materialize-closes_once heap server composite_outputs bindings t n =
      let portals =
        (collect_portals transform_column_name cursors_names output_record bindings [] []).0 in
      let d =
        deliver transform_column_name cursors_names output_record heap server composite_outputs
          bindings portals t (record { rows = []; out_binds = [] }) in
      let once = holders-collect_portals bindings [] [] (λ s h. cc) (λ s. omega arith) n in
      elim (Result-cases
        (collect_portals transform_column_name cursors_names output_record bindings [] []).1) [
          | inl (u, e) ↦ (
            rw (e, materialize_outputs)
                (closes-finally n d.0 d.1 (holders n portals)
                  (closes-deliver transform_column_name cursors_names output_record heap server
                    composite_outputs n bindings portals t (record { rows = []; out_binds = [] }))
                  once),
            once,
          )
          | inr (f, e) ↦ (
            rw (e, materialize_outputs)
                (closes-finally n [] portals (holders n portals) (omega arith) once),
            once,
          )
        ]
