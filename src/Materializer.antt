-- ===== src/Materializer.antt =====
-- src/adapters/postgres/postgre-result-materializer.ts: scalar outputs and cursor portals. The answers of the
-- server, the naming strategy, and what `loadCompositeOutputs` returned or threw are arguments. Statements are
-- events; log messages are left out.
pub mod Counts
pub mod Closing
mod Tests
use typeorm_procedure_kit.Common.{
  ℕ, zero, suc, ◌+◌, ◌≡◌, Bool, true, false, not, ◌&&◌, ◌||◌, Option, none, some, List, [], ◌∷◌,
  ◌++◌, length, min, ltb, contains, if◌then◌else◌, Result, ok, err, guard, ◌>>=◌, ◌>>◌,
}
use typeorm_procedure_kit.Common.Int.{ℤ, pos, negsuc}
use typeorm_procedure_kit.Common.JsMap.{get, has, put, delete}
use typeorm_procedure_kit.Common.Text.{Text, text_eq, to_lower_case}
use typeorm_procedure_kit.Value.{Value, undefined, Heap}
use typeorm_procedure_kit.Tracker.{Tracker, TrackerError, add_row, add_value, remaining_rows}
use typeorm_procedure_kit.ErrorHandler.{Fault}
use typeorm_procedure_kit.Retry.{as_error}
use typeorm_procedure_kit.Portal.{PortalError, unnamed_portal, assert_returned}
use typeorm_procedure_kit.Metadata.{StructuredType}
use typeorm_procedure_kit.PortalFetch.{
  MaterializeError, PortalEvent, Server, closed, composite_error, fetch_and_close_portal,
  portal_error, repeated_portal, tracker_error,
}

pub data OutType : Type 0 where
  cursor_type scalar_type lob_type object_type array_type : OutType

-- IProcedureOutBinding
pub record OutBinding : Type 0 where
  pub name : Text
  pub type : OutType
  pub database_type : Option Text
  pub structured_type : Option StructuredType

-- IPortalOutput; `quotedPortal` is the quoted `portal_name`
pub record PortalOutput : Type 0 where
  pub output_name : Text
  pub portal_name : Text

abbrev pub Row : Type 0
Row = List (Text × Value)

-- the first of the keys that are equal up to case
unfoldable pub index_output_keys : Row → List (Text × Text) → List (Text × Text)
unfolding has put
index_output_keys [] keys = keys
index_output_keys ((key, value) ∷ rest) keys =
    let normalized = to_lower_case key in
    index_output_keys rest (if has keys normalized then keys else put keys normalized key)

abbrev pub value_or_undefined : Option Value → Value
value_or_undefined none = undefined
value_or_undefined (some v) = v

abbrev pub or_key : Option Text → Text → Text
or_key none key = key
or_key (some found) key = found

unfoldable pub read_output_value : Row → Text → Text → Value
unfolding index_output_keys get has
read_output_value output_record binding_name output_name =
    let raw_key =
      or_key (get (index_output_keys output_record []) (to_lower_case binding_name))
        (if has output_record output_name then output_name else binding_name) in
    value_or_undefined (get output_record raw_key)

-- closePendingPortals: a failure to close is only logged
unfoldable pub close_pending_portals : List Text → List (Text × PortalOutput) → List PortalEvent
close_pending_portals closed_names [] = []
close_pending_portals closed_names ((name, portal) ∷ rest) =
    let skipped = close_pending_portals closed_names rest in
    let others = close_pending_portals (portal.portal_name ∷ closed_names) rest in
    if contains portal.portal_name closed_names then skipped else closed portal.portal_name ∷ others

pub data OutValue : Type 0 where
  scalar : Value → OutValue
  cursor_rows : List Value → OutValue

-- IProcedureResult
pub record ProcedureResult : Type 0 where
  pub rows : List Value
  pub out_binds : List (Text × OutValue)

abbrev pub is_cursor_type : OutType → Bool
is_cursor_type cursor_type = true
is_cursor_type _ = false

module _ (transform_column_name : Text → Text) (cursors_names : List Text)
    (output_record : Row) where
  abbrev pub returned_value : OutBinding → Value
  returned_value b = read_output_value output_record b.name (transform_column_name b.name)

  -- behind the check of a returned name: the portals, and the rest of the loop
  unfoldable pub note_portal :
      OutBinding
      → Result PortalError Text
      → List (Text × PortalOutput)
      → List Text
      → (List (Text × PortalOutput)
          → List Text
          → List (Text × PortalOutput) × Result MaterializeError (Unit {0}))
      → List (Text × PortalOutput) × Result MaterializeError (Unit {0})
  note_portal b (err (unnamed_portal name)) portals used next = (
    put portals b.name (record { output_name = transform_column_name b.name; portal_name = name }),
    err (portal_error (unnamed_portal name)),
  )
  note_portal b (err e) portals used next = (portals, err (portal_error e))
  note_portal b (ok name) portals used next =
      let portal : PortalOutput = record {
        output_name = transform_column_name b.name;
        portal_name = name;
      } in
      let noted = next (put portals b.name portal) (name ∷ used) in
      if contains name used then (portals, err (repeated_portal name)) else noted

  -- the loop that collects the portals
  unfoldable pub collect_portals :
      List OutBinding
      → List (Text × PortalOutput)
      → List Text
      → List (Text × PortalOutput) × Result MaterializeError (Unit {0})
  unfolding note_portal assert_returned read_output_value
  collect_portals [] portals used = (portals, ok tt)
  collect_portals (b ∷ bindings) portals used =
      let rest = collect_portals bindings in
      if is_cursor_type b.type || contains b.name cursors_names
      then note_portal b (assert_returned (returned_value b)) portals used rest
      else rest portals used

  module _ (heap : Heap) (server : Server) (composite_outputs : List (Text × Value)) where
    abbrev pub scalar_value : OutBinding → Value
    scalar_value b = elim b.structured_type [
      | none ↦ returned_value b
      | some t ↦ value_or_undefined (get composite_outputs b.name)
    ]

    -- behind a scalar: its entry, and the rest of the loop
    unfoldable pub after_scalar :
        List (Text × PortalOutput)
        → Tracker × Option TrackerError
        → (Tracker
            → List PortalEvent
              × List (Text × PortalOutput)
              × Result MaterializeError ProcedureResult)
        → List PortalEvent × List (Text × PortalOutput) × Result MaterializeError ProcedureResult
    after_scalar portals (t, some e) next = ([], portals, err (tracker_error e))
    after_scalar portals (t, none) next = next t

    -- behind a portal: its rows, and the rest of the loop
    unfoldable pub after_portal :
        List (Text × PortalOutput)
        → List PortalEvent × Result MaterializeError (Tracker × List Value)
        → (Tracker
            → List Value
            → List PortalEvent
              × List (Text × PortalOutput)
              × Result MaterializeError ProcedureResult)
        → List PortalEvent × List (Text × PortalOutput) × Result MaterializeError ProcedureResult
    after_portal portals (events, err e) next = (events, portals, err e)
    after_portal portals (events, ok (t, rows)) next =
        let (more, left, result) = next t rows in (events ++ more, left, result)

    -- the loop that delivers the outputs, with the portals that it leaves open
    unfoldable pub deliver :
        List OutBinding
        → List (Text × PortalOutput)
        → Tracker
        → ProcedureResult
        → List PortalEvent × List (Text × PortalOutput) × Result MaterializeError ProcedureResult
    unfolding after_scalar after_portal add_value fetch_and_close_portal
    deliver [] portals t r = ([], portals, ok r)
    deliver (b ∷ bindings) portals t r =
        let rest = deliver bindings in
        elim (get portals b.name) [
          | none ↦ after_scalar portals (add_value heap t (scalar_value b)) (λ t'.
              rest portals t' (record r {
                out_binds =
                    put r.out_binds (transform_column_name b.name) (scalar (scalar_value b));
              }))
          | some portal ↦
              let left = delete portals b.name in
              after_portal left (fetch_and_close_portal heap server portal.portal_name t)
                (λ t' rows. rest left t' (record {
                  rows = r.rows ++ rows;
                  out_binds = put r.out_binds portal.output_name (cursor_rows rows);
                }))
        ]

    -- with the composite outputs
    unfoldable pub materialize_outputs :
        List OutBinding → Tracker → List PortalEvent × Result MaterializeError ProcedureResult
    unfolding collect_portals deliver close_pending_portals
    materialize_outputs bindings t =
        let (portals, collected) = collect_portals bindings [] [] in
        elim collected [
          | err e ↦ (close_pending_portals [] portals, err e)
          | ok u ↦
              let (events, left, result) =
                deliver bindings portals t (record { rows = []; out_binds = [] }) in
              (events ++ close_pending_portals [] left, result)
        ]

  unfoldable pub materialize :
      Heap
      → Server
      → Result Fault (List (Text × Value))
      → List OutBinding
      → Tracker
      → List PortalEvent × Result MaterializeError ProcedureResult
  unfolding materialize_outputs
  materialize heap server (err e) bindings t = ([], err (composite_error e))
  materialize heap server (ok outputs) bindings t =
      materialize_outputs heap server outputs bindings t
