-- ===== src/Materializer/Tests.antt =====
-- Two portals of which the second fails, and a portal read in batches.
use typeorm_procedure_kit.Common.{
  ◌≡◌, ◌≤◌, refl, arith, none, List, [], ◌∷◌, length, take, drop, ok, err,
}
use typeorm_procedure_kit.Common.Int.{pos, negsuc}
use typeorm_procedure_kit.Common.JsMap.{delete}
use typeorm_procedure_kit.Common.Text.{Text, codes, to_lower_case, trim}
use typeorm_procedure_kit.Regex.{matches}
use typeorm_procedure_kit.Value.{Value, null, string}
use typeorm_procedure_kit.Tracker.{Tracker, new_tracker, postgre_sql, remaining_rows}
use typeorm_procedure_kit.Tracker.Measure.{measure_value, measure_utf8}
use typeorm_procedure_kit.Tracker.Row.{measure_row}
use typeorm_procedure_kit.Tracker.Utf8.{utf8, code_points}
use typeorm_procedure_kit.ErrorHandler.{error_fault}
use typeorm_procedure_kit.Materializer.{OutBinding, cursor_type, Row, collect_portals, materialize}
use typeorm_procedure_kit.PortalFetch.{fetched, closed, Server, add_rows, fetch_and_close_portal}
use typeorm_procedure_kit.PortalFetch.Contents.{
  Ends, fetch_and_close_portal-Ends, fetch_and_close_portal-contents,
}
use typeorm_procedure_kit.Materializer.Counts.{closes, holders}
use typeorm_procedure_kit.Materializer.Closing.{materialize-closes_once}

abbrev same_name : Text → Text
same_name s = s

-- every portal gives one row for ever
abbrev endless : Server
endless = record { fetch = λ portal rows size. ok (null ∷ []); close = λ portal. ok tt }

abbrev failing : Server
failing = record { fetch = λ portal rows size. err (error_fault 3); close = λ portal. ok tt }

abbrev three : List Value
three = string (codes "a") ∷ string (codes "b") ∷ null ∷ []

abbrev rows_of : List Value → Server
rows_of contents = record {
  fetch = λ portal rows size. elim size [
    | pos k ↦ ok (take k (drop (length rows) contents))
    | negsuc k ↦ ok []
  ];
  close = λ portal. ok tt;
}

abbrev tracker : Tracker
tracker = new_tracker postgre_sql (record { max_procedure_rows = 5; max_procedure_bytes = 100 }) []

abbrev counted : Tracker
counted = (add_rows [] tracker three).0

accepted : add_rows [] tracker three ≡ (counted, none)
unfolding add_rows measure_row measure_value measure_utf8
accepted = refl

abbrev binding : Text → OutBinding
binding name = record {
  name = name;
  type = cursor_type;
  database_type = none;
  structured_type = none;
}

abbrev bindings : List OutBinding
bindings = binding (codes "x") ∷ binding (codes "y") ∷ []

abbrev output : Row
output = (codes "x", string (codes "p1")) ∷ (codes "Y", string (codes "p2")) ∷ []

-- The first portal fails; both are closed.
failure_closes_both :
    (materialize same_name [] output [] failing (ok []) bindings tracker).0
    ≡ fetched (codes "p1") (pos 6) ∷ closed (codes "p1") ∷ closed (codes "p2") ∷ []
unfolding materialize to_lower_case utf8 code_points matches trim remaining_rows delete
failure_closes_both = refl

fetch_and_close_portal-Ends_example : Ends (fetch_and_close_portal [] endless (codes "p1") tracker)
fetch_and_close_portal-Ends_example =
    fetch_and_close_portal-Ends [] endless (codes "p1") tracker (omega arith)

fetch_and_close_portal-contents_example :
    (fetch_and_close_portal [] (rows_of three) (codes "p1") tracker).1 ≡ ok (counted, three)
fetch_and_close_portal-contents_example =
    fetch_and_close_portal-contents [] (rows_of three) (codes "p1") three (λ rows k. refl) tracker
      counted (omega arith) accepted refl

materialize-closes_once_example :
    (closes (codes "p2") (materialize same_name [] output [] failing (ok []) bindings tracker).0
      ≡ holders (codes "p2") (collect_portals same_name [] output bindings [] []).0)
    × (holders (codes "p2") (collect_portals same_name [] output bindings [] []).0 ≤ 1)
materialize-closes_once_example =
    materialize-closes_once same_name [] output [] failing [] bindings tracker (codes "p2")
