-- ===== src/PortalFetch.antt =====
-- src/adapters/postgres/postgre-result-materializer.ts: the reading of one portal. The answers of the server
-- to FETCH and CLOSE are an argument. Statements are events; log messages are left out.
pub mod Contents
use typeorm_procedure_kit.Common.{
  ℕ, zero, suc, ◌+◌, ◌≡◌, Bool, true, false, not, ◌&&◌, ◌||◌, Option, none, some, List, [], ◌∷◌,
  ◌++◌, length, min, ltb, contains, if◌then◌else◌, Result, ok, err, guard, ◌>>=◌, ◌>>◌,
}
use typeorm_procedure_kit.Common.Int.{ℤ, pos, negsuc}
use typeorm_procedure_kit.Common.JsMap.{get, has, put, delete}
use typeorm_procedure_kit.Common.Text.{Text, text_eq, to_lower_case}
use typeorm_procedure_kit.Value.{Value, undefined, Heap}
use typeorm_procedure_kit.Tracker.{Tracker, TrackerError, add_row, add_value, remaining_rows}
use typeorm_procedure_kit.ErrorHandler.{Fault}
use typeorm_procedure_kit.Retry.{as_error}
use typeorm_procedure_kit.Portal.{PortalError, unnamed_portal, assert_returned}
use typeorm_procedure_kit.Metadata.{StructuredType}

-- FETCH FORWARD of a number of rows from a portal, and CLOSE of one
pub data PortalEvent : Type 0 where
  fetched : Text → ℤ → PortalEvent
  closed : Text → PortalEvent

-- What the server answers: to a fetch from a portal, which gave some rows before, of a number of rows, and
-- to a close.
pub record Server : Type 0 where
  pub fetch : Text → List Value → ℤ → Result Fault (List Value)
  pub close : Text → Result Fault (Unit {0})

pub data MaterializeError : Type 0 where
  out_of_fuel : MaterializeError
  tracker_error : TrackerError → MaterializeError
  server_error composite_error : Fault → MaterializeError
  portal_error : PortalError → MaterializeError
  repeated_portal : Text → MaterializeError

abbrev pub cursor_fetch_batch_size : ℕ
cursor_fetch_batch_size = 1000

abbrev pub min_with : ℕ → ℤ → ℤ
min_with n (pos m) = pos (min n m)
min_with n (negsuc m) = negsuc m

abbrev pub add_one : ℤ → ℤ
add_one (pos n) = pos (suc n)
add_one (negsuc zero) = pos 0
add_one (negsuc (suc n)) = negsuc n

-- `Math.min(CURSOR_FETCH_BATCH_SIZE, tracker.remainingRows + 1)`
unfoldable pub fetch_size : Tracker → ℤ
fetch_size t = min_with cursor_fetch_batch_size (add_one (remaining_rows t))

abbrev pub fewer_than : ℕ → ℤ → Bool
fewer_than n (pos m) = ltb n m
fewer_than n (negsuc m) = false

abbrev pub traced {ℓ} :
    {A : Type ℓ}
    → PortalEvent
    → List PortalEvent × Result MaterializeError A
    → List PortalEvent × Result MaterializeError A
traced e (es, r) = (e ∷ es, r)

-- the end of the loop's body, and the rest of the loop
abbrev pub or_next {ℓ} :
    {A : Type ℓ}
    → Bool
    → A
    → List PortalEvent × Result MaterializeError A
    → List PortalEvent × Result MaterializeError A
or_next true a next = ([], ok a)
or_next false a next = next

-- a step of a loop over rows: the rest of the loop, unless the row is refused
abbrev pub or_stop :
    Tracker × Option TrackerError
    → (Tracker → Tracker × Option TrackerError)
    → Tracker × Option TrackerError
or_stop (t, none) next = next t
or_stop (t, some e) next = (t, some e)

-- rows of a portal that is read and closed: those read before stay if the close succeeds
unfoldable pub closed_result {ℓ} :
    {A : Type ℓ} → Result MaterializeError A → Result Fault (Unit {0}) → Result MaterializeError A
closed_result (err e) close = err e
closed_result (ok a) (err f) = err (server_error (as_error f))
closed_result (ok a) (ok u) = ok a

unfoldable pub after_rows :
    Bool
    → List Value
    → Tracker × Option TrackerError
    → (Tracker → List PortalEvent × Result MaterializeError (Tracker × List Value))
    → List PortalEvent × Result MaterializeError (Tracker × List Value)
after_rows is_last rows (t, some e) next = ([], err (tracker_error e))
after_rows is_last rows (t, none) next = or_next is_last (t, rows) (next t)

module _ (heap : Heap) where
  -- the rows of a batch, up to one that is refused
  unfoldable pub add_rows : Tracker → List Value → Tracker × Option TrackerError
  unfolding add_row
  add_rows t [] = (t, none)
  add_rows t (row ∷ rows) = or_stop (add_row heap t row) (λ t'. add_rows t' rows)

  unfoldable pub after_fetch :
      Tracker
      → List Value
      → Result Fault (List Value)
      → (Tracker → List Value → List PortalEvent × Result MaterializeError (Tracker × List Value))
      → List PortalEvent × Result MaterializeError (Tracker × List Value)
  unfolding after_rows add_rows fetch_size
  after_fetch t rows (err f) next = ([], err (server_error (as_error f)))
  after_fetch t rows (ok batch) next =
      after_rows (fewer_than (length batch) (fetch_size t)) (rows ++ batch) (add_rows t batch)
        (λ t'. next t' (rows ++ batch))

-- enough for a tracker within its limits: each further fetch follows one that gave a row
abbrev pub fetch_fuel : Tracker → ℕ
fetch_fuel t = suc t.limits.max_procedure_rows

module _ (heap : Heap) (server : Server) where
  -- The loop of fetchAndClosePortal, behind fetches that gave `rows`.
  unfoldable pub fetch_rows :
      ℕ
      → Text
      → Tracker
      → List Value
      → List PortalEvent × Result MaterializeError (Tracker × List Value)
  unfolding after_fetch fetch_size
  fetch_rows zero portal t rows = ([], err out_of_fuel)
  fetch_rows (suc fuel) portal t rows = traced (fetched portal (fetch_size t)) (
      after_fetch heap t rows (server.fetch portal rows (fetch_size t))
        (λ t' rows'. fetch_rows fuel portal t' rows'))

  unfoldable pub fetch_and_close_portal :
      Text → Tracker → List PortalEvent × Result MaterializeError (Tracker × List Value)
  unfolding fetch_rows closed_result
  fetch_and_close_portal portal t =
      let (events, result) = fetch_rows (fetch_fuel t) portal t [] in
      (events ++ (closed portal ∷ []), closed_result result (server.close portal))
