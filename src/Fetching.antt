-- ===== src/Fetching.antt =====
-- src/core/procedure-list-base.ts: the registry of procedure metadata. Reads of a package are fetches,
-- which callers share; a failed read arms a timer for another. One definition is what runs between
-- two `await`s. The timers of the runtime are `armed`; objects have numbers. Log messages are left out, and
-- the clearing of the name parser, which NameParser models.
pub mod Invariant
pub mod Kept
pub mod Reachable
pub mod Safety
pub mod View
pub mod ReadMoves
pub mod Refinement
pub mod Requests
mod Tests
use typeorm_procedure_kit.Common.{
  ℕ, suc, ◌+◌, ◌≡◌, Bool, true, false, not, ◌||◌, ◌&&◌, Option, none, some, List, [], ◌∷◌, nat_beq,
  nat_eq, if◌then◌else◌, Result, ok, err,
}
use typeorm_procedure_kit.Common.JsMap.{get, has, put, delete}
use typeorm_procedure_kit.Common.Text.{Text, text_eq, codes}
use typeorm_procedure_kit.ErrorHandler.{Fault, server_fault, wrapped_fault}
use typeorm_procedure_kit.Normalizer.{ProcedureList}

-- Where `runPackageFetch` stands: awaiting a read, behind one (with `lastError`), at its end, or with its
-- entry removed by the caller that began it.
pub data Phase : Type 0 where
  reading : Phase
  read_done settled returned : (last_error : Option Fault) → Phase

abbrev pub is_running : Phase → Bool
is_running reading = true
is_running (read_done e) = true
is_running _ = false

abbrev pub is_settled : Phase → Bool
is_settled p = not (is_running p)

-- nothing is left to do before other events come
abbrev pub is_waiting : Phase → Bool
is_waiting reading = true
is_waiting (returned e) = true
is_waiting _ = false

-- IPackageFetchControl and IPackageFetchState
pub record PackageFetch : Type 0 where
  pub package_name : Text
  pub rerun_requested : Bool
  pub phase : Phase

-- ProcedureListBase
pub record Registry : Type 0 where
  pub packages_with_procedures_list : List (Text × ProcedureList)
  pub retry_timers : List (Text × ℕ)
  pub package_fetch_states : List (Text × ℕ)
  pub is_destroyed : Bool
  pub fetches : List (ℕ × PackageFetch)
  pub armed : List (ℕ × Text)
  pub next_id : ℕ

abbrev pub new_registry : Registry
new_registry = record {
  packages_with_procedures_list = [];
  retry_timers = [];
  package_fetch_states = [];
  is_destroyed = false;
  fetches = [];
  armed = [];
  next_id = 0;
}

abbrev pub destroyed_fault : Fault
destroyed_fault = server_fault (codes "ProcedureListBase is destroyed")

unfoldable pub begin_fetch : Text → Registry → Registry
begin_fetch package_name r = record r {
  package_fetch_states = put r.package_fetch_states package_name r.next_id;
  fetches =
      put r.fetches r.next_id
        (record { package_name = package_name; rerun_requested = false; phase = reading });
  next_id = suc r.next_id;
}

unfoldable pub request_rerun : ℕ → Registry → Registry
request_rerun id r = elim (get r.fetches id) [
  | none ↦ r
  | some f ↦ record r { fetches = put r.fetches id (record f { rerun_requested = true }) }
]

-- fetchProcedureListWithArguments
unfoldable pub fetch_procedure_list : Text → Registry → Result Fault Registry
unfolding begin_fetch request_rerun
fetch_procedure_list package_name r =
    if r.is_destroyed then err destroyed_fault else elim (get r.package_fetch_states package_name) [
      | none ↦ ok (begin_fetch package_name r)
      | some id ↦ ok (request_rerun id r)
    ]

-- scheduleRetry
unfoldable pub schedule_retry : Text → Registry → Registry
schedule_retry package_name r =
    if r.is_destroyed || has r.retry_timers package_name then r else record r {
      retry_timers = put r.retry_timers package_name r.next_id;
      armed = put r.armed r.next_id package_name;
      next_id = suc r.next_id;
    }

-- clearRetryTimer
unfoldable pub clear_retry_timer : Text → Registry → Registry
clear_retry_timer package_name r = elim (get r.retry_timers package_name) [
  | none ↦ r
  | some timer ↦ record r {
    retry_timers = delete r.retry_timers package_name;
    armed = delete r.armed timer;
  }
]

-- the rest of fetchProcedureListInternal, with what fetchPackageSnapshot returned or threw
unfoldable pub store_snapshot : Text → Result Fault ProcedureList → Registry → Registry
unfolding schedule_retry clear_retry_timer
store_snapshot package_name (err e) r = schedule_retry package_name r
store_snapshot package_name (ok package_snapshot) r = clear_retry_timer package_name (record r {
  packages_with_procedures_list = put r.packages_with_procedures_list package_name package_snapshot;
})

-- `assertActive` behind a read that returned
abbrev pub checked_snapshot : Registry → Result Fault ProcedureList → Result Fault ProcedureList
checked_snapshot r (err e) = err e
checked_snapshot r (ok s) = if r.is_destroyed then err destroyed_fault else ok s

abbrev read_error : Result Fault ProcedureList → Option Fault
read_error (ok s) = none
read_error (err e) = some (wrapped_fault e)

abbrev pub set_fetch : ℕ → PackageFetch → Registry → Registry
set_fetch id f r = record r { fetches = put r.fetches id f }

-- The read of fetch `id` ends.
unfoldable pub complete_read : ℕ → PackageFetch → Result Fault ProcedureList → Registry → Registry
unfolding store_snapshot
complete_read id f result r =
    let checked = checked_snapshot r result in
    set_fetch id (record f { phase = read_done (read_error checked) })
      (store_snapshot f.package_name checked r)

-- shouldRerunFetch
abbrev pub should_rerun_fetch : PackageFetch → Registry → Bool
should_rerun_fetch f r = f.rerun_requested && not r.is_destroyed

-- the head of the loop of runPackageFetch
unfoldable pub continue_fetch : ℕ → PackageFetch → Option Fault → Registry → Registry
continue_fetch id f last_error r =
    set_fetch id
      (if should_rerun_fetch f r
        then record f { rerun_requested = false; phase = reading }
        else record f { phase = settled last_error })
      r

-- `finally` of the caller that began the fetch
unfoldable pub return_fetch : ℕ → PackageFetch → Option Fault → Registry → Registry
return_fetch id f last_error r =
    let finished = set_fetch id (record f { phase = returned last_error }) r in
    elim (get r.package_fetch_states f.package_name) [
      | none ↦ finished
      | some current ↦
          if nat_beq current id
          then record finished {
            package_fetch_states = delete r.package_fetch_states f.package_name;
          }
          else finished
    ]

-- The timer goes off.
unfoldable pub fire_timer : ℕ → Text → Registry → Registry
unfolding fetch_procedure_list
fire_timer timer package_name r =
    let fired = record r {
      armed = delete r.armed timer;
      retry_timers = delete r.retry_timers package_name;
    } in
    elim (fetch_procedure_list package_name fired) [ ok s ↦ s | err e ↦ fired ]

unfoldable pub clear_timeouts : List (Text × ℕ) → List (ℕ × Text) → List (ℕ × Text)
clear_timeouts [] timers = timers
clear_timeouts ((package_name, timer) ∷ rest) timers = clear_timeouts rest (delete timers timer)

-- what the first call of `destroy` does up to its first `await`
unfoldable pub stop_timers : Registry → Registry
unfolding clear_timeouts
stop_timers r = record r {
  is_destroyed = true;
  armed = clear_timeouts r.retry_timers r.armed;
  retry_timers = [];
}

-- a later call only returns the promise
unfoldable pub destroy : Registry → Registry
unfolding stop_timers
destroy r = if r.is_destroyed then r else stop_timers r

abbrev pub phase_settled : Option PackageFetch → Bool
phase_settled none = true
phase_settled (some f) = is_settled f.phase

-- `Promise.allSettled` returns: no registered fetch still runs.
unfoldable pub all_settled : List (ℕ × PackageFetch) → List (Text × ℕ) → Bool
all_settled fetches [] = true
all_settled fetches ((package_name, id) ∷ states) =
    phase_settled (get fetches id) && all_settled fetches states

-- the rest of destroyInternal
unfoldable pub finish_destroy : Registry → Registry
finish_destroy r = record r { package_fetch_states = []; packages_with_procedures_list = [] }

-- What the fetches wait for is no microtask: a timer goes off only then.
unfoldable pub all_waiting : List (ℕ × PackageFetch) → Bool
all_waiting [] = true
all_waiting ((id, f) ∷ fetches) = is_waiting f.phase && all_waiting fetches

-- One synchronous piece of the program, of any caller, fetch or timer.
pub data Step (r : Registry) : Registry → Type 0 where
  fetched :
      (package_name : Text) {s : Registry} → fetch_procedure_list package_name r ≡ ok s → Step r s
  completed :
      (id : ℕ) {f : PackageFetch} (result : Result Fault ProcedureList)
      → get r.fetches id ≡ some f
      → f.phase ≡ reading
      → Step r (complete_read id f result r)
  continued :
      (id : ℕ) {f : PackageFetch} {e : Option Fault}
      → get r.fetches id ≡ some f
      → f.phase ≡ read_done e
      → Step r (continue_fetch id f e r)
  finished :
      (id : ℕ) {f : PackageFetch} {e : Option Fault}
      → get r.fetches id ≡ some f
      → f.phase ≡ settled e
      → Step r (return_fetch id f e r)
  fired :
      (timer : ℕ) (package_name : Text)
      → get r.armed timer ≡ some package_name
      → all_waiting r.fetches ≡ true
      → Step r (fire_timer timer package_name r)
  destroyed : Step r (destroy r)
  released :
      r.is_destroyed ≡ true
      → all_settled r.fetches r.package_fetch_states ≡ true
      → Step r (finish_destroy r)

-- the registries that any interleaving of these pieces leads to
pub data Reach : Registry → Type 0 where
  start : Reach new_registry
  later : {r s : Registry} → Reach r → Step r s → Reach s
