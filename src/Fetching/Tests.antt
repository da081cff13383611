-- ===== src/Fetching/Tests.antt =====
-- A package whose first read fails while a second caller asks for it.
use typeorm_procedure_kit.Common.{ℕ, ◌≡◌, refl, true, false, Result, err, nat_eq}
use typeorm_procedure_kit.Common.JsMap.{get, has, put}
use typeorm_procedure_kit.Common.Text.{Text, text_eq, codes}
use typeorm_procedure_kit.ErrorHandler.{Fault, error_fault}
use typeorm_procedure_kit.Normalizer.{ProcedureList}
use typeorm_procedure_kit.Fetching.{
  Registry, new_registry, PackageFetch, reading, begin_fetch, request_rerun, fetch_procedure_list,
  complete_read, Step, fetched, completed, Reach, start, later,
}
use typeorm_procedure_kit.Fetching.Safety.{one_fetch_per_package, one_timer_per_package}
use typeorm_procedure_kit.Fetching.View.{view, Move}
use typeorm_procedure_kit.Fetching.Refinement.{Step-Move}
use typeorm_procedure_kit.Fetching.Requests.{Answers, Step-Answers}

abbrev p : Text
p = codes "p"

abbrev failed : Result Fault ProcedureList
failed = err (error_fault 7)

abbrev begun : Registry
begun = begin_fetch p new_registry

abbrev shared : Registry
shared = request_rerun 0 begun

abbrev shared_fetch : PackageFetch
shared_fetch = record { package_name = p; rerun_requested = true; phase = reading }

abbrev retrying : Registry
retrying = complete_read 0 shared_fetch failed shared

shared-Reach : Reach shared
unfolding fetch_procedure_list get put
shared-Reach = later (later start (fetched p refl)) (fetched p refl)

fails : Step shared retrying
unfolding request_rerun begin_fetch get put
fails = completed 0 failed refl refl

one_fetch_per_package_example : ◌≡◌ {A = ℕ} 0 0
unfolding request_rerun begin_fetch get put
one_fetch_per_package_example = one_fetch_per_package shared-Reach 0 0 refl refl refl refl refl

one_timer_per_package_example : (◌≡◌ {A = ℕ} 1 1) × (retrying.is_destroyed ≡ false)
unfolding complete_read request_rerun begin_fetch get put has
one_timer_per_package_example = one_timer_per_package (later shared-Reach fails) 1 1 refl refl

Step-Move_example : Move (view p shared) (view p retrying)
Step-Move_example = Step-Move shared-Reach fails p

Step-Answers_example : Answers shared_fetch (get retrying.fetches 0)
unfolding complete_read request_rerun begin_fetch get put has
Step-Answers_example = Step-Answers shared-Reach fails 0 refl refl refl refl
