-- ===== src/Notifier.antt =====
-- src/core/notify-base.ts: what a notification of the database does to the registry of packages. A promise of a
-- refresh is a number. Log messages are left out, and so is what the adapter does with its channels.
pub mod Refreshed
pub mod Notified
mod Tests
use typeorm_procedure_kit.Common.{
  ℕ, suc, Bool, true, false, not, ◌&&◌, ◌||◌, Option, none, some, List, [], ◌∷◌, ◌++◌, map,
  contains, nat_beq, if◌then◌else◌, Result, ok, err,
}
use typeorm_procedure_kit.Common.Text.{Text, text_eq, codes, trim, to_lower_case, to_upper_case}
use typeorm_procedure_kit.Value.{Value, string}
use typeorm_procedure_kit.ErrorHandler.{Fault}
use typeorm_procedure_kit.Payload.{Properties}
use typeorm_procedure_kit.Fetching.{Registry, fetch_procedure_list}

-- an item of a notification: an object with its own entries, or any other value
pub data NotifyItem : Type 0 where
  object_item : Properties → NotifyItem
  other_item : NotifyItem

-- TNotifyPackageCallback: an array of Oracle, or an object of PostgreSQL
pub data NotifyData : Type 0 where
  items : List NotifyItem → NotifyData
  single : NotifyItem → NotifyData

-- NotifyBase, with the registry that it refreshes
pub record Notifier : Type 0 where
  pub active_refreshes : List ℕ
  pub next_refresh : ℕ
  pub is_destroyed : Bool
  pub registry : Registry

abbrev string_entry : Value → Option Text
string_entry (string s) = some s
string_entry _ = none

-- the first entry whose key is the name up to case
unfoldable pub find_string : Text → Properties → Option Text
find_string field_name [] = none
find_string field_name ((key, value) ∷ entries) =
    let rest = find_string field_name entries in
    if text_eq.beq (to_lower_case key) (to_lower_case field_name) then string_entry value else rest

-- readStringField
unfoldable pub read_string_field : NotifyItem → Text → Option Text
unfolding find_string
read_string_field other_item field_name = none
read_string_field (object_item entries) field_name = find_string field_name entries

-- whether a text that may be missing is truthy
abbrev pub is_given : Option Text → Bool
is_given none = false
is_given (some []) = false
is_given (some (c ∷ s)) = true

abbrev pub given : Option Text → Text
given none = []
given (some s) = s

-- what the synchronous part of the call leaves; a rejection leaves the registry as it was
abbrev pub after_fetch_call : Registry → Result Fault Registry → Registry
after_fetch_call r (ok s) = s
after_fetch_call r (err e) = r

-- refreshPackage, up to the promise
unfoldable pub refresh_package : Text → Notifier → Notifier
unfolding fetch_procedure_list
refresh_package package_name n = if n.is_destroyed then n else record n {
  active_refreshes = n.active_refreshes ++ (n.next_refresh ∷ []);
  next_refresh = suc n.next_refresh;
  registry = after_fetch_call n.registry (fetch_procedure_list package_name n.registry);
}

unfoldable pub remove_refresh : ℕ → List ℕ → List ℕ
remove_refresh refresh [] = []
remove_refresh refresh (r ∷ active) =
    let rest = remove_refresh refresh active in if nat_beq r refresh then rest else r ∷ rest

-- the promise of a refresh is settled
unfoldable pub refresh_settled : ℕ → Notifier → Notifier
unfolding remove_refresh
refresh_settled refresh n = record n {
  active_refreshes = remove_refresh refresh n.active_refreshes;
}

-- destroy, up to its first `await`; a later call only returns the promise
unfoldable pub destroy : Notifier → Notifier
destroy n = record n { is_destroyed = true }

abbrev pub package_key : Text → Text
package_key raw = to_lower_case (trim raw)

-- processPackage
unfoldable pub process_package : List Text → Text → Notifier → Notifier
unfolding refresh_package
process_package packages package_name_raw n =
    let package_name = package_key package_name_raw in
    if is_given (some package_name) && contains package_name (map to_lower_case packages)
    then refresh_package package_name n
    else n

-- the array's items, in their order
unfoldable pub process_items : List Text → List NotifyItem → Notifier → Notifier
unfolding read_string_field process_package
process_items packages [] n = n
process_items packages (item ∷ rest) n =
    let package_name = read_string_field item (codes "name") in
    process_items packages rest
      (if is_given package_name then process_package packages (given package_name) n else n)

abbrev pub is_package_event : Text → Bool
is_package_event event =
    text_eq.beq (to_upper_case event) (codes "DROP")
    || text_eq.beq (to_upper_case event) (codes "CREATE")

unfoldable pub process_single : List Text → NotifyItem → Notifier → Notifier
unfolding read_string_field process_package
process_single packages item n =
    let event = read_string_field item (codes "event") in
    let package_name = read_string_field item (codes "object") in
    if is_given package_name && (is_given event && is_package_event (given event))
    then process_package packages (given package_name) n
    else n

-- packageNotifyCallback, up to its `await`
unfoldable pub package_notify_callback : List Text → NotifyData → Notifier → Notifier
unfolding process_items process_single
package_notify_callback packages (items list) n =
    if n.is_destroyed then n else process_items packages list n
package_notify_callback packages (single item) n =
    if n.is_destroyed then n else process_single packages item n
