-- ===== src/Notifier/Tests.antt =====
-- Notifications of both databases.
use typeorm_procedure_kit.Common.{◌≡◌, refl, false, List, [], ◌∷◌, ◌&&◌, nat_eq}
use typeorm_procedure_kit.Common.JsMap.{get, put, keys}
use typeorm_procedure_kit.Common.Text.{Text, text_eq, codes, trim, to_lower_case, to_upper_case}
use typeorm_procedure_kit.Value.{null, string}
use typeorm_procedure_kit.Fetching.{
  new_registry, fetch_procedure_list, begin_fetch, all_waiting, start,
}
use typeorm_procedure_kit.Notifier.{
  NotifyData, items, single, object_item, other_item, Notifier, refresh_settled,
  package_notify_callback,
}
use typeorm_procedure_kit.Notifier.Refreshed.{Refreshes, is_configured, names}
use typeorm_procedure_kit.Notifier.Notified.{package_notify_callback-Refreshes}

abbrev packages : List Text
packages = codes "Orders" ∷ codes "STOCK" ∷ []

abbrev fresh : Notifier
fresh = record {
  active_refreshes = [];
  next_refresh = 0;
  is_destroyed = false;
  registry = new_registry;
}

abbrev oracle_rows : NotifyData
oracle_rows = items (
    object_item ((codes "NAME", string (codes " ORDERS ")) ∷ [])
    ∷ other_item
    ∷ object_item ((codes "Name", null) ∷ [])
    ∷ object_item ((codes "name", string (codes "other")) ∷ [])
    ∷ object_item ((codes "name", string (codes "stock")) ∷ [])
    ∷ [])

abbrev dropped : NotifyData
dropped = single (
    object_item
      ((codes "event", string (codes "drop")) ∷ (codes "object", string (codes "stock")) ∷ []))

abbrev altered : NotifyData
altered = single (
    object_item
      ((codes "event", string (codes "alter")) ∷ (codes "object", string (codes "stock")) ∷ []))

two_packages :
    keys (package_notify_callback packages oracle_rows fresh).registry.package_fetch_states
    ≡ codes "orders" ∷ codes "stock" ∷ []
unfolding package_notify_callback fetch_procedure_list begin_fetch keys put get to_lower_case trim
two_packages = refl

one_package : (package_notify_callback packages dropped fresh).active_refreshes ≡ 0 ∷ []
unfolding package_notify_callback fetch_procedure_list begin_fetch to_lower_case to_upper_case trim
one_package = refl

settled : (refresh_settled 0 (package_notify_callback packages dropped fresh)).active_refreshes ≡ []
unfolding package_notify_callback fetch_procedure_list begin_fetch refresh_settled to_lower_case
    to_upper_case trim
settled = refl

no_package : package_notify_callback packages altered fresh ≡ fresh
unfolding package_notify_callback to_upper_case to_lower_case
no_package = refl

package_notify_callback-Refreshes_example :
    Refreshes
      (λ p. is_configured p packages && names p oracle_rows)
      new_registry
      (package_notify_callback packages oracle_rows fresh)
unfolding all_waiting
package_notify_callback-Refreshes_example =
    package_notify_callback-Refreshes packages oracle_rows fresh refl start refl refl
