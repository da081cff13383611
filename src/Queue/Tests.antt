-- ===== src/Queue/Tests.antt =====
-- Runs of the queue, and its theorems at concrete inputs.
use typeorm_procedure_kit.Common.{◌+◌, ◌≡◌, refl, some, none, [], ◌∷◌, length, ok, err}
use typeorm_procedure_kit.Common.JsMap.{get}
use typeorm_procedure_kit.Common.Text.{codes}
use typeorm_procedure_kit.Common.Int.{pos}
use typeorm_procedure_kit.Queue.{
  str, num, obj, array, set, map, Queue, size, dequeue, item_beq, out_of_bounds, remove_item,
  dequeue_from_map, dequeue_from_array,
}
use typeorm_procedure_kit.Queue.Events.{dequeue_conserves}
use typeorm_procedure_kit.Queue.Order.{drain, enqueue_all, drain-enqueue_all}

abbrev pair : Queue
pair = record { queue = set (obj 1 ∷ obj 2 ∷ []); events = [] }

abbrev entries : Queue
entries = record {
  queue = map ((str (codes "a"), obj 1) ∷ (str (codes "b"), obj 2) ∷ []);
  events = [];
}

dequeue_oldest : (dequeue none entries).1 ≡ ok (some (obj 1))
unfolding dequeue remove_item dequeue_from_map get item_beq
dequeue_oldest = refl

dequeue_index :
    (dequeue (some (num (pos 2))) (record { queue = array (obj 1 ∷ []); events = [] })).1
    ≡ err out_of_bounds
unfolding dequeue remove_item dequeue_from_array
dequeue_index = refl

dequeue_conserves_example :
    size (dequeue (some (obj 2)) pair).0.queue + length (dequeue (some (obj 2)) pair).0.events
    ≡ size pair.queue + 0
dequeue_conserves_example = dequeue_conserves (some (obj 2)) pair

drain-enqueue_all_example :
    drain
      (length (obj 7 ∷ obj 8 ∷ []))
      (enqueue_all (obj 8 ∷ []) (record { queue = array (obj 7 ∷ []); events = [] }))
    ≡ some (obj 7) ∷ some (obj 8) ∷ []
drain-enqueue_all_example = drain-enqueue_all (obj 7 ∷ []) (obj 8 ∷ []) []
