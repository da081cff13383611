-- ===== src/Queue/Order.antt =====
-- src/utils/queue-manager.ts: the order of the items of an array queue.
use typeorm_procedure_kit.Common.{
  ℕ, zero, suc, ◌≡◌, refl, ap, Option, none, some, List, [], ◌∷◌, ◌++◌, append_assoc, append-nil,
  length, Result, ok, err,
}
use mathlib.Core.List
use typeorm_procedure_kit.Queue.{
  Item, array, Event, Queue, QueueError, enqueue, dequeue, add_item, announce, remove_item,
  array_removal, dequeue_from_array, settle,
}

unfoldable pub enqueue_all : List Item → Queue → Queue
enqueue_all [] q = q
enqueue_all (item ∷ items) q = enqueue_all items (enqueue none item q).0

abbrev result_of : Result QueueError (Option Item) → Option Item
result_of (ok found) = found
result_of (err e) = none

-- the items that `n` calls of `dequeue()` return
unfoldable pub drain : ℕ → Queue → List (Option Item)
drain zero q = []
drain (suc n) q = result_of (dequeue none q).1 ∷ drain n (dequeue none q).0

queue-enqueue_all :
    (later items : List Item) (q : Queue)
    → q.queue ≡ array items
    → (enqueue_all later q).queue ≡ array (items ++ later)
unfolding enqueue_all enqueue add_item announce
queue-enqueue_all [] items q e = rw append-nil e
queue-enqueue_all (item ∷ later) items q e =
    rw (← append_assoc items (item ∷ []) later)
      (queue-enqueue_all later (items ++ item ∷ []) (enqueue none item q).0 (rw e refl))

drain-array :
    (items : List Item) (events : List Event)
    → drain (length items) (record { queue = array items; events = events }) ≡ List.map some items
unfolding drain dequeue remove_item dequeue_from_array array_removal settle
drain-array [] events = refl
drain-array (item ∷ items) events =
    ap (λ r. some item ∷ r)
      (drain-array items
        (dequeue none (record { queue = array (item ∷ items); events = events })).0.events)

drain_of_queue :
    (items : List Item) (q : Queue)
    → q.queue ≡ array items
    → drain (length items) q ≡ List.map some items
drain_of_queue items q e =
    let same : record { queue = q.queue; events = q.events } ≡ record q { queue = array items } =
      ap (λ c. record q { queue = c }) e in
    rw same (drain-array items q.events)

-- Items enqueued in an array come out in the order in which they went in, behind those that were there.
pub drain-enqueue_all :
    (items later : List Item) (events : List Event)
    → drain
        (length (items ++ later))
        (enqueue_all later (record { queue = array items; events = events }))
      ≡ List.map some (items ++ later)
drain-enqueue_all items later events =
    drain_of_queue (items ++ later) _ (queue-enqueue_all later items _ refl)
