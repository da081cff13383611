-- ===== src/Queue/Events.antt =====
-- src/utils/queue-manager.ts: the events of a queue, against the items that enter and leave.
use typeorm_procedure_kit.Common.{
  ℕ, zero, suc, ◌+◌, ◌≤◌, ◌≡◌, refl, arith, Option, none, some, List, [], ◌∷◌, ltb, leb,
  if◌then◌else◌, length, length-append, remove_at, contains, Result, ok, err, Bool-cases, inl, inr,
}
use typeorm_procedure_kit.Common.JsMap.{length-delete}
use typeorm_procedure_kit.Queue.{
  Item, str, num, sym, obj, item_eq, Collection, array, set, map, dequeued, Queue, QueueError, size,
  dequeue_from_array, dequeue_from_set, dequeue_from_map, Removal, remove_item, dequeue, splice,
  index_of, settle, emit, first_key, dequeue_key, array_removal, set_removal,
}
use typeorm_procedure_kit.Common.Int.{pos, negsuc}

length-remove_at {ℓ} :
    {A : Type ℓ} (i : ℕ) (xs : List A)
    → length xs ≡ length (remove_at i xs) + (if ltb i (length xs) then 1 else 0)
length-remove_at i [] = ground arith
length-remove_at zero (x ∷ xs) = ground arith
length-remove_at (suc i) (x ∷ xs) = ground (arith, length-remove_at i xs)

-- A removal takes away one item at most.
record Shrinks (old : Collection) (r : Removal) : Type 0 where
  no_more : size r.rest ≤ size old
  one_less : size old ≤ size r.rest + 1

abbrev Removes : Collection → Result QueueError Removal → Type 0
Removes old (ok r) = Shrinks old r
Removes old (err e) = Unit

shrink_at :
    (i : ℕ) (items : List Item)
    → (length (remove_at i items) ≤ length items) × (length items ≤ length (remove_at i items) + 1)
shrink_at i items = ground (arith, length-remove_at i items)

splice-Removes :
    (key : Option Item) (i : ℕ) (fault : QueueError) (items : List Item)
    → Removes (array items) (array_removal key (splice i fault items))
unfolding splice array_removal size
splice-Removes key i fault items = elim (Bool-cases (leb (length items) i)) [
  | inl out ↦ rw (out, array_removal) tt
  | inr fits ↦
      rw (fits, array_removal)
        (record { no_more = (shrink_at i items).0; one_less = (shrink_at i items).1 })
]

array-Removes :
    (key : Option Item) (items : List Item)
    → Removes (array items) (array_removal key (dequeue_from_array key items))
unfolding dequeue_from_array
array-Removes none items =
    unfold array_removal size in
    record { no_more = (shrink_at 0 items).0; one_less = (shrink_at 0 items).1 }
array-Removes (some (num (negsuc n))) items = unfold array_removal in tt
array-Removes (some (num (pos i))) items = splice-Removes (some (num (pos i))) i _ items
array-Removes (some (str s)) items = splice-Removes (some (str s)) _ _ items
array-Removes (some (sym n)) items = splice-Removes (some (sym n)) _ _ items
array-Removes (some (obj n)) items = splice-Removes (some (obj n)) _ _ items

set-Shrinks :
    (key : Option Item) (items : List Item)
    → Shrinks (set items) (set_removal key (dequeue_from_set key items))
unfolding dequeue_from_set set_removal size
set-Shrinks none items = record {
  no_more = (shrink_at 0 items).0;
  one_less = (shrink_at 0 items).1;
}
set-Shrinks (some item) items = elim (Bool-cases (contains item items)) [
  | inl here ↦
      rw (here, set_removal)
        (record {
          no_more = (shrink_at (index_of item items) items).0;
          one_less = (shrink_at (index_of item items) items).1;
        })
  | inr gone ↦ rw (gone, set_removal) (record { no_more = omega arith; one_less = omega arith })
]

dequeue_key-Shrinks :
    (key : Item) (entries : List (Item × Item)) → Shrinks (map entries) (dequeue_key key entries)
unfolding dequeue_key size
dequeue_key-Shrinks key entries = record {
  no_more = ground (arith, length-delete entries key);
  one_less = ground (arith, length-delete entries key);
}

map-Removes :
    (key : Option Item) (entries : List (Item × Item))
    → Removes (map entries) (dequeue_from_map key entries)
unfolding dequeue_from_map first_key
map-Removes none [] = unfold size in record { no_more = omega arith; one_less = omega arith }
map-Removes none ((k, v) ∷ entries) = dequeue_key-Shrinks k ((k, v) ∷ entries)
map-Removes (some (obj o)) entries = tt
map-Removes (some (str s)) entries = dequeue_key-Shrinks (str s) entries
map-Removes (some (num n)) entries = dequeue_key-Shrinks (num n) entries
map-Removes (some (sym n)) entries = dequeue_key-Shrinks (sym n) entries

remove_item-Removes : (key : Option Item) (c : Collection) → Removes c (remove_item key c)
unfolding remove_item
remove_item-Removes key (array items) = array-Removes key items
remove_item-Removes key (map entries) = map-Removes key entries
remove_item-Removes key (set items) = set-Shrinks key items

settle_conserves :
    (q : Queue) (r : Result QueueError Removal)
    → Removes q.queue r
    → size (settle q r).0.queue + length (settle q r).0.events ≡ size q.queue + length q.events
unfolding settle emit
settle_conserves q (ok r) h =
    ground (arith, length-append q.events (dequeued r.removed_key r.removed_item ∷ []))
settle_conserves q (err e) h = refl

-- Whatever the collection and the key, also when it throws, `dequeue` emits one event exactly when
-- one item leaves: the items in the queue and the events emitted add up to what they were.
pub dequeue_conserves :
    (key : Option Item) (q : Queue)
    → size (dequeue key q).0.queue + length (dequeue key q).0.events
      ≡ size q.queue + length q.events
unfolding dequeue
dequeue_conserves key q =
    settle_conserves q (remove_item key q.queue) (remove_item-Removes key q.queue)
