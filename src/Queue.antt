-- ===== src/Queue.antt =====
-- src/utils/queue-manager.ts: a queue over an array, a `Map` or a `Set`, with an event for each change.
-- The event bus is the trace of the events emitted; `enqueueAsync` differs from `enqueue` only in
-- that it waits for the listeners.
pub mod Events
pub mod Order
mod Tests
use typeorm_procedure_kit.Common.{
  ℕ, zero, suc, ◌+◌, ◌-◌, ◌↔◌, ◌≡◌, arith, Bool, true, false, not, ◌&&◌, ◌||◌, Option, none, some,
  List, [], ◌∷◌, ◌++◌, ltb, leb, if◌then◌else◌, length, get_elem?, remove_at, contains, Eq,
  list_beq, list_beq_iff, Result, ok, err, nat_beq, nat_beq_iff,
}
use typeorm_procedure_kit.Common.JsMap.{get, has, put, delete}
use typeorm_procedure_kit.Common.Text.{Text, text_eq}
use typeorm_procedure_kit.Common.Int.{ℤ, pos, negsuc}

-- A value that is a key or an item: a string, an integer, a symbol, or an object by its identity.
pub data Item : Type 0 where
  str : Text → Item
  num : ℤ → Item
  sym obj : ℕ → Item

pub int_beq : ℤ → ℤ → Bool
int_beq (pos a) (pos b) = nat_beq a b
int_beq (negsuc a) (negsuc b) = nat_beq a b
int_beq _ _ = false

unfoldable pub item_beq : Item → Item → Bool
unfolding int_beq
item_beq (str a) (str b) = text_eq.beq a b
item_beq (num a) (num b) = int_beq a b
item_beq (sym a) (sym b) = nat_beq a b
item_beq (obj a) (obj b) = nat_beq a b
item_beq _ _ = false

int_beq_iff : (a b : ℤ) → (int_beq a b ≡ true) ↔ (a ≡ b)
unfolding int_beq
int_beq_iff (pos a) (pos b) = ground arith
int_beq_iff (pos a) (negsuc b) = ground arith
int_beq_iff (negsuc a) (pos b) = ground arith
int_beq_iff (negsuc a) (negsuc b) = ground arith

pub item_beq_iff : (a b : Item) → (item_beq a b ≡ true) ↔ (a ≡ b)
unfolding item_beq
item_beq_iff (str a) (str b) = ground (arith, text_eq.beq_iff a b)
item_beq_iff (num a) (num b) = ground (arith, int_beq_iff a b)
item_beq_iff (sym a) (sym b) = ground arith
item_beq_iff (obj a) (obj b) = ground arith
item_beq_iff a b = ground arith

instance abbrev pub item_eq : Eq Item
item_eq = record { beq = item_beq; beq_iff = item_beq_iff }

pub data Collection : Type 0 where
  array set : List Item → Collection
  map : List (Item × Item) → Collection

pub data Event : Type 0 where
  enqueued : Option Item → Item → Event
  dequeued : Option Item → Option Item → Event

pub record Queue : Type 0 where
  pub queue : Collection
  pub events : List Event

-- ReferenceError (`missing_key`, `invalid_key`) and ServerError
pub data QueueError : Type 0 where
  missing_key invalid_key out_of_bounds value_not_found : QueueError

unfoldable pub size : Collection → ℕ
size (array items) = length items
size (set items) = length items
size (map entries) = length entries

-- `!Object.is(this.queue.get(key), item)`
unfoldable pub differs : Option Item → Item → Bool
differs none item = true
differs (some found) item = not (item_beq found item)

unfoldable pub add_item : Option Item → Item → Collection → Result QueueError (Bool × Collection)
unfolding differs
add_item key item (array items) = ok (true, array (items ++ item ∷ []))
add_item none item (map entries) = err missing_key
add_item (some key) item (map entries) =
    ok (not (has entries key) || differs (get entries key) item, map (put entries key item))
add_item key item (set items) =
    if contains item items then ok (false, set items) else ok (true, set (items ++ item ∷ []))

unfoldable pub emit : Event → List Event → List Event
emit event events = events ++ event ∷ []

unfoldable pub announce :
    Option Item
    → Item
    → Queue
    → Result QueueError (Bool × Collection)
    → Queue × Result QueueError Bool
unfolding emit
announce key item q (err e) = (q, err e)
announce key item q (ok (false, c)) = (record q { queue = c }, ok false)
announce key item q (ok (true, c)) =
    (record { queue = c; events = emit (enqueued key item) q.events }, ok true)

unfoldable pub enqueue : Option Item → Item → Queue → Queue × Result QueueError Bool
unfolding announce
enqueue key item q = announce key item q (add_item key item q.queue)

-- `indexOf`, or the length if there is none
unfoldable pub index_of : Item → List Item → ℕ
index_of item [] = 0
index_of item (x ∷ xs) = if item_beq x item then 0 else suc (index_of item xs)

-- `splice(i, 1)[0]` with the bounds check of its caller
unfoldable pub splice : ℕ → QueueError → List Item → Result QueueError (Option Item × List Item)
splice i fault items =
    if leb (length items) i then err fault else ok (get_elem? items i, remove_at i items)

unfoldable pub dequeue_from_array :
    Option Item → List Item → Result QueueError (Option Item × List Item)
unfolding splice index_of
dequeue_from_array none items = ok (get_elem? items 0, remove_at 0 items)
dequeue_from_array (some (num (negsuc n))) items = err out_of_bounds
dequeue_from_array (some (num (pos i))) items = splice i out_of_bounds items
dequeue_from_array (some item) items = splice (index_of item items) value_not_found items

unfoldable pub dequeue_from_set : Option Item → List Item → Option Item × List Item
unfolding index_of
dequeue_from_set none items = (get_elem? items 0, remove_at 0 items)
dequeue_from_set (some item) items =
    if contains item items
    then (some item, remove_at (index_of item items) items)
    else (none, items)

-- What one removal gives: the key it used, the item, and the collection that stays.
pub record Removal : Type 0 where
  pub removed_key : Option Item
  pub removed_item : Option Item
  pub rest : Collection

-- `this.queue.keys().next().value`
unfoldable pub first_key : List (Item × Item) → Option Item
first_key [] = none
first_key ((k, v) ∷ entries) = some k

unfoldable pub dequeue_key : Item → List (Item × Item) → Removal
dequeue_key key entries = record {
  removed_key = some key;
  removed_item = get entries key;
  rest = map (delete entries key);
}

unfoldable pub dequeue_from_map : Option Item → List (Item × Item) → Result QueueError Removal
unfolding first_key dequeue_key
dequeue_from_map (some (obj o)) entries = err invalid_key
dequeue_from_map (some key) entries = ok (dequeue_key key entries)
dequeue_from_map none entries = elim (first_key entries) [
  | some key ↦ ok (dequeue_key key entries)
  | none ↦ ok (record { removed_key = none; removed_item = none; rest = map entries })
]

unfoldable pub array_removal :
    Option Item → Result QueueError (Option Item × List Item) → Result QueueError Removal
array_removal key (err e) = err e
array_removal key (ok (item, items)) =
    ok (record { removed_key = key; removed_item = item; rest = array items })

unfoldable pub set_removal : Option Item → Option Item × List Item → Removal
set_removal key (item, items) = record { removed_key = key; removed_item = item; rest = set items }

unfoldable pub remove_item : Option Item → Collection → Result QueueError Removal
unfolding array_removal set_removal
remove_item key (array items) = array_removal key (dequeue_from_array key items)
remove_item key (map entries) = dequeue_from_map key entries
remove_item key (set items) = ok (set_removal key (dequeue_from_set key items))

-- `if (this.size() < previousSize)` emit, and the result
unfoldable pub settle : Queue → Result QueueError Removal → Queue × Result QueueError (Option Item)
unfolding emit
settle q (err e) = (q, err e)
settle q (ok r) = (
  record {
    queue = r.rest;
    events =
        if ltb (size r.rest) (size q.queue)
        then emit (dequeued r.removed_key r.removed_item) q.events
        else q.events;
  },
  ok r.removed_item,
)

unfoldable pub dequeue : Option Item → Queue → Queue × Result QueueError (Option Item)
unfolding settle
dequeue key q = settle q (remove_item key q.queue)

unfoldable pub empty_like : Collection → Collection
empty_like (array items) = array []
empty_like (set items) = set []
empty_like (map entries) = map []

unfoldable pub clear : Queue → Queue
unfolding empty_like
clear q = record q { queue = empty_like q.queue }
