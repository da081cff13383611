-- ===== src/Tracker/Measure.antt =====
-- `measureUtf8`, `measureUnsignedInteger`, `measureNumber`, `measureKey` and `measureValue` of
-- procedure-resource-tracker.ts. Numbers of bytes are unbounded.
use typeorm_procedure_kit.Common.{
  ℕ, zero, suc, ◌+◌, ◌/◌, Bool, true, false, not, ◌&&◌, Option, none, some, List, [], ◌∷◌, ltb, leb,
  if◌then◌else◌, length, contains, nat_eq, Result, ok, err, ◌>>=◌, sum, map,
}
use typeorm_procedure_kit.Common.JsMap.{get, put}
use typeorm_procedure_kit.Common.Text.{Text, between, text_eq}
use typeorm_procedure_kit.Common.Int.{ℤ, is_negative, magnitude}
use typeorm_procedure_kit.Value.{
  Number, int, float, Value, undefined, null, symbol, callable, boolean, number, bigint, string,
  buffer, date, ref, Property, Heap, properties, is_safe_integer,
}

-- `invalid_date` is the RangeError of `toISOString`; `out_of_fuel` is no behaviour of the program.
pub data Fault : Type 0 where
  invalid_date out_of_fuel : Fault

unfoldable pub is_high_surrogate : ℕ → Bool
is_high_surrogate c = between 0xd800 0xdbff c

unfoldable pub is_low_surrogate : ℕ → Bool
is_low_surrogate c = between 0xdc00 0xdfff c

-- What the loop of `measureUtf8` adds to `value.length`.
unfoldable pub extra_bytes : Text → ℕ
unfolding is_high_surrogate is_low_surrogate
extra_bytes [] = 0
extra_bytes (c ∷ []) = if leb c 0x7f then 0 else if leb c 0x7ff then 1 else 2
extra_bytes (c ∷ d ∷ s) =
    let one = extra_bytes (d ∷ s) in
    let two = extra_bytes s in
    if leb c 0x7f
    then one
    else if leb c 0x7ff
    then 1 + one
    else if is_high_surrogate c && is_low_surrogate d
    then 2 + two
    else 2 + one

unfoldable pub measure_utf8 : Text → ℕ
unfolding extra_bytes
measure_utf8 s = length s + extra_bytes s

unfoldable pub measure_unsigned_integer : ℕ → ℕ
measure_unsigned_integer n =
    if ltb n 10
    then 1
    else if ltb n 100
    then 2
    else if ltb n 1_000
    then 3
    else if ltb n 10_000
    then 4
    else if ltb n 100_000
    then 5
    else if ltb n 1_000_000
    then 6
    else if ltb n 10_000_000
    then 7
    else if ltb n 100_000_000
    then 8
    else if ltb n 1_000_000_000
    then 9
    else if ltb n 10_000_000_000
    then 10
    else if ltb n 100_000_000_000
    then 11
    else if ltb n 1_000_000_000_000
    then 12
    else if ltb n 10_000_000_000_000
    then 13
    else if ltb n 100_000_000_000_000
    then 14
    else if ltb n 1_000_000_000_000_000
    then 15
    else 16

-- The number of decimal digits of `String(n)`, on fuel of at least that number.
unfoldable pub decimal_length_from : ℕ → ℕ → ℕ
decimal_length_from zero n = 1
decimal_length_from (suc f) n =
    let more = suc (decimal_length_from f (n / 10)) in if ltb n 10 then 1 else more

unfoldable pub decimal_length : ℕ → ℕ
unfolding decimal_length_from
decimal_length n = decimal_length_from n n

-- String(z).length of an integer
unfoldable pub integer_length : ℤ → ℕ
unfolding decimal_length
integer_length z = decimal_length (magnitude z) + (if is_negative z then 1 else 0)

unfoldable pub measure_number : Number → ℕ
unfolding measure_unsigned_integer integer_length
measure_number (float text) = length text
measure_number (int z) =
    if not (is_safe_integer z)
    then integer_length z
    else if is_negative z
    then measure_unsigned_integer (magnitude z) + 1
    else measure_unsigned_integer (magnitude z)

-- The static `keyByteLengths`.
abbrev pub KeyCache : Type 0
KeyCache = List (Text × ℕ)

abbrev pub max_cached_keys : ℕ
max_cached_keys = 512

-- the rest of `measureKey`, given what the cache has for the key
unfoldable pub measure_found : Option ℕ → KeyCache → Text → ℕ × KeyCache
measure_found (some bytes) cache key = (bytes, cache)
measure_found none cache key =
    let bytes = measure_utf8 key in
    (bytes, if ltb (length cache) max_cached_keys then put cache key bytes else cache)

unfoldable pub measure_key : KeyCache → Text → ℕ × KeyCache
unfolding measure_found
measure_key cache key = measure_found (get cache key) cache key

-- The bytes of a value that refers to no object; `none` for a reference.
unfoldable pub scalar_bytes : Value → Result Fault (Option ℕ)
scalar_bytes undefined = ok (some 0)
scalar_bytes null = ok (some 0)
scalar_bytes symbol = ok (some 0)
scalar_bytes callable = ok (some 0)
scalar_bytes (boolean b) = ok (some 1)
scalar_bytes (number n) = ok (some (measure_number n))
scalar_bytes (bigint z) = ok (some (integer_length z))
scalar_bytes (string s) = ok (some (measure_utf8 s))
scalar_bytes (buffer bytes) = ok (some (length bytes))
scalar_bytes (date (some text)) = ok (some (length text))
scalar_bytes (date none) = err invalid_date
scalar_bytes (ref a) = ok none

-- The variables of the loop over `pendingObjects`, whose top is at the head.
pub record Walk : Type 0 where
  pub bytes : ℕ
  pub pending : List ℕ
  pub object_graph : List ℕ
  pub cache : KeyCache

-- `if (typeof nestedValue === 'object') pendingObjects.push(nestedValue)`, and the cases before it
unfoldable pub add_value : Walk → Value → Result Fault Walk
unfolding scalar_bytes
add_value w (ref a) = ok (record w { pending = a ∷ w.pending })
add_value w v = scalar_bytes v >>= λ found. elim found [
  | some n ↦ ok (record w { bytes = w.bytes + n })
  | none ↦ ok w
]

unfoldable pub visit_property : Walk → Property → Result Fault Walk
unfolding measure_key add_value
visit_property w p =
    if not p.is_own
    then ok w
    else let (bytes, cache) = measure_key w.cache p.key in
      add_value (record w { bytes = w.bytes + bytes; cache = cache }) p.value

-- the loop `for (const key in current)`
unfoldable pub visit : Walk → List Property → Result Fault Walk
unfolding visit_property
visit w [] = ok w
visit w (p ∷ ps) = visit_property w p >>= λ w'. visit w' ps

-- the loop `while (pendingObjects.length > 0)`, on fuel
unfoldable pub walk : ℕ → Heap → Walk → Result Fault Walk
unfolding visit
walk zero heap w = err out_of_fuel
walk (suc fuel) heap w = elim w.pending [
  | [] ↦ ok w
  | current ∷ rest ↦ elim (contains current w.object_graph) [
    | true ↦ walk fuel heap (record w { pending = rest })
    | false ↦
        visit (record w { pending = rest; object_graph = current ∷ w.object_graph })
          (properties heap current)
        >>= walk fuel heap
  ]
]

-- One round for each property of the heap, one for the root and one to stop.
abbrev pub walk_fuel : Heap → ℕ
walk_fuel heap = suc (suc (sum (map length heap)))

unfoldable pub measure_value : Heap → KeyCache → Value → Result Fault (ℕ × KeyCache)
unfolding walk
measure_value heap cache (ref a) = do
  w ←
      walk (walk_fuel heap) heap
        (record { bytes = 0; pending = a ∷ []; object_graph = []; cache = cache })
  ok (w.bytes, w.cache)
measure_value heap cache v = do
  found ← scalar_bytes v
  elim found [ some n ↦ ok (n, cache) | none ↦ ok (0, cache) ]
