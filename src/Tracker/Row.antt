-- ===== src/Tracker/Row.antt =====
-- `measureRow` of procedure-resource-tracker.ts: the scan of a flat record that remembers the keys of
-- the last row and their lengths.
use typeorm_procedure_kit.Common.{
  ℕ, ◌+◌, Bool, true, false, not, ◌&&◌, Option, none, some, List, [], ◌∷◌, ◌++◌, if◌then◌else◌,
  length, take, get_elem?, ◌==◌, nat_eq, Result, ok, err, ◌>>=◌, is_some,
}
use typeorm_procedure_kit.Common.Text.{Text, text_eq}
use typeorm_procedure_kit.Value.{Value, ref, Property, Heap, properties}
use typeorm_procedure_kit.Tracker.Measure.{
  Fault, KeyCache, measure_key, scalar_bytes, measure_value,
}

-- the type of `rowShape`
pub record Shape : Type 0 where
  pub keys : List Text
  pub key_bytes : List ℕ

-- The variables of the scan. `next_keys` and `next_key_bytes` are read only once the shape changed.
pub record Scan : Type 0 where
  pub bytes : ℕ
  pub is_shape_changed : Bool
  pub next_keys : List Text
  pub next_key_bytes : List ℕ
  pub key_index : ℕ
  pub cache : KeyCache

-- How the loop ends: with its variables, at a nested object, or by a throw.
pub data Scanned : Type 0 where
  flat : Scan → Scanned
  nested : KeyCache → Scanned
  thrown : Fault → Scanned

unfoldable pub shape_keys : Option Shape → List Text
shape_keys none = []
shape_keys (some shape) = shape.keys

unfoldable pub shape_key_bytes : Option Shape → List ℕ
shape_key_bytes none = []
shape_key_bytes (some shape) = shape.key_bytes

unfoldable pub is_key : Option Text → Text → Bool
is_key none key = false
is_key (some k) key = k == key

-- `cachedShape.keyBytes[keyIndex] ?? this.measureKey(key)`
unfoldable pub cached_bytes : Option ℕ → KeyCache → Text → ℕ × KeyCache
cached_bytes none cache key = measure_key cache key
cached_bytes (some n) cache key = (n, cache)

unfoldable pub count_key : ℕ × KeyCache → Scan → Scan
count_key (n, cache) s = record s {
  bytes = s.bytes + n;
  key_index = s.key_index + 1;
  cache = cache;
}

unfoldable pub push_key : Text → ℕ × KeyCache → Scan → Scan
push_key key (n, cache) s = record s {
  next_keys = s.next_keys ++ key ∷ [];
  next_key_bytes = s.next_key_bytes ++ n ∷ [];
}

-- the `slice`s of the cached shape when its first key differs
unfoldable pub start_shape : Option Shape → Scan → Scan
unfolding shape_keys shape_key_bytes
start_shape shape s = if s.is_shape_changed then s else record s {
  is_shape_changed = true;
  next_keys = take s.key_index (shape_keys shape);
  next_key_bytes = take s.key_index (shape_key_bytes shape);
}

unfoldable pub scan_key : Option Shape → Scan → Text → Scan
unfolding start_shape count_key push_key cached_bytes is_key shape_keys shape_key_bytes measure_key
scan_key shape s key =
    if not s.is_shape_changed && is_key (get_elem? (shape_keys shape) s.key_index) key
    then count_key (cached_bytes (get_elem? (shape_key_bytes shape) s.key_index) s.cache key) s
    else let s' = start_shape shape s in
      let measured = measure_key s'.cache key in count_key measured (push_key key measured s')

-- the cases of `nestedValue`
unfoldable pub scan_value : Scan → Result Fault (Option ℕ) → Scanned
scan_value s (err fault) = thrown fault
scan_value s (ok none) = nested s.cache
scan_value s (ok (some n)) = flat (record s { bytes = s.bytes + n })

-- the loop `for (const key in value)`
unfoldable pub scan : Option Shape → Scan → List Property → Scanned
unfolding scan_key scan_value scalar_bytes
scan shape s [] = flat s
scan shape s (p ∷ ps) = elim p.is_own [
  | false ↦ scan shape s ps
  | true ↦ elim (scan_value (scan_key shape s p.key) (scalar_bytes p.value)) [
    | flat s' ↦ scan shape s' ps
    | nested cache ↦ nested cache
    | thrown fault ↦ thrown fault
  ]
]

abbrev pub scan_start : Option Shape → KeyCache → Scan
scan_start shape cache = record {
  bytes = 0;
  is_shape_changed = not (is_some shape);
  next_keys = [];
  next_key_bytes = [];
  key_index = 0;
  cache = cache;
}

-- the new `rowShape`
unfoldable pub end_shape : Option Shape → Scan → Option Shape
end_shape none s =
    if s.is_shape_changed
    then some (record { keys = s.next_keys; key_bytes = s.next_key_bytes })
    else none
end_shape (some shape) s =
    if s.is_shape_changed
    then some (record { keys = s.next_keys; key_bytes = s.next_key_bytes })
    else if s.key_index == length shape.keys
    then some shape
    else some (record {
      keys = take s.key_index shape.keys;
      key_bytes = take s.key_index shape.key_bytes;
    })

-- What `measureRow` returns, with the cache and the shape that it leaves.
pub record Measured : Type 0 where
  pub bytes : ℕ
  pub cache : KeyCache
  pub row_shape : Option Shape

unfoldable pub with_shape : Option Shape → ℕ × KeyCache → Result Fault Measured
with_shape shape (n, cache) = ok (record { bytes = n; cache = cache; row_shape = shape })

unfoldable pub finish_scan : Heap → Option Shape → Value → Scanned → Result Fault Measured
unfolding end_shape with_shape
finish_scan heap shape v (flat s) =
    ok (record { bytes = s.bytes; cache = s.cache; row_shape = end_shape shape s })
finish_scan heap shape v (nested cache) = measure_value heap cache v >>= with_shape shape
finish_scan heap shape v (thrown fault) = err fault

unfoldable pub measure_row : Heap → Option Shape → KeyCache → Value → Result Fault Measured
unfolding scan finish_scan with_shape
measure_row heap shape cache (ref a) =
    finish_scan heap shape (ref a) (scan shape (scan_start shape cache) (properties heap a))
measure_row heap shape cache v = measure_value heap cache v >>= with_shape shape
