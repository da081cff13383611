-- ===== src/NameParser.antt =====
-- src/utils/procedure-name-parser.ts and src/utils/database-naming-cache.ts: the names of procedures,
-- parsed once. The package `lru-cache` is the record `LruCache`.
pub mod Cached
mod Tests
use typeorm_procedure_kit.Common.{
  ℕ, ◌≡◌, ◌⊎◌, Bool, true, false, ◌&&◌, not, Option, none, some, List, [], ◌∷◌, ◌++◌, length,
  nat_beq, nat_eq, contains, if◌then◌else◌, Result, ok, err, ◌>>=◌, Eq,
}
use typeorm_procedure_kit.Common.JsMap.{get, has, put}
use typeorm_procedure_kit.Common.Text.{Text, text_eq, codes, trim, to_lower_case, split, join}

-- IProcedureNameParser
pub record ParsedName : Type 0 where
  pub package_name : Text
  pub process_name : Text

pub data NameError : Type 0 where
  cache_not_found name_not_found : NameError

-- What the code relies on: the cache may forget entries at any time, and makes none up. `Holds` says that
-- it may still return a value for a key.
pub record LruCache : Type 1 where
  pub Cache : Type 0
  pub new_cache : Cache
  pub lookup : Cache → Text → Cache × Option ParsedName
  pub store : Cache → Text → ParsedName → Cache
  pub clear : Cache → Cache
  pub Holds : Cache → Text → ParsedName → Type 0
  pub new-Holds : (k : Text) (v : ParsedName) → Holds new_cache k v → ⊥
  pub clear-Holds : (c : Cache) (k : Text) (v : ParsedName) → Holds (clear c) k v → ⊥
  pub lookup-some : (c : Cache) (k : Text) (v : ParsedName) → (lookup c k).1 ≡ some v → Holds c k v
  pub lookup-Holds :
      (c : Cache) (j k : Text) (v : ParsedName) → Holds (lookup c j).0 k v → Holds c k v
  pub store-Holds :
      (c : Cache) (j k : Text) (v w : ParsedName)
      → Holds (store c j v) k w
      → ((j ≡ k) × (v ≡ w)) ⊎ Holds c k w

unfoldable pub normalize : Text → Text
normalize s = to_lower_case (trim s)

abbrev pub is_empty : Text → Bool
is_empty s = nat_beq (length s) 0

-- the result if both names are there and the package is known
unfoldable pub known_name : List Text → Text → Text → Option ParsedName
known_name procedure_list package_name process_name =
    if not (is_empty package_name)
      && (not (is_empty process_name) && contains package_name procedure_list)
    then some (record { package_name = package_name; process_name = process_name })
    else none

-- The parts of the name, by the two formats; `procedure_list` is the list of the packages read so far.
unfoldable pub resolve : List Text → List Text → List Text → Option ParsedName
unfolding known_name
resolve procedure_list packages (package_name ∷ process_name ∷ []) =
    known_name procedure_list package_name process_name
resolve procedure_list (package_name ∷ []) (process_name ∷ []) =
    known_name procedure_list package_name process_name
resolve procedure_list packages parts = none

-- what `parse` finds without the cache
unfoldable pub resolve_name : List Text → List Text → Text → Option ParsedName
unfolding resolve
resolve_name procedure_list packages name = resolve procedure_list packages (split b'.' name)

unfoldable pub cache_entry_key : List Text → Text → Text
cache_entry_key packages name = join (codes ",") packages ++ b':' ∷ name

abbrev first_of_two : List Text → Option Text
first_of_two (p ∷ q ∷ []) = some p
first_of_two _ = none

unfoldable pub extract_package_name : Text → Option Text
unfolding normalize
extract_package_name s = first_of_two (split b'.' (normalize s))

abbrev procedure_part : List Text → Text
procedure_part [] = []
procedure_part (p ∷ q ∷ []) = q
procedure_part (p ∷ parts) = p

unfoldable pub extract_procedure_name : Text → Text
unfolding normalize
extract_procedure_name s = procedure_part (split b'.' (normalize s))

module _ (lru : LruCache) where
  -- `cacheMap`, by the symbols of its caches
  abbrev pub CacheMap : Type 0
  CacheMap = List (ℕ × lru.Cache)

  unfoldable pub create_cache : ℕ → CacheMap → CacheMap
  create_cache key m = if has m key then m else put m key lru.new_cache

  unfoldable pub cache_clear : ℕ → CacheMap → Result NameError CacheMap
  cache_clear key m = elim (get m key) [
    | none ↦ err cache_not_found
    | some c ↦ ok (put m key (lru.clear c))
  ]

  -- behind a missed lookup: the error, or the result, which is stored
  unfoldable pub store_result :
      ℕ → Text → Option ParsedName → lru.Cache → CacheMap → CacheMap × Result NameError ParsedName
  store_result key entry none c m = (put m key c, err name_not_found)
  store_result key entry (some v) c m = (put m key (lru.store c entry v), ok v)

  unfoldable pub answer :
      ℕ
      → Text
      → Option ParsedName
      → lru.Cache × Option ParsedName
      → CacheMap
      → CacheMap × Result NameError ParsedName
  unfolding store_result
  answer key entry fresh (c, some v) m = (put m key c, ok v)
  answer key entry fresh (c, none) m = store_result key entry fresh c m

  unfoldable pub parse_in :
      Option lru.Cache
      → ℕ
      → List Text
      → List Text
      → Text
      → CacheMap
      → CacheMap × Result NameError ParsedName
  unfolding answer resolve_name cache_entry_key
  parse_in none key procedure_list packages name m = (m, err cache_not_found)
  parse_in (some c) key procedure_list packages name m =
      answer key (cache_entry_key packages name) (resolve_name procedure_list packages name)
        (lru.lookup c (cache_entry_key packages name)) m

  unfoldable pub parse :
      ℕ → List Text → List Text → Text → CacheMap → CacheMap × Result NameError ParsedName
  unfolding parse_in normalize
  parse key procedure_list packages execute_string m =
      parse_in (get m key) key procedure_list packages (normalize execute_string) m
