-- ===== src/NameParser/Cached.antt =====
-- src/utils/procedure-name-parser.ts: parsing with the cache, against parsing without it.
use typeorm_procedure_kit.Common.{
  ℕ, ◌≡◌, refl, sym, ap, ◌∙◌, Option-cases, arith, inl, inr, Option, none, some, List, [], ◌∷◌,
  ◌++◌, nat_eq, Result, ok, err,
}
use typeorm_procedure_kit.Common.JsMap.{get, put, get-put}
use typeorm_procedure_kit.Common.Text.{Text, join, codes}
use typeorm_procedure_kit.NameParser.{
  ParsedName, NameError, name_not_found, LruCache, normalize, resolve_name, cache_entry_key,
  CacheMap, store_result, answer, parse_in, parse, cache_clear,
}

-- what a parse without a cache returns
abbrev pub uncached : Option ParsedName → Result NameError ParsedName
uncached none = err name_not_found
uncached (some v) = ok v

append_cancel : (xs : Text) (c : ℕ) (n m : Text) → xs ++ c ∷ n ≡ xs ++ c ∷ m → n ≡ m
append_cancel [] c n m h = cc
append_cancel (x ∷ xs) c n m h =
    let tails : xs ++ c ∷ n ≡ xs ++ c ∷ m = cc in append_cancel xs c n m tails

cache_entry_key_injective :
    (packages : List Text) (n m : Text)
    → cache_entry_key packages n ≡ cache_entry_key packages m
    → n ≡ m
unfolding cache_entry_key
cache_entry_key_injective packages n m h = append_cancel (join (codes ",") packages) b':' n m h

module _ (lru : LruCache) (procedure_list packages : List Text) where
  -- each entry that the cache may return is what the name is parsed to
  abbrev pub IsCoherent : lru.Cache → Type 0
  IsCoherent c =
      (name : Text) (v : ParsedName)
      → lru.Holds c (cache_entry_key packages name) v
      → resolve_name procedure_list packages name ≡ some v

  -- the cache of the symbol is there, and coherent
  abbrev pub IsReady : ℕ → CacheMap lru → Type 0
  IsReady key m = (c : lru.Cache) × (get m key ≡ some c) × IsCoherent c

  put-IsReady :
      (key : ℕ) (m : CacheMap lru) (c : lru.Cache) → IsCoherent c → IsReady key (put m key c)
  put-IsReady key m c h = (c, get-put m key c key ∙ (ground arith), h)

  store-IsCoherent :
      (c : lru.Cache) (name : Text) (v : ParsedName)
      → IsCoherent c
      → resolve_name procedure_list packages name ≡ some v
      → IsCoherent (lru.store c (cache_entry_key packages name) v)
  store-IsCoherent c name v h fresh n w held =
      elim (lru.store-Holds c (cache_entry_key packages name) (cache_entry_key packages n) v w
        held) [
          | inl (same, value) ↦
              let names : name ≡ n = cache_entry_key_injective packages name n same in
              rw (sym names) (fresh ∙ (ap (λ x. some x) value))
          | inr old ↦ h n w old
        ]

  -- the answer, and the caches behind it
  abbrev Answers : ℕ → Option ParsedName → CacheMap lru × Result NameError ParsedName → Type 0
  Answers key fresh r = (r.1 ≡ uncached fresh) × IsReady key r.0

  store_result-Answers :
      (key : ℕ) (name : Text) (fresh : Option ParsedName) (c : lru.Cache) (m : CacheMap lru)
      → IsCoherent c
      → resolve_name procedure_list packages name ≡ fresh
      → Answers key fresh (store_result lru key (cache_entry_key packages name) fresh c m)
  unfolding store_result
  store_result-Answers key name none c m h e = (refl, put-IsReady key m c h)
  store_result-Answers key name (some v) c m h e =
      (refl, put-IsReady key m _ (store-IsCoherent c name v h e))

  answer-Answers :
      (key : ℕ) (name : Text) (r : lru.Cache × Option ParsedName) (m : CacheMap lru)
      → IsCoherent r.0
      → ((v : ParsedName) → r.1 ≡ some v → resolve_name procedure_list packages name ≡ some v)
      → Answers key (resolve_name procedure_list packages name) (
          answer lru key
            (cache_entry_key packages name)
            (resolve_name procedure_list packages name)
            r
            m)
  unfolding answer
  answer-Answers key name (c, some v) m h hit = (rw (hit v refl) refl, put-IsReady key m c h)
  answer-Answers key name (c, none) m h hit = store_result-Answers key name _ c m h refl

  -- With a coherent cache, whatever it has forgotten, a name is parsed as without a cache, and the cache
  -- stays coherent.
  pub parse-eq-uncached :
      (key : ℕ) (execute_string : Text) (m : CacheMap lru)
      → IsReady key m
      → ((parse lru key procedure_list packages execute_string m).1
          ≡ uncached (resolve_name procedure_list packages (normalize execute_string)))
        × IsReady key (parse lru key procedure_list packages execute_string m).0
  unfolding parse parse_in
  parse-eq-uncached key execute_string m (c, found, h) = rw found (
      answer-Answers key (normalize execute_string)
        (lru.lookup c (cache_entry_key packages (normalize execute_string))) m
        (λ name v held. h name v (lru.lookup-Holds c _ _ v held))
        (λ v hit. h (normalize execute_string) v (lru.lookup-some c _ v hit)))

  -- After the caches are cleared, as when the procedures change, the cache is coherent for any list of
  -- packages.
  pub cache_clear-IsReady :
      (key : ℕ) (m cleared : CacheMap lru)
      → cache_clear lru key m ≡ ok cleared
      → IsReady key cleared
  unfolding cache_clear
  cache_clear-IsReady key m cleared h = elim (Option-cases (get m key)) [
    | inl absent ↦ let bad = rw (absent, cache_clear) at h in cc
    | inr (c, found) ↦
        let done = rw (found, cache_clear) at h in
        let same : put m key (lru.clear c) ≡ cleared = cc in
        rw (sym same)
          (put-IsReady key m (lru.clear c) (λ name v held. absurd (lru.clear-Holds c _ v held)))
  ]
