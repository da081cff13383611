-- ===== src/NameParser/Tests.antt =====
-- The parser with a cache that keeps everything.
use typeorm_procedure_kit.Common.{
  ◌≡◌, refl, sym, ◌∙◌, ◌⊎◌, inl, inr, Bool-cases, some, List, [], ◌∷◌, nat_eq, ok,
}
use typeorm_procedure_kit.Common.JsMap.{get, put, get-put}
use typeorm_procedure_kit.Common.Text.{Text, text_eq, codes, split, split_from}
use typeorm_procedure_kit.NameParser.{
  ParsedName, LruCache, CacheMap, normalize, resolve_name, resolve, known_name, cache_clear, parse,
}
use typeorm_procedure_kit.NameParser.Cached.{uncached, IsReady, parse-eq-uncached}

abbrev Entries : Type 0
Entries = List (Text × ParsedName)

store-held :
    (c : Entries) (j k : Text) (v w : ParsedName)
    → get (put c j v) k ≡ some w
    → ((j ≡ k) × (v ≡ w)) ⊎ (get c k ≡ some w)
store-held c j k v w h = elim (Bool-cases (text_eq.beq j k)) [
  | inl yes' ↦
      let law : get (put c j v) k ≡ some v = get-put c j v k ∙ (rw yes' refl) in
      let same : some v ≡ some w = sym law ∙ h in inl ((text_eq.beq_iff j k).0 yes', cc)
  | inr no' ↦ inr (sym (get-put c j v k ∙ (rw no' refl)) ∙ h)
]

no_entry : (k : Text) (v : ParsedName) → get {V = ParsedName} [] k ≡ some v → ⊥
unfolding get
no_entry k v h = cc

abbrev keep_all : LruCache
keep_all = record {
  Cache = Entries;
  new_cache = [];
  lookup = λ c k. (c, get c k);
  store = put;
  clear = λ c. [];
  Holds = λ c k v. get c k ≡ some v;
  new-Holds = no_entry;
  clear-Holds = λ c. no_entry;
  lookup-some = λ c k v h. h;
  lookup-Holds = λ c j k v h. h;
  store-Holds = store-held;
}

abbrev packages : List Text
packages = codes "hr" ∷ []

qualified :
    resolve_name packages packages (codes "hr.pay")
    ≡ some (record { package_name = codes "hr"; process_name = codes "pay" })
unfolding resolve_name resolve known_name split split_from
qualified = refl

abbrev caches : CacheMap keep_all
caches = (5, []) ∷ []

ready : IsReady keep_all packages packages 5 caches
unfolding get
ready = ([], refl, λ name v h. cc)

parse-eq-uncached_example :
    ((parse keep_all 5 packages packages (codes " HR.pay") caches).1
      ≡ uncached (resolve_name packages packages (normalize (codes " HR.pay"))))
    × IsReady keep_all packages packages 5
        (parse keep_all 5 packages packages (codes " HR.pay") caches).0
parse-eq-uncached_example =
    parse-eq-uncached keep_all packages packages 5 (codes " HR.pay") caches ready

cleared : cache_clear keep_all 5 caches ≡ ok caches
unfolding cache_clear get put
cleared = refl
