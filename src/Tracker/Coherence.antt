-- ===== src/Tracker/Coherence.antt =====
-- What the tracker should count, with no cache of keys and no remembered row shape: each object that
-- the value reaches once, each own property by its key and its scalar value. The cache of keys.
use typeorm_procedure_kit.Common.{
  ℕ, zero, suc, ◌+◌, ◌≡◌, refl, arith, Bool, true, false, not, Option, none, some, List, [], ◌∷◌,
  if◌then◌else◌, ltb, contains, nat_eq, Result, ok, err, ◌>>=◌,
}
use typeorm_procedure_kit.Common.JsMap.{get, put, get-put}
use typeorm_procedure_kit.Common.Text.{Text, text_eq}
use typeorm_procedure_kit.Value.{Value, ref, Property, Heap, properties}
use typeorm_procedure_kit.Tracker.Measure.{
  Fault, out_of_fuel, measure_utf8, KeyCache, measure_found, measure_key, scalar_bytes, walk_fuel,
}

abbrev pub own_bytes : Option ℕ → ℕ
own_bytes none = 0
own_bytes (some n) = n

unfoldable pub object_bytes : List Property → Result Fault ℕ
object_bytes [] = ok 0
object_bytes (p ∷ ps) =
    let rest = object_bytes ps in
    if not p.is_own
    then rest
    else do found ← scalar_bytes p.value; n ← rest; ok (measure_utf8 p.key + own_bytes found + n)

abbrev pub child : Value → List ℕ → List ℕ
child (ref a) rest = a ∷ rest
child _ rest = rest

-- the objects that own properties refer to, in front of `stack`, the last one first
unfoldable pub push_children : List Property → List ℕ → List ℕ
push_children [] stack = stack
push_children (p ∷ ps) stack = push_children ps (if p.is_own then child p.value stack else stack)

unfoldable pub graph_bytes : ℕ → Heap → List ℕ → List ℕ → Result Fault ℕ
graph_bytes zero heap pending seen = err out_of_fuel
graph_bytes (suc fuel) heap [] seen = ok 0
graph_bytes (suc fuel) heap (a ∷ pending) seen = elim (contains a seen) [
  | true ↦ graph_bytes fuel heap pending seen
  | false ↦ do
    n ← object_bytes (properties heap a)
    rest ← graph_bytes fuel heap (push_children (properties heap a) pending) (a ∷ seen)
    ok (n + rest)
]

unfoldable pub value_bytes : Heap → Value → Result Fault ℕ
value_bytes heap (ref a) = graph_bytes (walk_fuel heap) heap (a ∷ []) []
value_bytes heap v = do found ← scalar_bytes v; ok (own_bytes found)

-- Every cached length is that of its key.
pub record IsCoherent (cache : KeyCache) : Type 0 where
  pub at : (key : Text) (n : ℕ) → get cache key ≡ some n → n ≡ measure_utf8 key

pub IsCoherent-nil : IsCoherent []
unfolding get
IsCoherent-nil = record { at = λ key n e. cc }

pub put-IsCoherent :
    (cache : KeyCache) (key : Text)
    → IsCoherent cache
    → IsCoherent (put cache key (measure_utf8 key))
put-IsCoherent cache key h = record {
  at = λ k n. rw get-put (ground (arith, text_eq.beq_iff key k, h.at k n));
}

measure_found-eq :
    (found : Option ℕ) (cache : KeyCache) (key : Text)
    → ((n : ℕ) → found ≡ some n → n ≡ measure_utf8 key)
    → (measure_found found cache key).0 ≡ measure_utf8 key
unfolding measure_found
measure_found-eq none cache key h = refl
measure_found-eq (some n) cache key h = h n refl

pub measure_key-eq :
    (cache : KeyCache) (key : Text)
    → IsCoherent cache
    → (measure_key cache key).0 ≡ measure_utf8 key
unfolding measure_key
measure_key-eq cache key h = measure_found-eq (get cache key) cache key (h.at key)

IsCoherent-if :
    (b : Bool) (c d : KeyCache) → IsCoherent c → IsCoherent d → IsCoherent (if b then c else d)
IsCoherent-if true c d h k = h
IsCoherent-if false c d h k = k

measure_found-IsCoherent :
    (found : Option ℕ) (cache : KeyCache) (key : Text)
    → IsCoherent cache
    → IsCoherent (measure_found found cache key).1
unfolding measure_found
measure_found-IsCoherent none cache key h =
    IsCoherent-if (ltb _ _) _ cache (put-IsCoherent cache key h) h
measure_found-IsCoherent (some n) cache key h = h

pub measure_key-IsCoherent :
    (cache : KeyCache) (key : Text) → IsCoherent cache → IsCoherent (measure_key cache key).1
unfolding measure_key
measure_key-IsCoherent cache key h = measure_found-IsCoherent (get cache key) cache key h
