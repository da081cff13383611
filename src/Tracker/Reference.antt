-- ===== src/Tracker/Reference.antt =====
-- `measureValue` of procedure-resource-tracker.ts, against the reference.
use mathlib.Core.Path.{subst}
use typeorm_procedure_kit.Common.{
  ℕ, zero, suc, ◌+◌, ◌≡◌, refl, arith, inl, inr, Option, none, some, List, [], ◌∷◌, contains,
  nat_eq, Result, ok, err, ◌>>=◌, Bool-cases, Result-cases, ap,
}
use typeorm_procedure_kit.Common.Text.{text_eq}
use typeorm_procedure_kit.Value.{
  Value, undefined, null, symbol, callable, boolean, number, bigint, string, buffer, date, ref,
  Property, Heap, properties,
}
use typeorm_procedure_kit.Tracker.Measure.{
  Fault, measure_utf8, KeyCache, measure_key, scalar_bytes, Walk, add_value, visit_property, visit,
  walk, walk_fuel, measure_value,
}
use typeorm_procedure_kit.Tracker.Coherence.{
  own_bytes, object_bytes, child, push_children, graph_bytes, value_bytes, measure_key-eq,
  measure_key-IsCoherent, IsCoherent,
}

-- A run that starts at `base` bytes ends at `base` and the counted bytes, or both throw alike.
abbrev Gives : ℕ → Result Fault Walk → Result Fault ℕ → Type 0
Gives base (ok w) (ok n) = (w.bytes ≡ base + n) × IsCoherent w.cache
Gives base (err e) (err f) = e ≡ f
Gives base _ _ = ⊥

-- The same for one object, whose references are pushed.
abbrev Visits : ℕ → List ℕ → List ℕ → Result Fault Walk → Result Fault ℕ → Type 0
Visits base pending seen (ok w) (ok n) =
    (w.bytes ≡ base + n) × (w.pending ≡ pending) × (w.object_graph ≡ seen) × IsCoherent w.cache
Visits base pending seen (err e) (err f) = e ≡ f
Visits base pending seen _ _ = ⊥

abbrev pass : Walk → Value → Option ℕ → Walk
pass w v found = record w { bytes = w.bytes + own_bytes found; pending = child v w.pending }

-- the same walk, since `n + 0` is `n`
pass_nothing :
    (w : Walk) (stack : List ℕ)
    → record w { pending = stack } ≡ record w { bytes = w.bytes + 0; pending = stack }
pass_nothing w stack =
    let e : w.bytes ≡ w.bytes + 0 = omega arith in
    ap (λ b. record w { bytes = b; pending = stack }) e

add_value-eq :
    (w : Walk) (v : Value) → add_value w v ≡ (scalar_bytes v >>= λ found. ok (pass w v found))
unfolding add_value scalar_bytes
add_value-eq w (ref a) = ap ok (pass_nothing w (a ∷ w.pending))
add_value-eq w (date none) = refl
add_value-eq w (date (some text)) = refl
add_value-eq w undefined = refl
add_value-eq w null = refl
add_value-eq w symbol = refl
add_value-eq w callable = refl
add_value-eq w (boolean b) = refl
add_value-eq w (number n) = refl
add_value-eq w (bigint z) = refl
add_value-eq w (string s) = refl
add_value-eq w (buffer bytes) = refl

Visits-shift :
    (base start extra : ℕ) (pending seen : List ℕ) (m : Result Fault Walk) (r : Result Fault ℕ)
    → start ≡ base + extra
    → Visits start pending seen m r
    → Visits base pending seen m (r >>= λ n. ok (extra + n))
Visits-shift base start extra pending seen (ok w) (ok n) e h = (omega arith, h.1, h.2, h.3)
Visits-shift base start extra pending seen (err f) (err g) e h = h
Visits-shift base start extra pending seen (ok w) (err g) e h = absurd h
Visits-shift base start extra pending seen (err f) (ok n) e h = absurd h

visit-Visits :
    (w : Walk) (ps : List Property)
    → IsCoherent w.cache
    → Visits w.bytes (push_children ps w.pending) w.object_graph (visit w ps) (object_bytes ps)
unfolding visit object_bytes push_children
visit-Visits w [] h = (omega arith, refl, refl, h)
visit-Visits w (p ∷ ps) h = elim (Bool-cases p.is_own) [
  | inr other ↦ rw (other, visit_property) (visit-Visits w ps h)
  | inl own ↦
      let (bytes, cache) = measure_key w.cache p.key in
      let w' = record w { bytes = w.bytes + bytes; cache = cache } in
      rw (own, visit_property, add_value-eq)
        (elim (Result-cases (scalar_bytes p.value)) [
          | inr (f, e) ↦ rw e refl
          | inl (found, e) ↦ rw e (
              Visits-shift w.bytes (w'.bytes + own_bytes found)
                (measure_utf8 p.key + own_bytes found) _ _ (visit (pass w' p.value found) ps)
                (object_bytes ps) (omega (arith, measure_key-eq w.cache p.key h))
                (visit-Visits (pass w' p.value found) ps (measure_key-IsCoherent w.cache p.key h)))
        ])
]

Gives-shift :
    (base start extra : ℕ) (m : Result Fault Walk) (r : Result Fault ℕ)
    → start ≡ base + extra
    → Gives start m r
    → Gives base m (r >>= λ n. ok (extra + n))
Gives-shift base start extra (ok w) (ok n) e h = (omega arith, h.1)
Gives-shift base start extra (err f) (err g) e h = h
Gives-shift base start extra (ok w) (err g) e h = absurd h
Gives-shift base start extra (err f) (ok n) e h = absurd h

-- one round of the walk, over the claim for the rounds that follow
module _ (fuel : ℕ) (heap : Heap)
    (later : (w : Walk)
      → IsCoherent w.cache
      → Gives w.bytes (walk fuel heap w) (graph_bytes fuel heap w.pending w.object_graph)) where
  Gives-bind :
      (base : ℕ) (pending seen : List ℕ) (m : Result Fault Walk) (r : Result Fault ℕ)
      → Visits base pending seen m r
      → Gives base
          (m >>= walk fuel heap)
          (r >>= λ n. graph_bytes fuel heap pending seen >>= λ k. ok (n + k))
  Gives-bind base pending seen (ok w) (ok n) (e, p, s, h) =
      Gives-shift base w.bytes n (walk fuel heap w) (graph_bytes fuel heap pending seen) e (
        subst (λ q. Gives w.bytes (walk fuel heap w) (graph_bytes fuel heap q seen)) p
          (subst (λ o. Gives w.bytes (walk fuel heap w) (graph_bytes fuel heap w.pending o)) s
            (later w h)))
  Gives-bind base pending seen (err f) (err g) h = h
  Gives-bind base pending seen (ok w) (err g) h = absurd h
  Gives-bind base pending seen (err f) (ok n) h = absurd h

  walk_round :
      (w : Walk) (pending : List ℕ)
      → w.pending ≡ pending
      → IsCoherent w.cache
      → Gives w.bytes (walk (suc fuel) heap w) (graph_bytes (suc fuel) heap pending w.object_graph)
  unfolding walk graph_bytes
  walk_round w [] e h = rw (e, walk) (omega arith, h)
  walk_round w (a ∷ rest) e h = elim (Bool-cases (contains a w.object_graph)) [
    | inl seen ↦ rw (e, walk, graph_bytes, seen) (later (record w { pending = rest }) h)
    | inr new ↦
        let w' = record w { pending = rest; object_graph = a ∷ w.object_graph } in
        rw (e, walk, graph_bytes, new)
          (Gives-bind w.bytes (push_children (properties heap a) rest) (a ∷ w.object_graph)
            (visit w' (properties heap a)) (object_bytes (properties heap a))
            (visit-Visits w' (properties heap a) h))
  ]

walk-Gives :
    (fuel : ℕ) (heap : Heap) (w : Walk)
    → IsCoherent w.cache
    → Gives w.bytes (walk fuel heap w) (graph_bytes fuel heap w.pending w.object_graph)
walk-Gives zero heap w h = unfold walk graph_bytes in refl
walk-Gives (suc fuel) heap w h = walk_round fuel heap (walk-Gives fuel heap) w w.pending refl h

-- A measurement counts what the reference counts and leaves a coherent cache, or both throw alike.
abbrev pub Counts : Result Fault (ℕ × KeyCache) → Result Fault ℕ → Type 0
Counts (ok (n, cache)) (ok m) = (n ≡ m) × IsCoherent cache
Counts (err e) (err f) = e ≡ f
Counts _ _ = ⊥

Counts-of-Gives :
    (m : Result Fault Walk) (r : Result Fault ℕ)
    → Gives 0 m r
    → Counts (m >>= λ w. ok (w.bytes, w.cache)) r
Counts-of-Gives (ok w) (ok n) h = (omega arith, h.1)
Counts-of-Gives (err e) (err f) h = h
Counts-of-Gives (ok w) (err f) h = absurd h
Counts-of-Gives (err e) (ok n) h = absurd h

-- With a coherent key cache `measureValue` counts every reachable object once, whatever is cached.
pub measure_value-Counts :
    (heap : Heap) (cache : KeyCache) (v : Value)
    → IsCoherent cache
    → Counts (measure_value heap cache v) (value_bytes heap v)
unfolding measure_value value_bytes
measure_value-Counts heap cache (ref a) h = Counts-of-Gives _ _ (
    walk-Gives (walk_fuel heap) heap
      (record { bytes = 0; pending = a ∷ []; object_graph = []; cache = cache }) h)
measure_value-Counts heap cache (date none) h = unfold scalar_bytes in refl
measure_value-Counts heap cache (date (some text)) h = unfold scalar_bytes in (refl, h)
measure_value-Counts heap cache undefined h = unfold scalar_bytes in (refl, h)
measure_value-Counts heap cache null h = unfold scalar_bytes in (refl, h)
measure_value-Counts heap cache symbol h = unfold scalar_bytes in (refl, h)
measure_value-Counts heap cache callable h = unfold scalar_bytes in (refl, h)
measure_value-Counts heap cache (boolean b) h = unfold scalar_bytes in (refl, h)
measure_value-Counts heap cache (number n) h = unfold scalar_bytes in (refl, h)
measure_value-Counts heap cache (bigint z) h = unfold scalar_bytes in (refl, h)
measure_value-Counts heap cache (string s) h = unfold scalar_bytes in (refl, h)
measure_value-Counts heap cache (buffer bytes) h = unfold scalar_bytes in (refl, h)
