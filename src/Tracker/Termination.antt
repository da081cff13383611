-- ===== src/Tracker/Termination.antt =====
-- `measureValue` of procedure-resource-tracker.ts: the fuel of the walk over the object graph.
use typeorm_procedure_kit.Common.{
  ℕ, zero, suc, ◌+◌, ◌≤◌, ◌<◌, ◌≡◌, ◌≢◌, refl, arith, Bool, true, false, inl, inr, none, some, List,
  [], ◌∷◌, if◌then◌else◌, contains, nat_eq, ◌==◌, Result, ok, err, ◌>>=◌, Bool-cases, length, sum,
  map, ap, nat_beq,
}
use typeorm_procedure_kit.Value.{Value, date, ref, Property, Heap, properties}
use typeorm_procedure_kit.Tracker.Measure.{
  Fault, out_of_fuel, scalar_bytes, KeyCache, measure_value, walk_fuel,
}
use typeorm_procedure_kit.Tracker.Reference.{Counts, measure_value-Counts}
use typeorm_procedure_kit.Tracker.Coherence.{
  object_bytes, push_children, graph_bytes, value_bytes, child, IsCoherent,
}

-- the properties of the objects of the heap, numbered from `i`, that are not in `seen`
edges_from : ℕ → Heap → List ℕ → ℕ
edges_from i [] seen = 0
edges_from i (o ∷ heap) seen =
    (if contains i seen then 0 else length o) + edges_from (suc i) heap seen

object_from : ℕ → Heap → ℕ → List Property
object_from i [] a = []
object_from i (o ∷ heap) a = if i == a then o else object_from (suc i) heap a

edges_from-other :
    (i : ℕ) (heap : Heap) (a : ℕ) (seen : List ℕ)
    → a < i
    → edges_from i heap (a ∷ seen) ≡ edges_from i heap seen
unfolding edges_from
edges_from-other i [] a seen h = refl
edges_from-other i (o ∷ heap) a seen h =
    ground (arith, edges_from-other (suc i) heap a seen (omega arith))

edges_from-visit :
    (i : ℕ) (heap : Heap) (a : ℕ) (seen : List ℕ)
    → contains a seen ≡ false
    → edges_from i heap (a ∷ seen) + length (object_from i heap a) ≡ edges_from i heap seen
unfolding edges_from object_from
edges_from-visit i [] a seen h = omega arith
edges_from-visit i (o ∷ heap) a seen h = elim (Bool-cases (nat_beq i a)) [
  | inl same ↦
      let e : i ≡ a = ground arith in
      rw e (ground (arith, edges_from-other (suc a) heap a seen (omega arith)))
  | inr other ↦ ground (arith, edges_from-visit (suc i) heap a seen h)
]

object_from-add : (i : ℕ) (heap : Heap) (k : ℕ) → object_from i heap (i + k) ≡ properties heap k
unfolding object_from
object_from-add i [] k = refl
object_from-add i (o ∷ heap) zero = ground arith
object_from-add i (o ∷ heap) (suc k) =
    let e : suc i + k ≡ i + suc k = omega arith in ground (arith, e, object_from-add (suc i) heap k)

edges_from-nil : (i : ℕ) (heap : Heap) → edges_from i heap [] ≡ sum (map length heap)
unfolding edges_from
edges_from-nil i [] = refl
edges_from-nil i (o ∷ heap) = omega (arith, edges_from-nil (suc i) heap)

length-child : (v : Value) (stack : List ℕ) → length (child v stack) ≤ suc (length stack)
length-child (ref a) stack = omega arith
length-child v stack = omega arith

length-next :
    (b : Bool) (v : Value) (stack : List ℕ)
    → length (if b then child v stack else stack) ≤ suc (length stack)
length-next true v stack = length-child v stack
length-next false v stack = omega arith

length-push_children :
    (ps : List Property) (stack : List ℕ)
    → length (push_children ps stack) ≤ length ps + length stack
unfolding push_children
length-push_children [] stack = omega arith
length-push_children (p ∷ ps) stack =
    let next = if p.is_own then child p.value stack else stack in
    omega (arith, length-push_children ps next, length-next p.is_own p.value stack)

scalar_bytes-ne : (v : Value) → scalar_bytes v ≢ err out_of_fuel
unfolding scalar_bytes
scalar_bytes-ne (date none) e = ground arith
scalar_bytes-ne (date (some text)) e = cc
scalar_bytes-ne v e = cc

object_bytes-ne : (ps : List Property) → object_bytes ps ≢ err out_of_fuel
unfolding object_bytes
object_bytes-ne [] e = cc
object_bytes-ne (p ∷ ps) e = ground (arith, object_bytes-ne ps, scalar_bytes-ne p.value)

-- what is still to do: the addresses on the stack and the properties of the objects not met
abbrev work : Heap → List ℕ → List ℕ → ℕ
work heap pending seen = length pending + edges_from 0 heap seen

work_visit :
    (heap : Heap) (a : ℕ) (pending seen : List ℕ)
    → contains a seen ≡ false
    → work heap (push_children (properties heap a) pending) (a ∷ seen)
      < work heap (a ∷ pending) seen
work_visit heap a pending seen new =
    let e : 0 + a ≡ a = omega arith in
    let same : object_from 0 heap a ≡ properties heap a = rw e at (object_from-add 0 heap a) in
    omega (
      arith,
      edges_from-visit 0 heap a seen new,
      ap length same,
      length-push_children (properties heap a) pending,
    )

bind_ne :
    (n : Result Fault ℕ) (rest : Result Fault ℕ)
    → n ≢ err out_of_fuel
    → rest ≢ err out_of_fuel
    → (n >>= λ x. rest >>= λ y. ok (x + y)) ≢ err out_of_fuel
bind_ne (ok x) (ok y) h k e = cc
bind_ne (ok x) (err f) h k e = k e
bind_ne (err f) rest h k e = h e

graph_bytes-total :
    (fuel : ℕ) (heap : Heap) (pending seen : List ℕ)
    → work heap pending seen < fuel
    → graph_bytes fuel heap pending seen ≢ err out_of_fuel
unfolding graph_bytes
graph_bytes-total zero heap pending seen h = elim h [ ]
graph_bytes-total (suc fuel) heap [] seen h = λ e. cc
graph_bytes-total (suc fuel) heap (a ∷ pending) seen h = elim (Bool-cases (contains a seen)) [
  | inl met ↦ rw (graph_bytes, met) (graph_bytes-total fuel heap pending seen (omega arith))
  | inr new ↦
      rw (graph_bytes, new)
        (bind_ne (object_bytes (properties heap a)) _ (object_bytes-ne (properties heap a)) (
          graph_bytes-total fuel heap (push_children (properties heap a) pending) (a ∷ seen)
            (omega (arith, work_visit heap a pending seen new))))
]

-- The reference count of any value is found within the fuel of the heap, whatever its references.
pub value_bytes-total : (heap : Heap) (v : Value) → value_bytes heap v ≢ err out_of_fuel
unfolding value_bytes
value_bytes-total heap (ref a) =
    graph_bytes-total (walk_fuel heap) heap (a ∷ []) [] (omega (arith, edges_from-nil 0 heap))
value_bytes-total heap (date none) = unfold scalar_bytes in λ e. ground arith
value_bytes-total heap (date (some text)) = unfold scalar_bytes in λ e. cc
value_bytes-total heap v = unfold scalar_bytes in λ e. cc

Counts-ne :
    (m : Result Fault (ℕ × KeyCache)) (r : Result Fault ℕ)
    → Counts m r
    → r ≢ err out_of_fuel
    → m ≢ err out_of_fuel
Counts-ne (ok (n, cache)) (ok m) h k e = cc
Counts-ne (err f) (err g) h k e = k (cc)
Counts-ne (ok (n, cache)) (err g) h k e = absurd h
Counts-ne (err f) (ok m) h k e = absurd h

-- With a coherent key cache `measureValue` ends on every object graph, cycles included: the fuel is
-- never used up.
pub measure_value-total :
    (heap : Heap) (cache : KeyCache) (v : Value)
    → IsCoherent cache
    → measure_value heap cache v ≢ err out_of_fuel
measure_value-total heap cache v h =
    Counts-ne (measure_value heap cache v) (value_bytes heap v)
      (measure_value-Counts heap cache v h) (value_bytes-total heap v)
