-- ===== src/Tracker/Scanning.antt =====
-- The scan of a flat row with its remembered shape, against the reference.
use typeorm_procedure_kit.Common.{
  ℕ, zero, suc, ◌+◌, ◌≡◌, refl, sym, ap, arith, Bool, true, false, not, ◌&&◌, inl, inr, Option,
  none, some, List, [], ◌∷◌, if◌then◌else◌, ◌==◌, nat_eq, ok, err, Bool-cases, Result-cases, length,
  map, take, get_elem?,
}
use mathlib.Core.List.{map-append}
use typeorm_procedure_kit.Common.Text.{Text, text_eq}
use typeorm_procedure_kit.Value.{Value, ref, Property}
use typeorm_procedure_kit.Tracker.Measure.{scalar_bytes, measure_utf8, measure_key}
use typeorm_procedure_kit.Tracker.Coherence.{
  object_bytes, push_children, child, IsCoherent, measure_key-eq, measure_key-IsCoherent,
}
use typeorm_procedure_kit.Tracker.Row.{
  Shape, Scan, Scanned, flat, nested, thrown, shape_keys, shape_key_bytes, is_key, cached_bytes,
  count_key, push_key, start_shape, scan_key, scan_value, scan, end_shape,
}

-- a list of keys with their lengths
abbrev Measures : List Text → List ℕ → Type 0
Measures keys lengths = lengths ≡ map measure_utf8 keys

pub record IsShape (shape : Option Shape) : Type 0 where
  pub measured : shape_key_bytes shape ≡ map measure_utf8 (shape_keys shape)

pub record IsScan (s : Scan) : Type 0 where
  pub measured : s.next_key_bytes ≡ map measure_utf8 s.next_keys
  pub coherent : IsCoherent s.cache

map-take {ℓ κ} :
    {A : Type ℓ} {B : Type κ} (f : A → B) (n : ℕ) (xs : List A)
    → take n (map f xs) ≡ map f (take n xs)
map-take f zero xs = refl
map-take f (suc n) [] = refl
map-take f (suc n) (x ∷ xs) = ap (λ r. f x ∷ r) (map-take f n xs)

get_elem?-map {ℓ κ} :
    {A : Type ℓ} {B : Type κ} (f : A → B) (xs : List A) (i : ℕ) (a : A)
    → get_elem? xs i ≡ some a
    → get_elem? (map f xs) i ≡ some (f a)
get_elem?-map f [] i a e = cc
get_elem?-map f (x ∷ xs) zero a e = cc
get_elem?-map f (x ∷ xs) (suc i) a e = get_elem?-map f xs i a e

-- What a key adds: its length, with the invariant kept.
record Counted (s s' : Scan) (key : Text) : Type 0 where
  pub bytes : s'.bytes ≡ s.bytes + measure_utf8 key
  scan : IsScan s'

scan_key-new :
    (s : Scan) (key : Text)
    → IsScan s
    → Counted s (count_key (measure_key s.cache key) (push_key key (measure_key s.cache key) s)) key
unfolding count_key push_key
scan_key-new s key h = record {
  bytes = ap (λ n. s.bytes + n) (measure_key-eq s.cache key h.coherent);
  scan = record {
    measured = cc (
      h.measured,
      measure_key-eq s.cache key h.coherent,
      map-append measure_utf8 s.next_keys (key ∷ []),
    );
    coherent = measure_key-IsCoherent s.cache key h.coherent;
  };
}

IsScan-if : (b : Bool) (s t : Scan) → IsScan s → IsScan t → IsScan (if b then s else t)
IsScan-if true s t h k = h
IsScan-if false s t h k = k

bytes-if : (b : Bool) (s t : Scan) → s.bytes ≡ t.bytes → (if b then s else t).bytes ≡ s.bytes
bytes-if true s t e = refl
bytes-if false s t e = sym e

module _ (shape : Option Shape) (k : IsShape shape) where
  start_shape-IsScan : (s : Scan) → IsScan s → IsScan (start_shape shape s)
  unfolding start_shape
  start_shape-IsScan s h = IsScan-if s.is_shape_changed s _ h (record {
    measured = rw k.measured (map-take measure_utf8 s.key_index (shape_keys shape));
    coherent = h.coherent;
  })

  bytes-start_shape : (s : Scan) → (start_shape shape s).bytes ≡ s.bytes
  unfolding start_shape
  bytes-start_shape s = bytes-if s.is_shape_changed s _ refl

  is_key-eq : (o : Option Text) (key : Text) → is_key o key ≡ true → o ≡ some key
  unfolding is_key
  is_key-eq none key e = cc
  is_key-eq (some x) key e = ap some ((text_eq.beq_iff x key).0 e)

  scan_key-known :
      (s : Scan) (key : Text)
      → IsScan s
      → get_elem? (shape_keys shape) s.key_index ≡ some key
      → Counted s
          (count_key (cached_bytes (get_elem? (shape_key_bytes shape) s.key_index) s.cache key) s)
          key
  scan_key-known s key h e =
      let found : get_elem? (shape_key_bytes shape) s.key_index ≡ some (measure_utf8 key) =
        rw k.measured (get_elem?-map measure_utf8 (shape_keys shape) s.key_index key e) in
      rw found (
        unfold count_key cached_bytes in
        record { bytes = refl; scan = record { measured = h.measured; coherent = h.coherent } })

  Counted-if :
      (b : Bool) (s t u : Scan) (key : Text)
      → (b ≡ true → Counted s t key)
      → (b ≡ false → Counted s u key)
      → Counted s (if b then t else u) key
  Counted-if true s t u key h g = h refl
  Counted-if false s t u key h g = g refl

  scan_key-Counted : (s : Scan) (key : Text) → IsScan s → Counted s (scan_key shape s key) key
  unfolding scan_key
  scan_key-Counted s key h =
      let s' = start_shape shape s in
      let new = scan_key-new s' key (start_shape-IsScan s h) in
      Counted-if (not s.is_shape_changed && is_key (get_elem? (shape_keys shape) s.key_index) key) s
        _ _ key (λ e. scan_key-known s key h (is_key-eq _ key (ground (arith, e))))
        (λ _. record { bytes = omega (arith, new.bytes, bytes-start_shape s); scan = new.scan })

child_scalar :
    (v : Value) (n : ℕ) (stack : List ℕ) → scalar_bytes v ≡ ok (some n) → child v stack ≡ stack
unfolding scalar_bytes
child_scalar (ref a) n stack e = cc
child_scalar v n stack e = refl

-- How the scan of `ps` from `base` bytes ends, by the reference.
abbrev pub ScanGives : ℕ → List Property → Scanned → Type 0
ScanGives base ps (flat s) =
    (n : ℕ) × (object_bytes ps ≡ ok n)
    × (s.bytes ≡ base + n)
    × ((stack : List ℕ) → push_children ps stack ≡ stack)
    × IsScan s
ScanGives base ps (nested cache) = IsCoherent cache
ScanGives base ps (thrown f) = object_bytes ps ≡ err f

-- a property in front: not own, or own with a scalar of `n` bytes
ScanGives-skip :
    (base : ℕ) (p : Property) (ps : List Property) (r : Scanned)
    → p.is_own ≡ false
    → ScanGives base ps r
    → ScanGives base (p ∷ ps) r
unfolding object_bytes push_children
ScanGives-skip base p ps (flat s) e (n, counted, bytes, none_pushed, h) =
    (n, rw e counted, bytes, rw e none_pushed, h)
ScanGives-skip base p ps (nested cache) e h = h
ScanGives-skip base p ps (thrown f) e h = rw e h

ScanGives-cons :
    (base start n : ℕ) (p : Property) (ps : List Property) (r : Scanned)
    → p.is_own ≡ true
    → scalar_bytes p.value ≡ ok (some n)
    → start ≡ base + measure_utf8 p.key + n
    → ScanGives start ps r
    → ScanGives base (p ∷ ps) r
unfolding object_bytes push_children
ScanGives-cons base start n p ps (flat s) own e at (m, counted, bytes, none_pushed, h) = (
  measure_utf8 p.key + n + m,
  rw (own, e, counted) refl,
  omega arith,
  rw own (λ stack. rw (child_scalar p.value n stack e) (none_pushed stack)),
  h,
)
ScanGives-cons base start n p ps (nested cache) own e at h = h
ScanGives-cons base start n p ps (thrown f) own e at h = rw (own, e, h) refl

module _ (shape : Option Shape) (k : IsShape shape) where
  -- the rest of the loop after one property
  scan_rest : List Property → Scanned → Scanned
  scan_rest ps (flat s) = scan shape s ps
  scan_rest ps (nested cache) = nested cache
  scan_rest ps (thrown f) = thrown f

  scan-own :
      (s : Scan) (p : Property) (ps : List Property)
      → p.is_own ≡ true
      → scan shape s (p ∷ ps)
        ≡ scan_rest ps (scan_value (scan_key shape s p.key) (scalar_bytes p.value))
  unfolding scan scan_rest
  scan-own s p ps own = rw own refl

  scan-skip :
      (s : Scan) (p : Property) (ps : List Property)
      → p.is_own ≡ false
      → scan shape s (p ∷ ps) ≡ scan shape s ps
  unfolding scan
  scan-skip s p ps other = rw other refl

  pub scan-ScanGives :
      (s : Scan) (ps : List Property) → IsScan s → ScanGives s.bytes ps (scan shape s ps)
  unfolding scan_value scan_rest
  scan-ScanGives s [] h =
      unfold scan object_bytes push_children in (0, refl, omega arith, λ stack. refl, h)
  scan-ScanGives s (p ∷ ps) h = elim (Bool-cases p.is_own) [
    | inr other ↦
        rw (scan-skip s p ps other)
          (ScanGives-skip s.bytes p ps (scan shape s ps) other (scan-ScanGives s ps h))
    | inl own ↦
        let c = scan_key-Counted shape k s p.key h in
        let s' = scan_key shape s p.key in
        rw (scan-own s p ps own) (elim (Result-cases (scalar_bytes p.value)) [
          | inr (f, e) ↦ rw e (unfold object_bytes in rw (own, e) refl)
          | inl (none, e) ↦ rw e c.scan.coherent
          | inl (some n, e) ↦ rw e (
              ScanGives-cons s.bytes (s'.bytes + n) n p ps _ own e (omega (arith, c.bytes)) (
                scan-ScanGives (record s' { bytes = s'.bytes + n }) ps
                  (record { measured = c.scan.measured; coherent = c.scan.coherent })))
        ])
  ]

IsShape-if : (b : Bool) (s t : Option Shape) → IsShape s → IsShape t → IsShape (if b then s else t)
IsShape-if true s t h g = h
IsShape-if false s t h g = g

made-IsShape :
    (keys : List Text) (lengths : List ℕ)
    → lengths ≡ map measure_utf8 keys
    → IsShape (some (record { keys = keys; key_bytes = lengths }))
made-IsShape keys lengths e = record { measured = unfold shape_keys shape_key_bytes in e }

measured_shape :
    (shape : Shape) → IsShape (some shape) → shape.key_bytes ≡ map measure_utf8 shape.keys
measured_shape shape k = unfold shape_keys shape_key_bytes in k.measured

pub end_shape-IsShape :
    (shape : Option Shape) (s : Scan) → IsShape shape → IsScan s → IsShape (end_shape shape s)
unfolding end_shape
end_shape-IsShape none s k h =
    IsShape-if s.is_shape_changed _ none (made-IsShape s.next_keys s.next_key_bytes h.measured) k
end_shape-IsShape (some shape) s k h =
    IsShape-if s.is_shape_changed _ _ (made-IsShape s.next_keys s.next_key_bytes h.measured) (
      IsShape-if (s.key_index == length shape.keys) (some shape) _ k (
        made-IsShape (take s.key_index shape.keys) (take s.key_index shape.key_bytes)
          (rw (measured_shape shape k) (map-take measure_utf8 s.key_index shape.keys))))
