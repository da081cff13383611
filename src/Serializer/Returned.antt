-- ===== src/Serializer/Returned.antt =====
-- src/adapters/abstract/database-serializer.ts: what serializeValue returns.
use typeorm_procedure_kit.Common.{
  ℕ, ◌≡◌, ◌≢◌, ◌↔◌, refl, ap, ◌∙◌, Option, none, some, Result, ok, err, >>=-eq-ok, ok-inj,
}
use mathlib.Core.Path.{subst}
use typeorm_procedure_kit.DateFormatter.{Luxon}
use typeorm_procedure_kit.Serializer.{
  SerializerType, Registry, entry, Native, null, undefined, assert_native_value, serialize_value,
  apply_serializer, strategy_outcome,
}
use typeorm_procedure_kit.Serializer.Accepted.{
  Accepts, Accepts-assert_native_value, assert_native_value-Accepts,
}

module _ (luxon : Luxon) (strategies : ℕ → SerializerType → Native → Result ℕ Native) where
  -- Null for null and undefined; the value itself if its type has no strategy; and what the strategy returns
  -- for a value of its type.
  pub data Returns (r : Registry) (t : SerializerType) : Native → Native → Type 0 where
    null_value : Returns r t null null
    undefined_value : Returns r t undefined null
    unregistered : {v : Native} → v ≢ null → v ≢ undefined → entry t r ≡ none → Returns r t v v
    by_strategy :
        {v w : Native} (s : ℕ)
        → entry t r ≡ some s
        → Accepts luxon t v
        → strategies s t v ≡ ok w
        → Returns r t v w

  strategy_outcome-ok : (m : Result ℕ Native) (w : Native) → strategy_outcome m ≡ ok w → m ≡ ok w
  unfolding strategy_outcome
  strategy_outcome-ok (ok v) w h = ap ok (ok-inj h)
  strategy_outcome-ok (err e) w h = cc

  apply_serializer-Returns :
      (r : Registry) (t : SerializerType) (v w : Native) (o : Option ℕ)
      → entry t r ≡ o
      → v ≢ null
      → v ≢ undefined
      → apply_serializer luxon strategies o t v ≡ ok w
      → Returns r t v w
  unfolding apply_serializer
  apply_serializer-Returns r t v w none e n u h =
      subst (Returns r t v) (ok-inj h) (unregistered n u e)
  apply_serializer-Returns r t v w (some s) e n u h =
      let (x, checked, called) =
        >>=-eq-ok (assert_native_value luxon t v) (λ x. strategy_outcome (strategies s t v)) h in
      by_strategy s e (assert_native_value-Accepts luxon t v checked)
        (strategy_outcome-ok (strategies s t v) w called)

  serialize_value-Returns :
      (r : Registry) (t : SerializerType) (v w : Native)
      → serialize_value luxon strategies r t v ≡ ok w
      → Returns r t v w
  unfolding serialize_value
  serialize_value-Returns r t null w h = subst (Returns r t null) (ok-inj h) null_value
  serialize_value-Returns r t undefined w h =
      subst (Returns r t undefined) (ok-inj h) undefined_value
  serialize_value-Returns r t v w h =
      apply_serializer-Returns r t v w (entry t r) refl (λ q. cc) (λ q. cc) h

  serialize_value-applied :
      (r : Registry) (t : SerializerType) (v : Native)
      → v ≢ null
      → v ≢ undefined
      → serialize_value luxon strategies r t v ≡ apply_serializer luxon strategies (entry t r) t v
  unfolding serialize_value
  serialize_value-applied r t null n u = absurd (n refl)
  serialize_value-applied r t undefined n u = absurd (u refl)
  serialize_value-applied r t v n u = refl

  -- no type accepts null or undefined
  Accepts-present :
      {t : SerializerType} {v : Native} → Accepts luxon t v → (v ≢ null) × (v ≢ undefined)
  Accepts-present {v = null} a = elim a [ ]
  Accepts-present {v = undefined} a = elim a [ ]
  Accepts-present {v} a = (λ q. cc, λ q. cc)

  Returns-serialize_value :
      (r : Registry) (t : SerializerType) (v w : Native)
      → Returns r t v w
      → serialize_value luxon strategies r t v ≡ ok w
  unfolding serialize_value apply_serializer strategy_outcome
  Returns-serialize_value r t v w null_value = refl
  Returns-serialize_value r t v w undefined_value = refl
  Returns-serialize_value r t v w (unregistered n u e) =
      serialize_value-applied r t v n u ∙ rw (e, apply_serializer) refl
  Returns-serialize_value r t v w (by_strategy s e a called) =
      let (n, u) = Accepts-present a in
      serialize_value-applied r t v n u
      ∙ rw (e, apply_serializer, Accepts-assert_native_value luxon a, called) refl

  -- A value is returned exactly if it is null, for null and undefined; or the value itself, if its type has
  -- no strategy; or what the registered strategy returns for it, and the value is one of its type: a text or
  -- date that is a date (a text with a zone, for the zoned types), or of the kinds that the type allows.
  pub serialize_value-ok_iff :
      (r : Registry) (t : SerializerType) (v w : Native)
      → (serialize_value luxon strategies r t v ≡ ok w) ↔ Returns r t v w
  serialize_value-ok_iff r t v w =
      (serialize_value-Returns r t v w, Returns-serialize_value r t v w)
