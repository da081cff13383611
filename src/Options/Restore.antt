-- ===== src/Options/Restore.antt =====
-- src/utils/database-options-executor.ts: the captured values, and the session after an operation.
use typeorm_procedure_kit.Common.{
  ◌≡◌, refl, sym, ◌∙◌, arith, ◌⊎◌, inl, inr, Bool, true, false, ◌||◌, Option, none, some,
  Option-cases, Bool-cases, List, [], ◌∷◌, Result, ok, err, Result-cases, any,
}
use typeorm_procedure_kit.Common.JsMap.{has, put, has-put}
use typeorm_procedure_kit.Common.Text.{Text, text_eq}
use typeorm_procedure_kit.Value.{Value, string}
use typeorm_procedure_kit.ErrorHandler.{Fault}
use typeorm_procedure_kit.Options.{ValidatedCommand}
use typeorm_procedure_kit.Options.Session.{
  Database, SettingRow, Failure, select_statement, first_value, captured, read_setting,
  parameter_to_read, reversed, settle, capture, set_up_and_run, run_and_restore, after_capture,
  execute_with_restored_oracle_session,
}
use typeorm_procedure_kit.Options.OracleSession.{
  OracleSession, Holds, Holds-put, Holds-reversed, restore-setting, has-reversed,
}

read_setting-ok : (p v : Text) (w : Value) → read_setting p w ≡ ok v → w ≡ string v
unfolding read_setting
read_setting-ok p v w h = ground arith

module _ (db : Database) (session : OracleSession db) where
  capture-skip :
      (c : ValidatedCommand) (cs : List ValidatedCommand) (m : List (Text × Text)) (q : db.State)
      → parameter_to_read c.oracle_parameter m ≡ none
      → capture db (c ∷ cs) m q ≡ capture db cs m q
  unfolding capture
  capture-skip c cs m q skip = rw (skip, capture) refl

  capture-ok :
      (c : ValidatedCommand) (cs : List ValidatedCommand) (m : List (Text × Text)) (q : db.State)
      (p v : Text)
      → parameter_to_read c.oracle_parameter m ≡ some p
      → captured p (db.query q select_statement (p ∷ [])).1 ≡ ok v
      → capture db (c ∷ cs) m q ≡ capture db cs (put m p v) (db.query q select_statement (p ∷ [])).0
  unfolding capture
  capture-ok c cs m q p v read found = rw (read, found, capture) refl

  capture-err :
      (c : ValidatedCommand) (cs : List ValidatedCommand) (m : List (Text × Text)) (q : db.State)
      (p : Text) (e : Fault)
      → parameter_to_read c.oracle_parameter m ≡ some p
      → captured p (db.query q select_statement (p ∷ [])).1 ≡ err e
      → capture db (c ∷ cs) m q ≡ ((db.query q select_statement (p ∷ [])).0, err e)
  unfolding capture
  capture-err c cs m q p e read failed = rw (read, failed, capture) refl

  abbrev pub named : Option Text → Text → Bool
  named none p = false
  named (some k) p = text_eq.beq k p

  -- one of the commands sets the parameter
  abbrev pub sets_parameter : List ValidatedCommand → Text → Bool
  sets_parameter cs p = any (λ c. named c.oracle_parameter p) cs

  abbrev SameSettings : db.State → db.State → Type 0
  SameSettings q q0 = (r : Text) → session.setting q r ≡ session.setting q0 r

  select-Same :
      (q q0 : db.State) (p : Text)
      → SameSettings q q0
      → SameSettings (db.query q select_statement (p ∷ [])).0 q0
  select-Same q q0 p same r = session.select-setting q p r ∙ same r

  capture-Same :
      (cs : List ValidatedCommand) (m : List (Text × Text)) (q q0 : db.State)
      → SameSettings q q0
      → SameSettings (capture db cs m q).0 q0
  unfolding capture
  capture-Same [] m q q0 same = same
  capture-Same (c ∷ cs) m q q0 same = elim (Option-cases (parameter_to_read c.oracle_parameter m)) [
    | inl skip ↦ rw (capture-skip c cs m q skip) (capture-Same cs m q q0 same)
    | inr (p, read) ↦ elim (Result-cases (captured p (db.query q select_statement (p ∷ [])).1)) [
      | inl (v, found) ↦ rw (capture-ok c cs m q p v read found) (
          capture-Same cs (put m p v) (db.query q select_statement (p ∷ [])).0 q0
            (select-Same q q0 p same))
      | inr (e, failed) ↦ rw (capture-err c cs m q p e read failed) (select-Same q q0 p same)
    ]
  ]

  captured-ok :
      (p v : Text) (m : Result Fault (List SettingRow))
      → captured p m ≡ ok v
      → (rows : List SettingRow) × (m ≡ ok rows) × (first_value rows ≡ string v)
  unfolding captured
  captured-ok p v (err e) h = cc
  captured-ok p v (ok rows) h = (rows, refl, read_setting-ok p v (first_value rows) h)

  capture-Holds :
      (cs : List ValidatedCommand) (m m' : List (Text × Text)) (q q0 : db.State)
      → SameSettings q q0
      → Holds db session q0 m
      → (capture db cs m q).1 ≡ ok m'
      → Holds db session q0 m'
  unfolding capture
  capture-Holds [] m m' q q0 same hs h = let e : m ≡ m' = cc in rw (sym e) hs
  capture-Holds (c ∷ cs) m m' q q0 same hs h =
      elim (Option-cases (parameter_to_read c.oracle_parameter m)) [
        | inl skip ↦ capture-Holds cs m m' q q0 same hs (rw (capture-skip c cs m q skip) at h)
        | inr (p, read) ↦
            elim (Result-cases (captured p (db.query q select_statement (p ∷ [])).1)) [
              | inl (v, found) ↦
                  let (rows, got, is_v) = captured-ok p v _ found in
                  let (known, now) = session.select-value q p rows v got is_v in
                  capture-Holds cs (put m p v) m' (db.query q select_statement (p ∷ [])).0 q0
                    (select-Same q q0 p same)
                    (Holds-put db session q0 m p v (known, now ∙ same p) hs)
                    (rw (capture-ok c cs m q p v read found) at h)
              | inr (e, failed) ↦ let bad = rw (capture-err c cs m q p e read failed) at h in cc
            ]
      ]

  -- a command whose parameter was read before, or that has none
  skip-has :
      (o : Option Text) (b : Bool) (m : List (Text × Text)) (p : Text)
      → parameter_to_read o m ≡ none
      → (has m p ≡ true) ⊎ ((named o p || b) ≡ true)
      → (has m p ≡ true) ⊎ (b ≡ true)
  unfolding parameter_to_read
  skip-has none b m p skip h = h
  skip-has (some k) b m p skip (inl there) = inl there
  skip-has (some k) b m p skip (inr sets) = elim (Bool-cases (text_eq.beq k p)) [
    | inl yes' ↦
        let same : k ≡ p = (text_eq.beq_iff k p).0 yes' in
        let there : has m k ≡ true = ground arith in inl (rw same at there)
    | inr no' ↦ inr (rw no' at sets)
  ]

  -- a command whose parameter is read now
  read-has :
      (o : Option Text) (b : Bool) (m : List (Text × Text)) (k v p : Text)
      → parameter_to_read o m ≡ some k
      → (has m p ≡ true) ⊎ ((named o p || b) ≡ true)
      → (has (put m k v) p ≡ true) ⊎ (b ≡ true)
  unfolding parameter_to_read
  read-has none b m k v p read h = cc
  read-has (some j) b m k v p read h =
      let same : j ≡ k = ground arith in
      let law = has-put m k v p in
      elim h [
        | inl there ↦ inl (ground arith)
        | inr sets ↦ elim (Bool-cases (text_eq.beq k p)) [
          | inl yes' ↦ inl (ground arith)
          | inr no' ↦ let sets' = rw same at sets in inr (rw no' at sets')
        ]
      ]

  capture-has :
      (cs : List ValidatedCommand) (m m' : List (Text × Text)) (q : db.State) (p : Text)
      → (has m p ≡ true) ⊎ (sets_parameter cs p ≡ true)
      → (capture db cs m q).1 ≡ ok m'
      → has m' p ≡ true
  unfolding capture
  capture-has [] m m' q p (inl there) h = let e : m ≡ m' = cc in rw (sym e) there
  capture-has [] m m' q p (inr bad) h = cc
  capture-has (c ∷ cs) m m' q p at_p h =
      elim (Option-cases (parameter_to_read c.oracle_parameter m)) [
        | inl skip ↦
            capture-has cs m m' q p
              (skip-has c.oracle_parameter (sets_parameter cs p) m p skip at_p)
              (rw (capture-skip c cs m q skip) at h)
        | inr (k, read) ↦
            elim (Result-cases (captured k (db.query q select_statement (k ∷ [])).1)) [
              | inl (v, found) ↦
                  capture-has cs (put m k v) m' (db.query q select_statement (k ∷ [])).0 p
                    (read-has c.oracle_parameter (sets_parameter cs p) m k v p read at_p)
                    (rw (capture-ok c cs m q k v read found) at h)
              | inr (e, failed) ↦ let bad = rw (capture-err c cs m q k e read failed) at h in cc
            ]
      ]

  -- a result, or an error after which the connection may be used again
  abbrev pub IsReusable : {A : Type 0} → Result Failure A → Type 0
  IsReusable (ok a) = Unit {0}
  IsReusable (err f) = f.invalidates ≡ false

  settle-reusable :
      {A : Type 0} (m : Result Fault A) (r : Result Fault (Unit {0}))
      → IsReusable (settle m r)
      → r ≡ ok tt
  unfolding settle
  settle-reusable (ok a) (ok u) h = refl
  settle-reusable (ok a) (err e) h = cc
  settle-reusable (err f) (ok u) h = refl
  settle-reusable (err f) (err e) h = cc

  after_capture-setting :
      {A : Type 0} (operation : db.State → db.State × Result Fault A) (cs : List ValidatedCommand)
      (q : db.State) (p : Text) (c : db.State × Result Fault (List (Text × Text)))
      → SameSettings c.0 q
      → ((m : List (Text × Text)) → c.1 ≡ ok m → Holds db session q m × (has m p ≡ true))
      → IsReusable (after_capture db operation cs c).1
      → session.setting (after_capture db operation cs c).0 p ≡ session.setting q p
  unfolding after_capture run_and_restore
  after_capture-setting operation cs q p (s, err e) same good h = same p
  after_capture-setting operation cs q p (s, ok m) same good h =
      let (holds, there) = good m refl in
      restore-setting db session q (set_up_and_run db operation cs s).0 (reversed m) p
        (Holds-reversed db session q m holds) (inl (has-reversed m p ∙ there))
        (settle-reusable (set_up_and_run db operation cs s).1 _ h)

  -- Whatever the setup commands and the operation do, succeed or fail: if the error, if any, does not
  -- invalidate the connection, then each parameter that a setup command sets has in the end the value
  -- that it had before.
  pub execute_with_restored_oracle_session-setting :
      {A : Type 0} (operation : db.State → db.State × Result Fault A) (cs : List ValidatedCommand)
      (q : db.State) (p : Text)
      → sets_parameter cs p ≡ true
      → IsReusable (execute_with_restored_oracle_session db operation cs q).1
      → session.setting (execute_with_restored_oracle_session db operation cs q).0 p
        ≡ session.setting q p
  unfolding execute_with_restored_oracle_session
  execute_with_restored_oracle_session-setting operation cs q p sets h =
      after_capture-setting operation cs q p (capture db cs [] q)
        (capture-Same cs [] q q (λ r. refl))
        (λ m got.
          (capture-Holds cs [] m q q (λ r. refl) tt got, capture-has cs [] m q p (inr sets) got))
        h
