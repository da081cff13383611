-- ===== src/Options/OracleSession.antt =====
-- What the Oracle session is relied on for, and the statements that restore it.
use typeorm_procedure_kit.Common.{
  ◌≡◌, refl, ◌∙◌, arith, ◌⊎◌, inl, inr, Bool, true, false, ◌||◌, Bool-cases, List, [], ◌∷◌, ◌++◌,
  All, All-append, if◌then◌else◌, ok, err, Result-cases,
}
use typeorm_procedure_kit.Common.JsMap.{has, put}
use typeorm_procedure_kit.Common.Text.{Text, text_eq}
use typeorm_procedure_kit.Value.{string}
use typeorm_procedure_kit.ErrorHandler.{Fault}
use typeorm_procedure_kit.Options.Session.{
  Database, SettingRow, restore_statement, select_statement, first_value, reversed, restore,
}

-- What the code relies on: the view of the session has a row for each parameter of the session, with its
-- value; reading it changes no value, and a statement that sets a parameter, if it does not fail, sets
-- this one alone.
pub record OracleSession (db : Database) : Type 0 where
  pub is_parameter : Text → Bool
  pub setting : db.State → Text → Text
  pub select-value :
      (q : db.State) (p : Text) (rows : List SettingRow) (v : Text)
      → (db.query q select_statement (p ∷ [])).1 ≡ ok rows
      → first_value rows ≡ string v
      → (is_parameter p ≡ true) × (v ≡ setting q p)
  pub select-setting :
      (q : db.State) (p r : Text) → setting (db.query q select_statement (p ∷ [])).0 r ≡ setting q r
  pub alter-setting :
      (q : db.State) (p v r : Text) (rows : List SettingRow)
      → is_parameter p ≡ true
      → (db.query q (restore_statement p v) []).1 ≡ ok rows
      → setting (db.query q (restore_statement p v) []).0 r
        ≡ (if text_eq.beq p r then v else setting q r)

has-append : (m n : List (Text × Text)) (p : Text) → has (m ++ n) p ≡ (has m p || has n p)
unfolding has
has-append [] n p = refl
has-append ((k, v) ∷ m) n p = ground (arith, has-append m n p)

pub has-reversed : (m : List (Text × Text)) (p : Text) → has (reversed m) p ≡ has m p
unfolding reversed has
has-reversed [] p = refl
has-reversed ((k, v) ∷ m) p =
    rw (has-append (reversed m) ((k, v) ∷ []) p, has-reversed m p) (unfold has in ground arith)

module _ (db : Database) (session : OracleSession db) where
  abbrev pub HoldsAt : db.State → Text → Text → Type 0
  HoldsAt q p v = (session.is_parameter p ≡ true) × (v ≡ session.setting q p)

  -- the entries hold the values of the session at `q`
  abbrev pub Holds : db.State → List (Text × Text) → Type 0
  Holds q m = All (λ e. HoldsAt q e.0 e.1) m

  pub Holds-reversed : (q : db.State) (m : List (Text × Text)) → Holds q m → Holds q (reversed m)
  unfolding reversed
  Holds-reversed q [] h = tt
  Holds-reversed q (e ∷ m) (h, hs) =
      All-append (λ e. HoldsAt q e.0 e.1) (reversed m) (e ∷ []) (Holds-reversed q m hs) (h, tt)

  pub Holds-put :
      (q : db.State) (m : List (Text × Text)) (p v : Text)
      → HoldsAt q p v
      → Holds q m
      → Holds q (put m p v)
  unfolding put
  Holds-put q [] p v h hs = (h, tt)
  Holds-put q ((k, w) ∷ m) p v h (first, hs) = elim (Bool-cases (text_eq.beq k p)) [
    | inl yes' ↦ rw yes' (rw ((text_eq.beq_iff k p).0 yes') h, hs)
    | inr no' ↦ rw no' (first, Holds-put q m p v h hs)
  ]

  restore-ok :
      (k v : Text) (m : List (Text × Text)) (q : db.State) (rows : List SettingRow)
      → (db.query q (restore_statement k v) []).1 ≡ ok rows
      → restore db ((k, v) ∷ m) q ≡ restore db m (db.query q (restore_statement k v) []).0
  unfolding restore
  restore-ok k v m q rows found = rw (found, restore) refl

  restore-err :
      (k v : Text) (m : List (Text × Text)) (q : db.State) (e : Fault)
      → (db.query q (restore_statement k v) []).1 ≡ err e
      → (restore db ((k, v) ∷ m) q).1 ≡ err e
  unfolding restore
  restore-err k v m q e failed = rw (failed, restore) refl

  -- one statement of the restoration
  restored_or_left :
      (q0 q s : db.State) (k v : Text) (m : List (Text × Text)) (p : Text)
      → v ≡ session.setting q0 k
      → session.setting s p ≡ (if text_eq.beq k p then v else session.setting q p)
      → (has ((k, v) ∷ m) p ≡ true) ⊎ (session.setting q p ≡ session.setting q0 p)
      → (has m p ≡ true) ⊎ (session.setting s p ≡ session.setting q0 p)
  unfolding has
  restored_or_left q0 q s k v m p h law at_p = elim (Bool-cases (text_eq.beq k p)) [
    | inl yes' ↦
        let same : k ≡ p = (text_eq.beq_iff k p).0 yes' in inr (rw yes' at law ∙ (rw same at h))
    | inr no' ↦ elim at_p [
      | inl there ↦ inl (rw no' at there)
      | inr kept ↦ inr (rw no' at law ∙ kept)
    ]
  ]

  pub restore-setting :
      (q0 q : db.State) (m : List (Text × Text)) (p : Text)
      → Holds q0 m
      → (has m p ≡ true) ⊎ (session.setting q p ≡ session.setting q0 p)
      → (restore db m q).1 ≡ ok tt
      → session.setting (restore db m q).0 p ≡ session.setting q0 p
  unfolding restore
  restore-setting q0 q [] p hs (inl bad) done = let no : false ≡ true = unfold has in bad in cc
  restore-setting q0 q [] p hs (inr same) done = same
  restore-setting q0 q ((k, v) ∷ m) p ((known, h), hs) at_p done =
      elim (Result-cases (db.query q (restore_statement k v) []).1) [
        | inl (rows, found) ↦ rw (restore-ok k v m q rows found) (
            restore-setting q0 (db.query q (restore_statement k v) []).0 m p hs
              (restored_or_left q0 q (db.query q (restore_statement k v) []).0 k v m p h
                (session.alter-setting q k v p rows known found) at_p)
              (rw (restore-ok k v m q rows found) at done))
        | inr (e, failed) ↦ let bad = restore-err k v m q e failed in cc
      ]
