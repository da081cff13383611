-- ===== src/PortalFetch/Contents.antt =====
-- src/adapters/postgres/postgre-result-materializer.ts: the loop of `fetchAndClosePortal`.
use typeorm_procedure_kit.Common.{
  ℕ, zero, suc, ◌+◌, ◌-◌, ◌≤◌, ◌<◌, ◌≡◌, ◌≢◌, ◌∙◌, refl, sym, ap, arith, inl, inr, Bool, true,
  false, Option, none, some, List, [], ◌∷◌, ◌++◌, length, min, take, drop, Bool-cases, Option-cases,
  Result, ok, err, append_assoc, take-append-drop,
}
use mathlib.Core.Path.{subst}
use typeorm_procedure_kit.Common.Int.{ℤ, pos}
use typeorm_procedure_kit.Common.Text.{Text}
use typeorm_procedure_kit.Value.{Value, Heap}
use typeorm_procedure_kit.Tracker.{
  Tracker, TrackerError, add_row, add_measured_row, check_bytes, remaining_rows,
}
use typeorm_procedure_kit.ErrorHandler.{Fault}
use typeorm_procedure_kit.PortalFetch.{
  PortalEvent, Server, MaterializeError, out_of_fuel, fetch_size, fewer_than, or_next, or_stop,
  closed_result, add_rows, after_rows, after_fetch, fetch_rows, fetch_fuel, fetch_and_close_portal,
}

abbrev HasRoom : Tracker → Type 0
HasRoom t = t.materialized_rows ≤ t.limits.max_procedure_rows

module _ (heap : Heap) where
  add_row-counts :
      (t : Tracker) (row : Value)
      → (add_row heap t row).1 ≡ none
      → ((add_row heap t row).0.materialized_rows ≡ suc t.materialized_rows)
        × ((add_row heap t row).0.limits ≡ t.limits)
        × (suc t.materialized_rows ≤ t.limits.max_procedure_rows)
  unfolding add_row add_measured_row check_bytes
  add_row-counts t row h = ground arith

  or_stop-none :
      (p : Tracker × Option TrackerError) (next : Tracker → Tracker × Option TrackerError)
      {t' : Tracker}
      → or_stop p next ≡ (t', none)
      → (p.1 ≡ none) × (next p.0 ≡ (t', none))
  or_stop-none (t, none) next h = (refl, h)
  or_stop-none (t, some e) next h = cc

  -- rows that are all accepted are counted, and are within the limit
  add_rows-counts :
      (t t' : Tracker) (rows : List Value)
      → add_rows heap t rows ≡ (t', none)
      → (t'.materialized_rows ≡ t.materialized_rows + length rows)
        × (t'.limits ≡ t.limits)
        × (HasRoom t → HasRoom t')
  unfolding add_rows
  add_rows-counts t t' [] h =
      let same : t ≡ t' = ap (λ p. p.0) h in
      (
        ap (λ x. x.materialized_rows) (sym same) ∙ omega arith,
        ap (λ x. x.limits) (sym same),
        subst HasRoom same,
      )
  add_rows-counts t t' (row ∷ rows) h =
      let (accepted, later) = or_stop-none (add_row heap t row) (λ x. add_rows heap x rows) h in
      let (one, same, fits) = add_row-counts t row accepted in
      let (more, same', room) = add_rows-counts (add_row heap t row).0 t' rows later in
      (
        omega (arith, one, more),
        same' ∙ same,
        λ h'. room (omega (arith, one, fits, ap (λ l. l.max_procedure_rows) same)),
      )

  add_rows-append :
      (t t' : Tracker) (xs ys : List Value)
      → add_rows heap t (xs ++ ys) ≡ (t', none)
      → (t1 : Tracker) × (add_rows heap t xs ≡ (t1, none)) × (add_rows heap t1 ys ≡ (t', none))
  unfolding add_rows
  add_rows-append t t' [] ys h = (t, refl, h)
  add_rows-append t t' (x ∷ xs) ys h =
      let (accepted, later) = or_stop-none (add_row heap t x) (λ z. add_rows heap z (xs ++ ys)) h in
      let (t1, first, second) = add_rows-append (add_row heap t x).0 t' xs ys later in
      (t1, or_stop-go (add_row heap t x) (λ z. add_rows heap z xs) accepted first, second)
    where
      or_stop-go :
          (p : Tracker × Option TrackerError) (next : Tracker → Tracker × Option TrackerError)
          {r : Tracker × Option TrackerError}
          → p.1 ≡ none
          → next p.0 ≡ r
          → or_stop p next ≡ r
      or_stop-go (z, none) next e n = n
      or_stop-go (z, some f) next e n = cc

  -- a tracker within its limit asks for one row more than are left, at most
  fetch_size-pos :
      (t : Tracker)
      → HasRoom t
      → fetch_size t ≡ pos (min 1000 (suc (t.limits.max_procedure_rows - t.materialized_rows)))
  unfolding fetch_size remaining_rows
  fetch_size-pos t room = ground arith

abbrev pub Ends {ℓ} : {A : Type ℓ} → List PortalEvent × Result MaterializeError A → Type ℓ
Ends x = x.1 ≢ err out_of_fuel

not_fewer : (n m : ℕ) (size : ℤ) → size ≡ pos (min 1000 (suc m)) → fewer_than n size ≡ false → 1 ≤ n
not_fewer n m size e h = ground arith

module _ (heap : Heap) (server : Server) where
  after_fetch-Ends :
      (t : Tracker) (rows : List Value) (answer : Result Fault (List Value))
      (next : Tracker
        → List Value
        → List PortalEvent × Result MaterializeError (Tracker × List Value))
      → HasRoom t
      → ((t' : Tracker) (rows' : List Value)
          → HasRoom t'
          → t'.limits ≡ t.limits
          → t.materialized_rows < t'.materialized_rows
          → Ends (next t' rows'))
      → Ends (after_fetch heap t rows answer next)
  unfolding after_fetch after_rows
  after_fetch-Ends t rows (err f) next room later = λ e. cc
  after_fetch-Ends t rows (ok batch) next room later =
      elim (Option-cases (add_rows heap t batch).1) [
        | inr (fault, e) ↦
            subst
              (λ p. Ends (
                after_rows (fewer_than (length batch) (fetch_size t)) (rows ++ batch) p
                  (λ t'. next t' (rows ++ batch))))
              (sym (ap (λ o. ((add_rows heap t batch).0, o)) e)) (λ h. cc)
        | inl e ↦
            let accepted : add_rows heap t batch ≡ ((add_rows heap t batch).0, none) =
              ap (λ o. ((add_rows heap t batch).0, o)) e in
            let (more, same, fits) =
              add_rows-counts heap t (add_rows heap t batch).0 batch accepted in
            subst
              (λ p. Ends (
                after_rows (fewer_than (length batch) (fetch_size t)) (rows ++ batch) p
                  (λ t'. next t' (rows ++ batch))))
              (sym accepted)
              (elim (Bool-cases (fewer_than (length batch) (fetch_size t))) [
                | inl yes' ↦ rw yes' (λ h. cc)
                | inr no' ↦
                    let some' =
                      not_fewer (length batch) (t.limits.max_procedure_rows - t.materialized_rows)
                        (fetch_size t) (fetch_size-pos heap t room) no' in
                    rw no' (
                      later (add_rows heap t batch).0 (rows ++ batch) (fits room) same
                        (omega (arith, more, some')))
              ])
      ]

  fetch_rows-Ends :
      (fuel : ℕ) (portal : Text) (t : Tracker) (rows : List Value)
      → HasRoom t
      → t.limits.max_procedure_rows < t.materialized_rows + fuel
      → Ends (fetch_rows heap server fuel portal t rows)
  unfolding fetch_rows
  fetch_rows-Ends zero portal t rows room enough = absurd (omega arith)
  fetch_rows-Ends (suc fuel) portal t rows room enough =
      (after_fetch-Ends t rows (server.fetch portal rows (fetch_size t)) _ room
        (λ t' rows' room' same more.
          fetch_rows-Ends fuel portal t' rows' room'
            (omega (arith, more, ap (λ l. l.max_procedure_rows) same))))

  closed_result-Ends :
      (r : Result MaterializeError (Tracker × List Value)) (close : Result Fault (Unit {0}))
      → r ≢ err out_of_fuel
      → closed_result r close ≢ err out_of_fuel
  unfolding closed_result
  closed_result-Ends (err e) close h = h
  closed_result-Ends (ok a) (err f) h = λ e. cc
  closed_result-Ends (ok a) (ok u) h = λ e. cc

  -- Whatever the server answers, and however many rows it gives, the loop over a portal ends, if the rows
  -- counted before are within the limit.
  pub fetch_and_close_portal-Ends :
      (portal : Text) (t : Tracker)
      → t.materialized_rows ≤ t.limits.max_procedure_rows
      → Ends (fetch_and_close_portal heap server portal t)
  unfolding fetch_and_close_portal closed_result
  fetch_and_close_portal-Ends portal t room =
      closed_result-Ends _ (server.close portal)
        (fetch_rows-Ends (fetch_fuel t) portal t [] room (omega arith))

drop-append : (rows rest : List Value) → drop (length rows) (rows ++ rest) ≡ rest
drop-append [] rest = refl
drop-append (r ∷ rows) rest = drop-append rows rest

take-short : (k : ℕ) (xs : List Value) → length (take k xs) < k → take k xs ≡ xs
take-short zero xs h = absurd (omega arith)
take-short (suc k) [] h = refl
take-short (suc k) (x ∷ xs) h = ap (λ ys. x ∷ ys) (take-short k xs (omega arith))

fewer-lt : (n k : ℕ) (size : ℤ) → size ≡ pos k → fewer_than n size ≡ true → n < k
fewer-lt n k size e h = ground arith

module _ (heap : Heap) (server : Server) where
  after_fetch-ok :
      (t t1 : Tracker) (rows batch : List Value) (b : Bool)
      (next : Tracker
        → List Value
        → List PortalEvent × Result MaterializeError (Tracker × List Value))
      → add_rows heap t batch ≡ (t1, none)
      → fewer_than (length batch) (fetch_size t) ≡ b
      → after_fetch heap t rows (ok batch) next
        ≡ or_next b (t1, rows ++ batch) (next t1 (rows ++ batch))
  unfolding after_fetch after_rows
  after_fetch-ok t t1 rows batch b next added fewer = rw (added, fewer) refl

  module _ (portal : Text) (contents : List Value)
      (cursor : (rows : List Value) (k : ℕ)
        → server.fetch portal rows (pos k) ≡ ok (take k (drop (length rows) contents))) where
    fetch_rows-contents :
        (fuel : ℕ) (t t' : Tracker) (rows rest : List Value)
        → HasRoom t
        → t.limits.max_procedure_rows < t.materialized_rows + fuel
        → rows ++ rest ≡ contents
        → add_rows heap t rest ≡ (t', none)
        → (fetch_rows heap server fuel portal t rows).1 ≡ ok (t', contents)
    unfolding fetch_rows
    fetch_rows-contents zero t t' rows rest room enough split' added = absurd (omega arith)
    fetch_rows-contents (suc fuel) t t' rows rest room enough split' added =
        let k = min 1000 (suc (t.limits.max_procedure_rows - t.materialized_rows)) in
        let size = fetch_size-pos heap t room in
        let batch = take k rest in
        let next : Tracker
            → List Value
            → List PortalEvent × Result MaterializeError (Tracker × List Value) =
          λ x ys. fetch_rows heap server fuel portal x ys in
        let answer : server.fetch portal rows (fetch_size t) ≡ ok batch =
          ap (server.fetch portal rows) size
          ∙ cursor rows k
          ∙ ap (λ xs. ok (take k xs))
              (ap (drop (length rows)) (sym split') ∙ drop-append rows rest) in
        let (t1, first, second) =
          add_rows-append heap t t' batch (drop k rest)
            (ap (add_rows heap t) (take-append-drop k rest) ∙ added) in
        let (more, same, fits) = add_rows-counts heap t t1 batch first in
        ap (λ a. (after_fetch heap t rows a next).1) answer
        ∙ elim (Bool-cases (fewer_than (length batch) (fetch_size t))) [
          | inl yes' ↦
              let whole : batch ≡ rest =
                take-short k rest (fewer-lt (length batch) k (fetch_size t) size yes') in
              let same-tracker : t1 ≡ t' =
                ap (λ p. p.0) (sym first ∙ ap (add_rows heap t) whole ∙ added) in
              ap (λ x. x.1) (after_fetch-ok t t1 rows batch true next first yes')
              ∙ ap (λ x. ok (x, rows ++ batch)) same-tracker
              ∙ ap (λ ys. ok (t', rows ++ ys)) whole
              ∙ ap (λ ys. ok (t', ys)) split'
          | inr no' ↦
              let some' =
                not_fewer (length batch) (t.limits.max_procedure_rows - t.materialized_rows)
                  (fetch_size t) size no' in
              ap (λ x. x.1) (after_fetch-ok t t1 rows batch false next first no')
              ∙ fetch_rows-contents fuel t1 t' (rows ++ batch) (drop k rest) (fits room)
                  (omega (arith, more, some', ap (λ l. l.max_procedure_rows) same))
                  (append_assoc rows batch (drop k rest)
                    ∙ ap (λ xs. rows ++ xs) (take-append-drop k rest)
                    ∙ split')
                  second
        ]

    -- If the server reads the portal as a cursor over `contents` and all these rows are accepted, they are
    -- what is returned, in their order, however many batches it takes, if the close succeeds.
    pub fetch_and_close_portal-contents :
        (t t' : Tracker)
        → t.materialized_rows ≤ t.limits.max_procedure_rows
        → add_rows heap t contents ≡ (t', none)
        → server.close portal ≡ ok tt
        → (fetch_and_close_portal heap server portal t).1 ≡ ok (t', contents)
    unfolding fetch_and_close_portal closed_result
    fetch_and_close_portal-contents t t' room added close =
        ap (λ r. closed_result r (server.close portal))
          (fetch_rows-contents (fetch_fuel t) t t' [] contents room (omega arith) refl added)
        ∙ ap (closed_result (ok (t', contents))) close
