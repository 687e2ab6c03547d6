-- ===== src/Sql/Laws.antt =====
-- What a statement and a transaction do to the tables.
use senior_project.Common.{⊤, ◌≡◌, refl, true, String, Option, none, some, List, [], ◌∷◌}
use senior_project.Errors.{Error, Result, ok, err, is_ok}
use senior_project.Tables.{Database}
use senior_project.Sql.{
  Session, Action, calm, next_fault, statement, commit, finish_tx, run_tx, with_tx,
}

next_fault-db : (fs : List (Option String)) (db : Database) → (next_fault fs db).1.db ≡ db
unfolding next_fault
next_fault-db [] db = refl
next_fault-db (none ∷ fs) db = refl
next_fault-db (some text ∷ fs) db = refl

-- A statement by itself writes nothing.
pub statement-db : (s : Session) → (statement s).1.db ≡ s.db
unfolding statement
statement-db s = next_fault-db s.faults s.db

module _ {A : Type 0} where
  commit_rule {ℓ} :
      (P : Result A → Database → Type ℓ) (before : Database) (a : A) (s : Session)
      → ((e : Error) → P (err e) before)
      → P (ok a) s.db
      → (x : Result ⊤ × Session) → x.1.db ≡ s.db
      → P (commit before a x).0 (commit before a x).1.db
  unfolding commit
  commit_rule P before a s failed done (ok _, s') e = rw e done
  commit_rule P before a s failed done (err x, s') e = failed x

  finish_tx_rule {ℓ} :
      (P : Result A → Database → Type ℓ) (before : Database) (x : Result A × Session)
      → ((e : Error) → P (err e) before)
      → (is_ok x.0 ≡ true → P x.0 x.1.db)
      → P (finish_tx before x).0 (finish_tx before x).1.db
  unfolding finish_tx
  finish_tx_rule P before (ok a, s) failed done =
      commit_rule P before a s failed (done refl) (statement s) (statement-db s)
  finish_tx_rule P before (err e, s) failed done = failed e

  run_tx_rule {ℓ} :
      (P : Result A → Database → Type ℓ) (body : Action A) (db : Database)
      → ((e : Error) → P (err e) db)
      → ((begun : Session)
          → begun.db ≡ db
          → is_ok (body begun).0 ≡ true
          → P (body begun).0 (body begun).1.db)
      → (x : Result ⊤ × Session) → x.1.db ≡ db
      → P (run_tx body x).0 (run_tx body x).1.db
  unfolding run_tx
  run_tx_rule P body db failed done (ok _, s) e =
      finish_tx_rule P s.db (body s) (λ x. rw e (failed x)) (λ h. done s e h)
  run_tx_rule P body db failed done (err x, s) e = rw e (failed x)

  -- After a transaction either nothing is written, or its body came to its end and what the body
  -- wrote is there.
  pub with_tx_rule {ℓ} :
      (P : Result A → Database → Type ℓ) (body : Action A) (s : Session)
      → ((e : Error) → P (err e) s.db)
      → ((begun : Session)
          → begun.db ≡ s.db
          → is_ok (body begun).0 ≡ true
          → P (body begun).0 (body begun).1.db)
      → P (with_tx body s).0 (with_tx body s).1.db
  unfolding with_tx
  with_tx_rule P body s failed done =
      run_tx_rule P body s.db failed done (statement s) (statement-db s)

-- Where no statement is to fail, a statement does nothing but take its turn.
pub statement-calm : (db : Database) → statement (calm db) ≡ (ok tt, calm db)
unfolding statement next_fault
statement-calm db = refl

module _ {A : Type 0} (body : Action A) (db : Database) where
  -- A transaction without faults is its body, undone where that ends in an error.
  pub with_tx-calm :
      (a : A) (after : Database)
      → body (calm db) ≡ (ok a, calm after)
      → with_tx body (calm db) ≡ (ok a, calm after)
  unfolding with_tx run_tx finish_tx commit statement next_fault
  with_tx-calm a after h = rw (h, finish_tx)

  pub with_tx-calm_err :
      (e : Error) (after : Database)
      → body (calm db) ≡ (err e, calm after)
      → with_tx body (calm db) ≡ (err e, calm db)
  unfolding with_tx run_tx finish_tx statement next_fault
  with_tx-calm_err e after h = rw (h, finish_tx)
