-- ===== src/Sql.antt =====
-- How the repositories talk to Postgres (internal/infra/db/postgres.go). A method is a function of
-- the session: it returns its result and the session after it. What a statement wrote stays written
-- when a later one fails, until the transaction around them is rolled back.
pub mod Laws
use senior_project.Common.{⊤, ℕ, String, Bool, if◌then◌else◌, Option, none, some, List, [], ◌∷◌}
use senior_project.Errors.{Error, driver, Result, ok, err}
use senior_project.Tables.{Database}

-- `faults` has an entry for each statement to come: `some text` makes it fail with that error
-- (a lost connection, a timeout, a cancelled context), `none` lets it run, and past the end of the
-- list every statement runs. Begin and Commit are statements too.
pub record Session : Type 0 where
  pub db : Database
  pub faults : List (Option String)

-- A session in which no statement is to fail.
abbrev pub calm : Database → Session
calm db = record { db = db; faults = [] }

abbrev pub Action : Type 0 → Type 0
Action A = Session → Result A × Session

module _ {A : Type 0} where
  abbrev pub pure : A → Action A
  pure a s = (ok a, s)

  abbrev pub raise : Error → Action A
  raise e s = (err e, s)

  -- What a query reads.
  abbrev pub reading : (Database → A) → Action A
  reading f s = (ok (f s.db), s)

  -- A missing row is the sentinel that the method maps `pgx.ErrNoRows` to.
  abbrev pub or_raise : Option A → Error → Action A
  or_raise none e = raise e
  or_raise (some a) e = pure a

infixl 5 ◌>>=◌ ◌>>◌
abbrev pub ◌>>=◌ : {A B : Type 0} → Action A → (A → Action B) → Action B
◌>>=◌ m f s = let (r, s') = m s in elim r [ ok a ↦ f a s' | err e ↦ (err e, s') ]

abbrev pub ◌>>◌ : {B : Type 0} → Action ⊤ → Action B → Action B
m >> k = m >>= λ _. k

abbrev pub raise_if : Bool → Error → Action ⊤
raise_if c e s = (if c then err e else ok tt, s)

abbrev pub writing : (Database → Database) → Action ⊤
writing f s = (ok tt, record s { db = f s.db })

-- One round trip to the server: it takes the first entry of `faults`.
unfoldable pub next_fault : List (Option String) → Database → Result ⊤ × Session
next_fault [] db = (ok tt, record { db = db; faults = [] })
next_fault (none ∷ fs) db = (ok tt, record { db = db; faults = fs })
next_fault (some text ∷ fs) db = (err (driver text), record { db = db; faults = fs })

unfoldable pub statement : Action ⊤
unfolding next_fault
statement s = next_fault s.faults s.db

-- Commit. An error of it is taken as the server's answer that the transaction was rolled back; a
-- connection that is lost while Commit runs, after which nobody knows the outcome, is not modelled.
unfoldable pub commit : {A : Type 0} → Database → A → Result ⊤ × Session → Result A × Session
commit before a (ok _, s) = (ok a, s)
commit before a (err e, s) = (err e, record s { db = before })

-- The end of a transaction that began at `before`: Commit on success, Rollback on an error.
unfoldable pub finish_tx : {A : Type 0} → Database → Result A × Session → Result A × Session
unfolding commit
finish_tx before (ok a, s) = commit before a (statement s)
finish_tx before (err e, s) = (err e, record s { db = before })

-- What follows Begin.
unfoldable pub run_tx : {A : Type 0} → Action A → Result ⊤ × Session → Result A × Session
unfolding finish_tx
run_tx body (ok _, s) = finish_tx s.db (body s)
run_tx body (err e, s) = (err e, s)

-- `WithTx`; the methods that call Begin, a deferred Rollback and Commit themselves have this shape.
unfoldable pub with_tx : {A : Type 0} → Action A → Action A
unfolding run_tx
with_tx body s = run_tx body (statement s)
