-- ===== src/Http.antt =====
-- Request handlers: a database session (app/db.py, app/dependencies.py `get_db`) and HTTP errors.
-- A session works on its own copy of the tables, which `commit` makes permanent and `rollback`
-- throws away. A handler that raises, or that returns without a commit, leaves only what it had
-- committed.
pub mod Ends
use secure_messenger.Prelude.{ℕ, Bool, true, false, Option, none, some}
use secure_messenger.Model.{Db}

pub data Error : Type 0 where
  -- HTTPException(status_code)
  status : ℕ → Error
  -- any other Python exception; FastAPI answers 500
  crash : Error

pub data Result {ℓ} (A : Type ℓ) : Type ℓ where
  ok : A → Result A
  err : Error → Result A

pub record Session : Type 0 where
  pub committed : Db
  pub working : Db

abbrev pub Action : Type 0 → Type 0
Action A = Session → Result A × Session

module _ {A : Type 0} where
  pub pure : A → Action A
  pure a s = (ok a, s)

  pub raise : Error → Action A
  raise e s = (err e, s)

  -- A query.
  pub gets : (Db → A) → Action A
  gets f s = (ok (f s.working), s)

  -- A computation on the rows that may raise and writes nothing.
  pub query : (Db → Result A) → Action A
  query f s = (f s.working, s)

  pub or_raise : Option A → ℕ → Action A
  or_raise none e s = (err (status e), s)
  or_raise (some a) e s = (ok a, s)

-- `if b: m else: n` on statements.
pub branch : {A : Type 0} → Bool → Action A → Action A → Action A
branch true m n = m
branch false m n = n

pub raise_if : Bool → ℕ → Action Unit
raise_if true e s = (err (status e), s)
raise_if false e s = (ok tt, s)

-- session.add, session.delete, an assignment to a loaded row, session.execute
pub modify : (Db → Db) → Action Unit
modify f s = (ok tt, record s { working = f s.working })

pub commit : Action Unit
commit s = (ok tt, record { committed = s.working; working = s.working })

pub rollback : Action Unit
rollback s = (ok tt, record { committed = s.committed; working = s.committed })

-- Other sessions' commits, which become visible at this point.
pub interleave : (Db → Db) → Action Unit
interleave others s = (ok tt, record { committed = others s.committed; working = others s.working })

pub continue : {A B : Type 0} → Result A → (A → Action B) → Action B
continue (ok a) f s = f a s
continue (err e) f s = (err e, s)

infixl 5 ◌>>=◌ ◌>>◌
-- Opening this opens the actions above too.
unfoldable pub ◌>>=◌ : {A B : Type 0} → Action A → (A → Action B) → Action B
unfolding continue pure raise gets query or_raise branch raise_if modify commit rollback interleave
◌>>=◌ m f s = let (r, s') = m s in continue r f s'

abbrev pub ◌>>◌ : {B : Type 0} → Action Unit → Action B → Action B
m >> k = m >>= λ _. k

-- An `if` with no `else`.
abbrev pub when : Bool → Action Unit → Action Unit
when b m = branch b m (pure tt)

-- One request: `get_db` opens a session, runs the handler and drops what was not committed.
unfoldable pub handle : {A : Type 0} → Action A → Db → Result A × Db
unfolding ◌>>=◌
handle m db = let (r, s) = m (record { committed = db; working = db }) in (r, s.committed)
