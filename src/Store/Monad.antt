-- ===== src/Store/Monad.antt =====
-- A statement on the pool: it reads and changes the store, and may fail. `sqlx::Error` is cut down
-- to the cases that the code meets.
use goblin_pay.Prelude.{ℕ, Bool, Option, none, some, List, [], ◌∷◌, if◌then◌else◌}
use goblin_pay.Store.Tables.{Store}

pub data SqlError : Type 0 where
  database constraint row_not_found : SqlError

pub data Result (A : Type 0) : Type 0 where
  ok : A → Result A
  err : SqlError → Result A

abbrev pub Action : Type 0 → Type 0
Action A = Store → Result A × Store

-- What follows a statement: the rest, or the error at once (`?`).
abbrev pub after : {A B : Type 0} → Result A → (A → Action B) → Action B
after (ok a) f s = f a s
after (err e) f s = (err e, s)

infixl 5 ◌>>=◌ ◌>>◌
unfoldable pub ◌>>=◌ : {A B : Type 0} → Action A → (A → Action B) → Action B
◌>>=◌ m f s = after (m s).0 f (m s).1

abbrev pub ◌>>◌ : {A B : Type 0} → Action A → Action B → Action B
m >> k = m >>= λ _. k

module _ {A : Type 0} where
  unfoldable pub pure : A → Action A
  pure a s = (ok a, s)

  unfoldable pub throw : SqlError → Action A
  throw e s = (err e, s)

  -- `.ok_or(e)?`
  unfoldable pub ok_or : Option A → SqlError → Action A
  ok_or none e s = (err e, s)
  ok_or (some a) e s = (ok a, s)

  unfoldable pub with_faults : List Bool → (Store → Result A × Store) → Action A
  with_faults [] f s = f s
  with_faults (b ∷ bs) f s =
      if b then (err database, record s { faults = bs }) else f (record s { faults = bs })

  -- One statement: it fails by the next fault, or runs.
  unfoldable pub statement : (Store → Result A × Store) → Action A
  unfolding with_faults
  statement f s = with_faults s.faults f s

  -- A `SELECT`
  unfoldable pub query : (Store → A) → Action A
  query f = statement (λ s. (ok (f s), s))

  -- `match m { Ok(a) => …, Err(e) => … }`: the error is a value.
  unfoldable pub attempt : Action A → Action (Result A)
  attempt m s = (ok (m s).0, (m s).1)

-- The system clock, which is no statement.
unfoldable pub read_clock : Action ℕ
read_clock s = (ok s.clock, s)

-- An `UPDATE` or `DELETE`, or an `INSERT` that meets no constraint; its number of rows is not read.
unfoldable pub execute : (Store → Store) → Action (Unit {0})
execute f = statement (λ s. (ok tt, f s))

-- To unfold this is to unfold the monad.
unfoldable pub monad : Unit {0}
unfolding ◌>>=◌ pure throw ok_or with_faults statement query attempt execute read_clock
monad = tt
