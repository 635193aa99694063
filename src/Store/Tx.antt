-- ===== src/Store/Tx.antt =====
-- Transactions: a Go function over `tx pgx.Tx` is a function from the database to an error, or to
-- a result and the database that it leaves (apps/server/internal/store/postgres/postgres.go).
use agent_board.Prelude.{Bool, true, false, Option, none, some}
use agent_board.Store.Types.{Db}

-- store.ErrInvalidArgument, ErrNotFound, ErrConflict and ErrLastProjectAdmin; `database_error` is an
-- error of the driver passed on as it is.
pub data Error : Type 0 where
  invalid_argument not_found conflict database_error last_project_admin : Error

pub data Result {ℓ} (A : Type ℓ) : Type ℓ where
  ok : A → Result A
  err : Error → Result A

-- A transaction on a database of the type `S`.
abbrev pub TxOn : Type 0 → Type 0 → Type 0
TxOn S A = S → Result (A × S)

-- A transaction on the rows of `Store.Types`.
abbrev pub Tx : Type 0 → Type 0
Tx A = TxOn Db A

unfoldable pub pure : {S A : Type 0} → A → TxOn S A
pure a db = ok (a, db)

unfoldable pub fail : {S A : Type 0} → Error → TxOn S A
fail e db = err e

infixl 5 ◌>>=◌ ◌>>◌
unfoldable pub ◌>>=◌ : {S A B : Type 0} → TxOn S A → (A → TxOn S B) → TxOn S B
◌>>=◌ m f db = elim (m db) [ err e ↦ err e | ok (a, db') ↦ f a db' ]

unfoldable pub ◌>>◌ : {S A B : Type 0} → TxOn S A → TxOn S B → TxOn S B
unfolding ◌>>=◌
m >> k = m >>= λ _. k

-- A query's result.
unfoldable pub gets : {S A : Type 0} → (S → A) → TxOn S A
gets f db = ok (f db, db)

-- A statement with no RETURNING.
unfoldable pub modify : {S : Type 0} → (S → S) → TxOn S (Unit {0})
modify f db = ok (tt, f db)

-- `notFound(err)`: a row that is not there is ErrNotFound.
unfoldable pub found : {S A : Type 0} → Option A → TxOn S A
unfolding pure fail
found none = fail not_found
found (some a) = pure a

-- The same with the driver's error passed on as it is.
unfoldable pub scanned : {S A : Type 0} → Option A → TxOn S A
unfolding pure fail
scanned none = fail database_error
scanned (some a) = pure a

unfoldable pub guard : {S : Type 0} → Bool → Error → TxOn S (Unit {0})
unfolding pure fail
guard true e = pure tt
guard false e = fail e

-- Begin, the body, and commit. On an error the deferred Rollback leaves the database as it was.
unfoldable pub transact : {S A : Type 0} → TxOn S A → S → Result A × S
transact m db = elim (m db) [ err e ↦ (err e, db) | ok (a, db') ↦ (ok a, db') ]
