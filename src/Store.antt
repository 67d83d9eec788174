-- ===== src/Store.antt =====
-- The Postgres database as the queries of the repositories see it, and the transactions of
-- shared/db/client.go. The driver (pgx) is not under the repository: which of its calls fail is a
-- parameter (`Faults`), and a transaction that does not commit leaves the database as it was.
use wallet_app.Base.{
  String, Bool, true, false, Option, none, some, List, ◌≡◌, refl, ◌⊎◌, inl, inr, arith, Bool-cases,
}
use wallet_app.Models.{AccountModel, TransactionRow, OutboxModel, UserModel, UserAuthModel}
use wallet_app.Errors.{Error, Result, ok, err, db_error}

pub record Db : Type 0 where
  pub users : List UserModel
  pub user_auth : List UserAuthModel
  pub accounts : List AccountModel
  pub transactions : List TransactionRow
  pub outbox : List OutboxModel

-- The calls of the driver that one repository method makes.
pub data Call : Type 0 where
  begin commit : Call
  flip_status read_row insert_row update_row select_rows : Call
  lock_account sum_ledger write_balance : String → Call
  reclaim_rows claim_rows : Call

abbrev pub Faults : Type 0
Faults = Call → Bool

abbrev pub no_faults : Faults
no_faults _ = false

-- Statements of a transaction: an error drops what the statements before it wrote.
abbrev pub Tx : Type 0 → Type 0
Tx A = Db → Result (A × Db)

abbrev pub pure : {A : Type 0} → A → Tx A
pure a db = ok (a, db)

abbrev pub raise : {A : Type 0} → Error → Tx A
raise e db = err e

infixl 5 ◌>>=◌ ◌>>◌
abbrev pub ◌>>=◌ : {A B : Type 0} → Tx A → (A → Tx B) → Tx B
◌>>=◌ m f db = elim (m db) [ ok (a, db') ↦ f a db' | err e ↦ err e ]

abbrev pub ◌>>◌ : {B : Type 0} → Tx (Unit {0}) → Tx B → Tx B
m >> k = m >>= λ _. k

abbrev pub guard : Bool → Error → Tx (Unit {0})
guard true e db = ok (tt, db)
guard false e db = err e

abbrev pub raise_if : Bool → Error → Tx (Unit {0})
raise_if true e db = err e
raise_if false e db = ok (tt, db)

abbrev pub gets : {A : Type 0} → (Db → A) → Tx A
gets f db = ok (f db, db)

abbrev pub modify : (Db → Db) → Tx (Unit {0})
modify f db = ok (tt, f db)

-- A driver call that may fail.
abbrev pub try_call : Faults → Call → Tx (Unit {0})
try_call fails c = raise_if (fails c) db_error

abbrev pub or_raise : {A : Type 0} → Option A → Error → Tx A
or_raise none e db = err e
or_raise (some a) e db = ok (a, db)

-- What a method on the database leaves: the result, and the database after it.
abbrev pub settle : {A : Type 0} → Db → Result (A × Db) → Result A × Db
settle db (ok (a, db')) = (ok a, db')
settle db (err e) = (err e, db)

-- `WithTransaction`, and the same lifecycle where a method writes it out: begin, run, commit, with
-- the deferred rollback on every error.
unfoldable pub transact : {A : Type 0} → Faults → Tx A → Db → Result A × Db
transact fails body db =
    settle db ((do try_call fails begin; a ← body; try_call fails commit; pure a) db)

-- One statement outside a transaction (`Pool.Exec`, `Pool.QueryRow`) is atomic by itself.
unfoldable pub autocommit : {A : Type 0} → Tx A → Db → Result A × Db
autocommit body db = settle db (body db)

pub Result-cases {ℓ} :
    {A : Type ℓ} (r : Result A) → ((a : A) × (r ≡ ok a)) ⊎ ((e : Error) × (r ≡ err e))
Result-cases (ok a) = inl (a, refl)
Result-cases (err e) = inr (e, refl)

-- A successful sequence has run both of its parts.
pub >>=-ok :
    {A B : Type 0} (m : Tx A) (f : A → Tx B) (db : Db) {b : B} {db'' : Db}
    → (m >>= f) db ≡ ok (b, db'')
    → (a : A) × (db' : Db) × (m db ≡ ok (a, db')) × (f a db' ≡ ok (b, db''))
>>=-ok m f db h = elim (Result-cases (m db)) [
  | inl ((a, db'), e) ↦ (a, db', e, rw (e, ◌>>=◌) at h)
  | inr (e, p) ↦ absurd (cc (rw (p, ◌>>=◌) at h))
]

-- A transaction returns an error and leaves the database alone, or its body has run to the end.
pub transact-cases :
    {A : Type 0} (fails : Faults) (body : Tx A) (db : Db)
    → ((e : Error) × (transact fails body db ≡ (err e, db)))
      ⊎ ((a : A) × (db' : Db) × (body db ≡ ok (a, db')) × (transact fails body db ≡ (ok a, db')))
unfolding transact
transact-cases fails body db = elim (Result-cases (body db)) [
  | inl ((a, db'), e) ↦ elim (Bool-cases (fails begin)) [
    | inl b ↦ inl (db_error, ground arith)
    | inr b ↦ elim (Bool-cases (fails commit)) [
      | inl c ↦ inl (db_error, ground arith)
      | inr c ↦ inr (a, db', e, ground arith)
    ]
  ]
  | inr (e, p) ↦ elim (Bool-cases (fails begin)) [
    | inl b ↦ inl (db_error, ground arith)
    | inr b ↦ inl (e, ground arith)
  ]
]
