-- ===== src/Repository/Inversion.antt =====
-- What the transaction methods of the wallet repository have done when they return without error.
use wallet_app.Base.{
  ℕ, ◌≡◌, refl, ◌⊎◌, inl, inr, ◌≢◌, String, arith, pos, ◌≤ℤ◌, count_where, find_where,
  count_where-update, some, eqb, Bool-cases, if◌then◌else◌,
}
use mathlib.Core.Option
use wallet_app.Models.{TransactionModel}
use wallet_app.Errors.{Error, ok}
use wallet_app.Store.{Db, Faults, Tx, pure, >>=-ok}
use wallet_app.Ledger.{
  ledger_balance, has_id, store_balance, reconcile_balance, is_pending_row, complete_rows,
}
use wallet_app.Ledger.Balance.{reconcile_balance-cases}
use wallet_app.Repository.{
  has_transaction_id, flip_pending, read_transaction, reconcile_one, reconcile_two, complete_then,
}

flip_pending-ok :
    (now : ℕ) (fails : Faults) (id : String) (db : Db) {n : ℕ} {db' : Db}
    → flip_pending now fails id db ≡ ok (n, db')
    → (n ≡ count_where (is_pending_row id) db.transactions) × (db' ≡ complete_rows now id db)
unfolding flip_pending
flip_pending-ok now fails id db h = ground arith

-- The row that a method returns is the stored one.
read_transaction-ok :
    (fails : Faults) (id : String) (db : Db) {m : TransactionModel} {db' : Db}
    → read_transaction fails id db ≡ ok (m, db')
    → (db' ≡ db)
      × (Option.map (λ r. r.model) (find_where (has_transaction_id id) db.transactions) ≡ some m)
unfolding read_transaction
read_transaction-ok fails id db h = ground arith

-- Writing balances adds and removes no account.
pub count-store_balance :
    (now : ℕ) (account other : String) (db : Db)
    → count_where (has_id other) (store_balance now account db).accounts
      ≡ count_where (has_id other) db.accounts
count-store_balance now account other db =
    count_where-update (has_id account) (has_id other) _ (λ a e. refl) db.accounts

-- An account that the ledger gives a balance that is not negative, and that has its one row.
abbrev pub IsFunded : String → Db → Type 0
IsFunded account db =
    (pos 0 ≤ℤ ledger_balance account db.transactions)
    × (count_where (has_id account) db.accounts ≡ 1)

-- One account reconciled: its balance is the ledger's, which is not negative.
pub reconcile_one-ok :
    (now : ℕ) (fails : Faults) (account : String) (e : Error) (db : Db) {db' : Db}
    → reconcile_one now fails account e db ≡ ok (tt, db')
    → (db' ≡ store_balance now account db) × IsFunded account db
unfolding reconcile_one
reconcile_one-ok now fails account e db h =
    let (n, mid, ran, rest) = >>=-ok (reconcile_balance now fails account) _ db h in
    ground (
      arith,
      reconcile_balance-cases now fails account db ran,
      count-store_balance now account account db,
    )

pub reconcile_two-ok :
    (now : ℕ) (fails : Faults) (first second : String) (db : Db) {db' : Db}
    → reconcile_two now fails first second db ≡ ok (tt, db')
    → (db' ≡ store_balance now second (store_balance now first db))
      × IsFunded first db
      × IsFunded second db
unfolding reconcile_two
reconcile_two-ok now fails first second db h =
    let (_, mid, ran, rest) = >>=-ok (reconcile_one now fails first _) _ db h in
    ground (
      arith,
      reconcile_one-ok now fails first _ db ran,
      reconcile_one-ok now fails second _ mid rest,
      count-store_balance now first second db,
    )

flip_outcome :
    (now n : ℕ) (id : String) (reconcile : Tx (Unit {0})) (db : Db) {mid last db' : Db}
    → n ≡ count_where (is_pending_row id) db.transactions
    → mid ≡ complete_rows now id db
    → db' ≡ last
    → (if eqb n 1 then reconcile else pure tt) mid ≡ ok (tt, last)
    → ((count_where (is_pending_row id) db.transactions ≢ 1) × (db' ≡ complete_rows now id db))
      ⊎ ((count_where (is_pending_row id) db.transactions ≡ 1)
          × (reconcile (complete_rows now id db) ≡ ok (tt, db')))
flip_outcome now n id reconcile db flipped same kept ran = elim (Bool-cases (eqb n 1)) [
  | inl one ↦ inr (ground arith, (rw same at (rw (← kept) at (rw one at ran))))
  | inr other ↦ inl (ground arith, ground arith)
]

-- A body that returns has found no single pending row, or has completed it and reconciled.
pub complete_then-ok :
    (now : ℕ) (fails : Faults) (id : String) (reconcile : Tx (Unit {0})) (db : Db)
    {m : TransactionModel} {db' : Db}
    → complete_then now fails id reconcile db ≡ ok (m, db')
    → (Option.map (λ r. r.model) (find_where (has_transaction_id id) db'.transactions) ≡ some m)
      × (((count_where (is_pending_row id) db.transactions ≢ 1) × (db' ≡ complete_rows now id db))
          ⊎ ((count_where (is_pending_row id) db.transactions ≡ 1)
              × (reconcile (complete_rows now id db) ≡ ok (tt, db'))))
unfolding complete_then
complete_then-ok now fails id reconcile db {m} {db'} h =
    let (n, mid, ran, rest) = >>=-ok (flip_pending now fails id) _ db h in
    let (flipped, same) = flip_pending-ok now fails id db ran in
    let (_, last, reconciled, read) = >>=-ok (if eqb n 1 then reconcile else pure tt) _ mid rest in
    let (kept, found) = read_transaction-ok fails id last read in
    (rw kept found, flip_outcome now n id reconcile db flipped same kept reconciled)
