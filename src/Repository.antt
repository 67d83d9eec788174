-- ===== src/Repository.antt =====
-- The transaction methods of wallet-service/internal/repository/wallet_repository.go. Each owns one
-- database transaction: it commits, or it returns an error and leaves the database as it was.
pub mod Inversion
pub mod Invariant
pub mod Keeps
pub mod Pending
pub mod Movement
pub mod Success
use wallet_app.Base.{
  ℕ, String, Bool, true, false, not, ◌&&◌, ◌||◌, List, [], ◌∷◌, ◌++◌, ◌==◌, ℤ, pos, leb_ℤ, eqb,
  Option, none, some, count_where, find_where, update_where, ltb_text, if◌then◌else◌,
}
use wallet_app.Models.{
  AccountModel, TransactionModel, TransactionRow, TransactionType, TransactionStatus, transfer,
}
use wallet_app.Errors.{
  Error, Result, ok, err, no_rows, foreign_key_violation, check_violation, amount_not_positive,
  first_account_rejected, second_account_rejected, account_not_found, insufficient_balance,
  no_transaction,
}
use wallet_app.Store.{
  Db, Faults, Tx, pure, raise, raise_if, guard, gets, modify, or_raise, try_call, transact, begin,
  commit, flip_status, read_row, insert_row, update_row, lock_account, ◌>>=◌, ◌>>◌,
}
use wallet_app.Ledger.{has_id, reconcile_balance, is_pending_row, complete_rows}

abbrev pub has_transaction_id : String → TransactionRow → Bool
has_transaction_id id r = r.id == id

-- The first and the last of two account ids, in the order in which they are locked.
unfoldable pub lock_order : String → String → String × String
lock_order from to = if ltb_text to from then (to, from) else (from, to)

-- The UPDATE that completes a pending row: the number of rows that it changed.
unfoldable pub flip_pending : ℕ → Faults → String → Tx ℕ
flip_pending now fails id = do
  try_call fails flip_status
  flipped ← gets (λ db. count_where (is_pending_row id) db.transactions)
  modify (complete_rows now id)
  pure flipped

-- The SELECT of the row that the methods return.
unfoldable pub read_transaction : Faults → String → Tx TransactionModel
read_transaction fails id = do
  try_call fails read_row
  found ← gets (λ db. find_where (has_transaction_id id) db.transactions)
  row ← or_raise found no_rows
  pure row.model

-- Reconciles one account and wants its one row written.
unfoldable pub reconcile_one : ℕ → Faults → String → Error → Tx (Unit {0})
reconcile_one now fails account e = do
  rows ← reconcile_balance now fails account
  guard (eqb rows 1) e

unfoldable pub reconcile_two : ℕ → Faults → String → String → Tx (Unit {0})
reconcile_two now fails first second = do
  reconcile_one now fails first first_account_rejected
  reconcile_one now fails second second_account_rejected

-- The body that `TransferFunds`, `DepositFunds` and `WithdrawFunds` share: flip the pending row,
-- reconcile only if one row was flipped, read the row back.
unfoldable pub complete_then : ℕ → Faults → String → Tx (Unit {0}) → Tx TransactionModel
complete_then now fails id reconcile = do
  flipped ← flip_pending now fails id
  if eqb flipped 1 then reconcile else pure tt
  read_transaction fails id

-- `TransferFunds`
unfoldable pub transfer_funds :
    ℕ → Faults → String → String → String → String → ℤ → Db → Result TransactionModel × Db
transfer_funds now fails id from to currency amount db =
    if leb_ℤ amount (pos 0)
    then (err amount_not_positive, db)
    else let (first, second) = lock_order from to in
      transact fails (complete_then now fails id (reconcile_two now fails first second)) db

-- `DepositFunds`
unfoldable pub deposit_funds :
    ℕ → Faults → String → String → String → ℤ → Db → Result TransactionModel × Db
deposit_funds now fails id account currency amount =
    transact fails (complete_then now fails id (reconcile_one now fails account account_not_found))

-- `WithdrawFunds`
unfoldable pub withdraw_funds : ℕ → Faults → String → String → ℤ → Db → Result TransactionModel × Db
withdraw_funds now fails id account amount =
    transact fails
      (complete_then now fails id (reconcile_one now fails account insufficient_balance))

unfoldable pub pending_row :
    ℕ → String → TransactionType → String → String → String → ℤ → TransactionRow
pending_row now id kind from to currency amount = record {
  model = record {
    id = id;
    from_account = from;
    to_account = to;
    amount = amount;
    currency = currency;
    status = TransactionStatus.pending;
    created_at = now;
    updated_at = now;
  };
  transaction_type = kind;
}

unfoldable pub is_transfer : TransactionType → Bool
is_transfer transfer = true
is_transfer _ = false

-- The constraints of the table `transactions`: a positive amount, distinct accounts in a transfer,
-- and two accounts that exist.
unfoldable pub row_allowed : TransactionRow → Bool
unfolding is_transfer
row_allowed r =
    not (leb_ℤ r.amount (pos 0))
    && (not (is_transfer r.transaction_type) || not (r.from_account == r.to_account))

unfoldable pub account_exists : Db → String → Bool
account_exists db account = not (eqb (count_where (has_id account) db.accounts) 0)

-- INSERT … ON CONFLICT (id) DO NOTHING. The checks precede the conflict, the foreign keys are for
-- a row that is inserted.
unfoldable pub insert_pending : TransactionRow → Tx (Unit {0})
insert_pending r = do
  guard (row_allowed r) check_violation
  taken ← gets (λ db. count_where (has_transaction_id r.id) db.transactions)
  if eqb taken 0
      then (do
        known ← gets (λ db. account_exists db r.from_account && account_exists db r.to_account)
        guard known foreign_key_violation
        modify (λ db. record db { transactions = db.transactions ++ r ∷ [] }))
      else pure tt

unfoldable pub lock_both : Faults → String → String → Tx (Unit {0})
lock_both fails from to =
    if from == to
    then pure tt
    else let (first, second) = lock_order from to in
      (do try_call fails (lock_account first); try_call fails (lock_account second))

unfoldable pub create_body : Faults → TransactionRow → Tx (Unit {0})
create_body fails r = do
  lock_both fails r.from_account r.to_account
  try_call fails insert_row
  insert_pending r

-- `CreatePendingTransaction`
unfoldable pub create_pending_transaction :
    ℕ
    → Faults
    → String
    → TransactionType
    → String
    → String
    → String
    → ℤ
    → Db
    → Result (Unit {0}) × Db
create_pending_transaction now fails id kind from to currency amount =
    transact fails (create_body fails (pending_row now id kind from to currency amount))

abbrev pub set_status : ℕ → TransactionStatus → TransactionRow → TransactionRow
set_status now status r = record r { model = record r.model { status = status; updated_at = now } }

unfoldable pub status_body : ℕ → Faults → String → TransactionStatus → Tx (Unit {0})
status_body now fails id status = do
  try_call fails update_row
  rows ← gets (λ db. count_where (has_transaction_id id) db.transactions)
  modify (λ db. record db {
    transactions = update_where (has_transaction_id id) (set_status now status) db.transactions;
  })
  guard (eqb rows 1) no_transaction

-- The database half of `UpdateTransactionStatus`; `Wallet` releases the lock after it.
unfoldable pub write_status : ℕ → Faults → String → TransactionStatus → Db → Result (Unit {0}) × Db
write_status now fails id status = transact fails (status_body now fails id status)
