-- ===== src/Ledger.antt =====
-- The reconciliation of wallet-service/internal/repository/wallet_repository.go: the balance of an
-- account is computed from the completed transactions and written back to the account's row.
pub mod Balance
use wallet_app.Base.{
  ℕ, ◌+◌, String, Bool, ◌&&◌, ◌||◌, List, [], ◌∷◌, ◌==◌, ℤ, pos, ◌+ℤ◌, neg, ltb_ℤ, in_int64,
  count_where, update_where, if◌then◌else◌,
}
use wallet_app.Models.{
  AccountModel, TransactionRow, TransactionType, TransactionStatus, transfer, deposit, withdrawal,
  is_pending, is_completed,
}
use wallet_app.Errors.{out_of_range}
use wallet_app.Store.{
  Db, Faults, Tx, pure, guard, gets, modify, try_call, lock_account, sum_ledger, write_balance,
  ◌>>=◌, ◌>>◌,
}

-- The CASE of the query: what a row adds to the balance of `account`.
unfoldable pub signed_amount : String → TransactionRow → ℤ
signed_amount account r = elim r.transaction_type [
  | deposit ↦ r.amount
  | withdrawal ↦ neg r.amount
  | transfer ↦
      if r.to_account == account
      then r.amount
      else if r.from_account == account
      then neg r.amount
      else pos 0
]

-- The WHERE of the query.
unfoldable pub counts_for : String → TransactionRow → Bool
counts_for account r =
    (r.from_account == account || r.to_account == account) && is_completed r.status

-- COALESCE(SUM(…), 0). SQL sums BIGINTs as NUMERIC, so the sum itself does not overflow.
unfoldable pub ledger_balance : String → List TransactionRow → ℤ
ledger_balance account [] = pos 0
ledger_balance account (r ∷ rows) =
    let rest = ledger_balance account rows in
    if counts_for account r then signed_amount account r +ℤ rest else rest

-- `WHERE id = $1` on the accounts, and `UPDATE accounts SET balance = $2, updated_at = now()`.
abbrev pub has_id : String → AccountModel → Bool
has_id account a = a.id == account

abbrev pub set_balance : ℕ → ℤ → AccountModel → AccountModel
set_balance now balance a = record a { balance = balance; updated_at = now }

abbrev pub store_balance : ℕ → String → Db → Db
store_balance now account db = record db {
  accounts =
      update_where (has_id account) (set_balance now (ledger_balance account db.transactions))
        db.accounts;
}

-- `reconcileBalance`: the number of accounts written, 0 also where the balance would be negative.
-- The scan into an int64 fails where the sum does not fit.
unfoldable pub reconcile_balance : ℕ → Faults → String → Tx ℕ
reconcile_balance now fails account = do
  try_call fails (lock_account account)
  try_call fails (sum_ledger account)
  balance ← gets (λ db. ledger_balance account db.transactions)
  guard (in_int64 balance) out_of_range
  if ltb_ℤ balance (pos 0) then pure 0 else do
    try_call fails (write_balance account)
    modify (store_balance now account)
    gets (λ db. count_where (has_id account) db.accounts)

-- `WHERE id = $1 AND status = 'pending'` and `SET status = 'completed', updated_at = now()`.
abbrev pub is_pending_row : String → TransactionRow → Bool
is_pending_row id r = r.id == id && is_pending r.status

abbrev pub set_completed : ℕ → TransactionRow → TransactionRow
set_completed now r = record r {
  model = record r.model { status = TransactionStatus.completed; updated_at = now };
}

abbrev pub complete_rows : ℕ → String → Db → Db
complete_rows now id db = record db {
  transactions = update_where (is_pending_row id) (set_completed now) db.transactions;
}
