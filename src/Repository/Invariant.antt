-- ===== src/Repository/Invariant.antt =====
-- The invariant of the ledger tables, and that completing a pending row and reconciling its
-- accounts keeps it.
use wallet_app.Base.{
  ℕ, ◌≤◌, ◌≡◌, ◌≢◌, refl, ap, sym, ◌∙◌, String, true, false, ◌==◌, eq_iff, List, arith, pos, ◌≤ℤ◌,
  count_where, count_where-update, update_where, update_where-none, All, All-update, All-map,
  count_where-le,
}
use wallet_app.Models.{AccountModel, TransactionRow}
use wallet_app.Store.{Db}
use wallet_app.Ledger.{
  ledger_balance, has_id, set_balance, store_balance, is_pending_row, set_completed, complete_rows,
}
use wallet_app.Ledger.Balance.{touches, ledger_balance-untouched}
use wallet_app.Repository.{has_transaction_id, row_allowed}
use wallet_app.Repository.Inversion.{IsFunded, count-store_balance}

-- The stored balance is the sum over the completed transactions.
abbrev pub IsReconciled : List TransactionRow → AccountModel → Type 0
IsReconciled rows a = a.balance ≡ ledger_balance a.id rows

-- The keys are unique, the rows pass the table's checks, every stored balance is the ledger's, and
-- none is negative.
pub record IsValid (db : Db) : Type 0 where
  pub one_transaction : (id : String) → count_where (has_transaction_id id) db.transactions ≤ 1
  pub one_account : (id : String) → count_where (has_id id) db.accounts ≤ 1
  pub rows_allowed : All (λ r. row_allowed r ≡ true) db.transactions
  pub reconciled : All (IsReconciled db.transactions) db.accounts
  pub nonneg : All (λ a. pos 0 ≤ℤ a.balance) db.accounts

-- No pending row under this id touches an account for which `P` does not hold.
abbrev pub OnlyTouches : (String → Type 0) → String → List TransactionRow → Type 0
OnlyTouches P id rows =
    (account : String)
    → P account
    → All (λ r. is_pending_row id r ≡ true → touches account r ≡ false) rows

-- Writing the ledger's balance to one account settles that account.
store_balance-All :
    (P : String → Type 0) (now : ℕ) (account : String) (rows : List TransactionRow)
    (accounts : List AccountModel)
    → All (λ a. (a.id == account) ≡ false → P a.id → IsReconciled rows a) accounts
    → All
        (λ a. P a.id → IsReconciled rows a)
        (update_where (has_id account) (set_balance now (ledger_balance account rows)) accounts)
store_balance-All P now account rows accounts h =
    All-update (has_id account) _
      (λ a _ e _. ap (λ i. ledger_balance i rows) (sym ((eq_iff a.id account).0 e)))
      (λ a keep e. keep e) accounts h

store_balance-nonneg :
    (now : ℕ) (account : String) (db : Db)
    → pos 0 ≤ℤ ledger_balance account db.transactions
    → All (λ a. pos 0 ≤ℤ a.balance) db.accounts
    → All (λ a. pos 0 ≤ℤ a.balance) (store_balance now account db).accounts
store_balance-nonneg now account db h all =
    All-update (has_id account) _ (λ a _ _. h) (λ a keep _. keep) db.accounts all

set_completed-allowed :
    (now : ℕ) (r : TransactionRow) → row_allowed r ≡ true → row_allowed (set_completed now r) ≡ true
unfolding row_allowed
set_completed-allowed now r h = h

pending_has_id :
    (id : String) (r : TransactionRow) → is_pending_row id r ≡ true → has_transaction_id id r ≡ true
pending_has_id id r h = ground arith

-- Completing the pending rows keeps the keys and the checks, and the balances of the accounts that
-- those rows do not touch.
module _ (now : ℕ) (id : String) (db : Db) (valid : IsValid db) where
  complete_rows-one :
      (other : String)
      → count_where (has_transaction_id other) (complete_rows now id db).transactions ≤ 1
  complete_rows-one other =
      rw
        (count_where-update (is_pending_row id) (has_transaction_id other) (set_completed now)
          (λ r e. refl) db.transactions)
        (valid.one_transaction other)

  complete_rows-allowed : All (λ r. row_allowed r ≡ true) (complete_rows now id db).transactions
  complete_rows-allowed =
      All-update (is_pending_row id) (set_completed now) (λ r h _. set_completed-allowed now r h)
        (λ r h _. h) db.transactions valid.rows_allowed

  complete_rows-IsReconciled :
      (P : String → Type 0)
      → OnlyTouches P id db.transactions
      → All (λ a. P a.id → IsReconciled (complete_rows now id db).transactions a) db.accounts
  complete_rows-IsReconciled P only =
      All-map
        (λ a h p. h ∙ sym (ledger_balance-untouched now id a.id db.transactions (only a.id p)))
        db.accounts valid.reconciled

  -- Where not exactly one row is pending, none is, and nothing changes.
  pub complete_rows-none :
      count_where (is_pending_row id) db.transactions ≢ 1 → complete_rows now id db ≡ db
  complete_rows-none h =
      let bound =
        count_where-le (is_pending_row id) (has_transaction_id id) (λ r e. pending_has_id id r e)
          db.transactions in
      rw (
        update_where-none (is_pending_row id) (set_completed now) db.transactions
          (omega (arith, bound, valid.one_transaction id)))

  store_balance-one :
      (account other : String)
      → count_where (has_id other) (store_balance now account (complete_rows now id db)).accounts
        ≤ 1
  store_balance-one account other =
      rw (count-store_balance now account other (complete_rows now id db)) (valid.one_account other)

  -- A completed deposit or withdrawal.
  pub settle_one-IsValid :
      (account : String)
      → OnlyTouches (λ a. (a == account) ≡ false) id db.transactions
      → IsFunded account (complete_rows now id db)
      → IsValid (store_balance now account (complete_rows now id db))
  settle_one-IsValid account only funded = record {
    one_transaction = complete_rows-one;
    one_account = store_balance-one account;
    rows_allowed = complete_rows-allowed;
    reconciled =
        All-map (λ a h. h tt) _
          (store_balance-All (λ _. Unit {0}) now account _ db.accounts
            (All-map (λ a h e _. h e) db.accounts (complete_rows-IsReconciled _ only)));
    nonneg = store_balance-nonneg now account (complete_rows now id db) funded.0 valid.nonneg;
  }

  -- A completed transfer.
  pub settle_two-IsValid :
      (first second : String)
      → OnlyTouches (λ a. ((a == first) ≡ false) × ((a == second) ≡ false)) id db.transactions
      → IsFunded first (complete_rows now id db)
      → IsFunded second (complete_rows now id db)
      → IsValid (store_balance now second (store_balance now first (complete_rows now id db)))
  settle_two-IsValid first second only funded funded' = record {
    one_transaction = complete_rows-one;
    one_account = λ other.
        rw
          (count-store_balance now second other (store_balance now first (complete_rows now id db)))
          (store_balance-one first other);
    rows_allowed = complete_rows-allowed;
    reconciled =
        All-map (λ a h. h tt) _
          (store_balance-All (λ _. Unit {0}) now second _ _
            (All-map (λ a h e _. h e) _
              (store_balance-All (λ a. (a == second) ≡ false) now first _ db.accounts
                (All-map (λ a h e e'. h (e, e')) db.accounts
                  (complete_rows-IsReconciled _ only)))));
    nonneg =
        store_balance-nonneg now second (store_balance now first (complete_rows now id db))
          funded'.0
          (store_balance-nonneg now first (complete_rows now id db) funded.0 valid.nonneg);
  }
