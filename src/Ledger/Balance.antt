-- ===== src/Ledger/Balance.antt =====
-- How completing a pending row moves the balances that the ledger gives.
use wallet_app.Base.{
  ℕ, ◌≡◌, refl, ◌⊎◌, inl, inr, String, Bool, true, false, ◌||◌, List, [], ◌∷◌, some, ◌==◌, arith, ℤ,
  pos, ◌+ℤ◌, ◌≤ℤ◌, int_laws, count_where, find_where, update_where, update_where-none, All,
  if◌then◌else◌, Bool-cases,
}
use wallet_app.Models.{TransactionRow}
use wallet_app.Errors.{ok}
use wallet_app.Store.{Db, Faults}
use wallet_app.Ledger.{
  signed_amount, counts_for, ledger_balance, is_pending_row, set_completed, has_id, store_balance,
  reconcile_balance,
}

abbrev pub touches : String → TransactionRow → Bool
touches account r = r.from_account == account || r.to_account == account

-- What a row will add to the balance of `account` once it is completed.
abbrev pub effect : String → TransactionRow → ℤ
effect account r = if touches account r then signed_amount account r else pos 0

-- A successful reconciliation writes the ledger's balance, or refuses a negative one.
pub reconcile_balance-cases :
    (now : ℕ) (fails : Faults) (account : String) (db : Db) {n : ℕ} {db' : Db}
    → reconcile_balance now fails account db ≡ ok (n, db')
    → ((n ≡ 0) × (db' ≡ db))
      ⊎ ((n ≡ count_where (has_id account) db'.accounts)
          × (db' ≡ store_balance now account db)
          × (pos 0 ≤ℤ ledger_balance account db.transactions))
unfolding reconcile_balance
reconcile_balance-cases now fails account db h = ground arith

-- A pending row counts for nothing, and for its accounts once it is completed.
counts_for-pending :
    (id account : String) (r : TransactionRow)
    → is_pending_row id r ≡ true
    → counts_for account r ≡ false
unfolding counts_for
counts_for-pending id account r h = ground arith

counts_for-completed :
    (now : ℕ) (account : String) (r : TransactionRow)
    → counts_for account (set_completed now r) ≡ touches account r
unfolding counts_for
counts_for-completed now account r = ground arith

signed_amount-completed :
    (now : ℕ) (account : String) (r : TransactionRow)
    → signed_amount account (set_completed now r) ≡ signed_amount account r
unfolding signed_amount
signed_amount-completed now account r = refl

-- An account that the pending row does not touch keeps its balance.
pub ledger_balance-untouched :
    (now : ℕ) (id account : String) (rows : List TransactionRow)
    → All (λ r. is_pending_row id r ≡ true → touches account r ≡ false) rows
    → ledger_balance account (update_where (is_pending_row id) (set_completed now) rows)
      ≡ ledger_balance account rows
unfolding update_where ledger_balance
ledger_balance-untouched now id account [] h = refl
ledger_balance-untouched now id account (r ∷ rows) h = ground (
  arith,
  ledger_balance-untouched now id account rows h.1,
  counts_for-pending id account r,
  counts_for-completed now account r,
  signed_amount-completed now account r,
)

-- Completing the one pending row adds its effect.
pub ledger_balance_complete :
    (now : ℕ) (id account : String) (rows : List TransactionRow) {r : TransactionRow}
    → count_where (is_pending_row id) rows ≡ 1
    → find_where (is_pending_row id) rows ≡ some r
    → ledger_balance account (update_where (is_pending_row id) (set_completed now) rows)
      ≡ ledger_balance account rows +ℤ effect account r
unfolding update_where ledger_balance count_where find_where
ledger_balance_complete now id account [] one found = cc
ledger_balance_complete now id account (x ∷ rows) one found =
    elim (Bool-cases (is_pending_row id x)) [
      | inl here ↦ grind (
        int_laws,
        update_where-none (is_pending_row id) (set_completed now) rows,
        counts_for-pending id account x,
        counts_for-completed now account x,
        signed_amount-completed now account x,
      )
      | inr later ↦ grind (int_laws, ledger_balance_complete now id account rows)
    ]
