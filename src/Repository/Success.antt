-- ===== src/Repository/Success.antt =====
-- When no call fails, a covered transfer, withdrawal or deposit goes through.
use wallet_app.Base.{
  ℕ, ◌≤◌, ◌≡◌, inl, inr, String, true, List, [], ◌∷◌, some, none, arith, ℤ, pos, ◌+ℤ◌, ◌≤ℤ◌,
  in_int64, max_int64, int_laws, count_where, find_where, update_where, find_where-none,
  find_where-holds, All-find, ap, sym, ◌∙◌, count_where-le,
}
use mathlib.Core.Path.{subst}
use wallet_app.Models.{AccountModel, TransactionRow, transfer}
use wallet_app.Errors.{Error, ok, first_account_rejected, second_account_rejected}
use wallet_app.Store.{Db, Tx, no_faults, transact}
use wallet_app.Ledger.{
  ledger_balance, has_id, is_pending_row, set_completed, complete_rows, store_balance,
  reconcile_balance,
}
use wallet_app.Repository.{
  has_transaction_id, row_allowed, transfer_funds, flip_pending, read_transaction, reconcile_one,
  reconcile_two, complete_then,
}
use wallet_app.Repository.Inversion.{IsFunded, count-store_balance}
use wallet_app.Repository.Invariant.{IsValid}
use wallet_app.Repository.Keeps.{IsBetween, lock_order-cases}
use wallet_app.Repository.Movement.{completed-ledger, effect-transfer, source_after}
use text.Mathlib.TextPositions.{eq_refl}

reconcile_one-runs :
    (now : ℕ) (account : String) (e : Error) (db : Db)
    → IsFunded account db
    → ledger_balance account db.transactions ≤ℤ max_int64
    → reconcile_one now no_faults account e db ≡ ok (tt, store_balance now account db)
unfolding reconcile_one reconcile_balance in_int64
reconcile_one-runs now account e db funded fits =
    ground (arith, count-store_balance now account account db)

pub reconcile_two-runs :
    (now : ℕ) (first second : String) (db : Db)
    → IsFunded first db
    → IsFunded second db
    → ledger_balance first db.transactions ≤ℤ max_int64
    → ledger_balance second db.transactions ≤ℤ max_int64
    → reconcile_two now no_faults first second db
      ≡ ok (tt, store_balance now second (store_balance now first db))
unfolding reconcile_two
reconcile_two-runs now first second db funded funded' fits fits' = ground (
  arith,
  reconcile_one-runs now first first_account_rejected db funded fits,
  reconcile_one-runs now second second_account_rejected (store_balance now first db),
  count-store_balance now first second db,
)

pending_no_id :
    (id : String) (rows : List TransactionRow)
    → count_where (has_transaction_id id) rows ≡ 0
    → find_where (is_pending_row id) rows ≡ none
pending_no_id id rows h =
    let bound =
      count_where-le (is_pending_row id) (has_transaction_id id) (λ r e. ground arith) rows in
    find_where-none (is_pending_row id) rows (omega (arith, bound))

-- The row that is read back is the completed pending row.
pub find_completed :
    (now : ℕ) (id : String) (rows : List TransactionRow) {r : TransactionRow}
    → count_where (has_transaction_id id) rows ≤ 1
    → find_where (is_pending_row id) rows ≡ some r
    → find_where (has_transaction_id id) (update_where (is_pending_row id) (set_completed now) rows)
      ≡ some (set_completed now r)
unfolding count_where find_where update_where
find_completed now id [] one found = absurd (cc found)
find_completed now id (x ∷ rows) {r} one found =
    ground (arith, find_completed now id rows {r = r}, pending_no_id id rows)

pub complete_then-runs :
    (now : ℕ) (id : String) (reconcile : Tx (Unit {0})) (db db' : Db) {r : TransactionRow}
    → count_where (is_pending_row id) db.transactions ≡ 1
    → reconcile (complete_rows now id db) ≡ ok (tt, db')
    → find_where (has_transaction_id id) db'.transactions ≡ some r
    → transact no_faults (complete_then now no_faults id reconcile) db ≡ (ok r.model, db')
unfolding complete_then transact flip_pending read_transaction
complete_then-runs now id reconcile db db' one ran found = ground arith

allowed_positive : (r : TransactionRow) → row_allowed r ≡ true → pos 1 ≤ℤ r.amount
unfolding row_allowed
allowed_positive r h = ground arith

-- The one row of an account that is found.
pub counted :
    (account : String) (db : Db) {a : AccountModel}
    → IsValid db
    → find_where (has_id account) db.accounts ≡ some a
    → count_where (has_id account) db.accounts ≡ 1
counted account db valid known =
    ground (arith, find_where-none (has_id account) db.accounts, valid.one_account account)

-- What completing a transfer would leave its destination with.
destination_after :
    (now : ℕ) (id from to : String) (db : Db) {r : TransactionRow} {b : AccountModel}
    → IsValid db
    → IsBetween id from to db.transactions
    → count_where (is_pending_row id) db.transactions ≡ 1
    → find_where (is_pending_row id) db.transactions ≡ some r
    → r.transaction_type ≡ transfer
    → find_where (has_id to) db.accounts ≡ some b
    → ledger_balance to (complete_rows now id db).transactions ≡ b.balance +ℤ r.amount
destination_after now id from to db {r} {b} valid between one found kind known =
    let ends =
      All-find _ (is_pending_row id) db.transactions between found
        (find_where-holds (is_pending_row id) db.transactions found) in
    completed-ledger now id db valid one found to known
    ∙ ap (λ x. b.balance +ℤ x) (effect-transfer to r kind ∙ rw (ends.1, eq_refl))

module _ (now : ℕ) (id from to : String) (db : Db) {r : TransactionRow} {a b : AccountModel}
    (valid : IsValid db) (between : IsBetween id from to db.transactions)
    (found : find_where (is_pending_row id) db.transactions ≡ some r)
    (kind : r.transaction_type ≡ transfer) (source : find_where (has_id from) db.accounts ≡ some a)
    (destination : find_where (has_id to) db.accounts ≡ some b) (covered : r.amount ≤ℤ a.balance)
    (source_fits : a.balance ≤ℤ max_int64)
    (destination_fits : b.balance +ℤ r.amount ≤ℤ max_int64) where
  positive_row : pos 1 ≤ℤ r.amount
  positive_row =
      allowed_positive r (All-find _ (is_pending_row id) db.transactions valid.rows_allowed found)

  one_pending : count_where (is_pending_row id) db.transactions ≡ 1
  one_pending = ground (
    arith,
    find_where-none (is_pending_row id) db.transactions,
    valid.one_transaction id,
    count_where-le (is_pending_row id) (has_transaction_id id) (λ r e. ground arith)
        db.transactions,
  )

  source-IsFunded : IsFunded from (complete_rows now id db)
  source-IsFunded = (
    subst (λ x. pos 0 ≤ℤ x)
        (sym (source_after now id from to db valid between one_pending found kind source))
        (omega (int_laws, covered)),
    counted from db valid source,
  )

  destination-IsFunded : IsFunded to (complete_rows now id db)
  destination-IsFunded = (
    subst (λ x. pos 0 ≤ℤ x)
        (sym (destination_after now id from to db valid between one_pending found kind destination))
        (omega
          (int_laws, positive_row, All-find _ (has_id to) db.accounts valid.nonneg destination)),
    counted to db valid destination,
  )

  source_in_range : ledger_balance from (complete_rows now id db).transactions ≤ℤ max_int64
  source_in_range =
      subst (λ x. x ≤ℤ max_int64)
        (sym (source_after now id from to db valid between one_pending found kind source))
        (omega (int_laws, positive_row))

  destination_in_range : ledger_balance to (complete_rows now id db).transactions ≤ℤ max_int64
  destination_in_range =
      subst (λ x. x ≤ℤ max_int64)
        (sym (destination_after now id from to db valid between one_pending found kind destination))
        destination_fits

  -- Where no call fails, a transfer whose pending row is covered by the source account, and whose
  -- balances fit an int64, succeeds and returns the completed row.
  pub transfer_succeeds :
      (currency : String) (amount : ℤ)
      → pos 1 ≤ℤ amount
      → (transfer_funds now no_faults id from to currency amount db).0
        ≡ ok (set_completed now r).model
  unfolding transfer_funds
  transfer_succeeds currency amount positive =
      let completed = find_completed now id db.transactions (valid.one_transaction id) found in
      elim (lock_order-cases from to) [
        | inl e ↦ ground (
          arith,
          e,
          complete_then-runs now id (reconcile_two now no_faults from to) db _ one_pending
              (reconcile_two-runs now from to (complete_rows now id db) source-IsFunded
                destination-IsFunded source_in_range destination_in_range)
              completed,
        )
        | inr e ↦ ground (
          arith,
          e,
          complete_then-runs now id (reconcile_two now no_faults to from) db _ one_pending
              (reconcile_two-runs now to from (complete_rows now id db) destination-IsFunded
                source-IsFunded destination_in_range source_in_range)
              completed,
        )
      ]
