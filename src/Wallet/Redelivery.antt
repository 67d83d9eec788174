-- ===== src/Wallet/Redelivery.antt =====
-- A transfer that is delivered again after its row has reached a final status.
use wallet_app.Base.{
  ℕ, ◌≡◌, refl, ◌≢◌, inl, inr, String, false, ◌==◌, List, [], ◌∷◌, some, arith, ℤ, pos, leb_ℤ, ◌+ℤ◌,
  int_laws, count_where, update_where, update_where-none, find_where, Bool-cases, ap, ◌∙◌,
  count_where-le,
}
use wallet_app.Models.{TransactionRow, TransactionStatus, transfer, is_pending, is_completed}
use wallet_app.Errors.{ok}
use wallet_app.Store.{Db, no_faults, transact}
use wallet_app.Ledger.{is_pending_row, set_completed, ledger_balance, counts_for, signed_amount}
use wallet_app.Ledger.Balance.{effect}
use wallet_app.Repository.{
  has_transaction_id, row_allowed, pending_row, insert_pending, lock_both, lock_order, create_body,
  create_pending_transaction, transfer_funds, complete_then, flip_pending, read_transaction,
  set_status, status_body, write_status,
}
use wallet_app.Repository.Pending.{KeepsCompleted, status_rows}
use wallet_app.Wallet.{World, Env, conclude, settle_funds, transfer_handler, transfer_created}
use wallet_app.Wallet.Delivery.{db-update_transaction_status}
use wallet_app.Cache.{CacheFaults}

-- Every call succeeds.
abbrev pub quiet : ℕ → CacheFaults → Env
quiet now cache = record {
  now = now;
  find = no_faults;
  create = no_faults;
  funds = no_faults;
  status = no_faults;
  cache_fails = cache;
}

-- The insert conflicts with the row that is there, and does nothing.
pub create_again :
    (now : ℕ) (id from to currency : String) (amount : ℤ) (db : Db)
    → leb_ℤ amount (pos 0) ≡ false
    → (from == to) ≡ false
    → count_where (has_transaction_id id) db.transactions ≢ 0
    → create_pending_transaction now no_faults id transfer from to currency amount db ≡ (ok tt, db)
unfolding create_pending_transaction create_body lock_both lock_order insert_pending pending_row
    row_allowed transact
create_again now id from to currency amount db positive distinct taken = ground arith

no_pending :
    (id : String) (rows : List TransactionRow) {r : TransactionRow}
    → count_where (has_transaction_id id) rows ≡ 1
    → find_where (has_transaction_id id) rows ≡ some r
    → is_pending r.status ≡ false
    → count_where (is_pending_row id) rows ≡ 0
unfolding count_where find_where
no_pending id [] one found final = refl
no_pending id (x ∷ rows) {r} one found final = ground (
  arith,
  no_pending id rows {r = r},
  count_where-le (is_pending_row id) (has_transaction_id id) (λ r e. ground arith) rows,
)

-- A row that is not pending is returned as it is, and no balance is reconciled.
skip_funds :
    (now : ℕ) (id from to currency : String) (amount : ℤ) (db : Db) {r : TransactionRow}
    → leb_ℤ amount (pos 0) ≡ false
    → count_where (is_pending_row id) db.transactions ≡ 0
    → find_where (has_transaction_id id) db.transactions ≡ some r
    → transfer_funds now no_faults id from to currency amount db ≡ (ok r.model, db)
unfolding transfer_funds transact complete_then flip_pending read_transaction
skip_funds now id from to currency amount db positive none_pending found =
    ground (
      arith,
      update_where-none (is_pending_row id) (set_completed now) db.transactions none_pending,
    )

pub write_again :
    (now : ℕ) (id : String) (status : TransactionStatus) (db : Db)
    → count_where (has_transaction_id id) db.transactions ≡ 1
    → write_status now no_faults id status db ≡ (ok tt, status_rows now id status db)
unfolding write_status status_body transact
write_again now id status db one = ground arith

-- The handler, redelivered: it returns the stored row, and its status becomes completed.
module _ (now : ℕ) (cache : CacheFaults) (id user from to currency : String) (amount : ℤ)
    (w : World) {r : TransactionRow} (positive : leb_ℤ amount (pos 0) ≡ false)
    (distinct : (from == to) ≡ false)
    (one : count_where (has_transaction_id id) w.db.transactions ≡ 1)
    (found : find_where (has_transaction_id id) w.db.transactions ≡ some r)
    (final : is_pending r.status ≡ false) where
  settled : transfer_funds now no_faults id from to currency amount w.db ≡ (ok r.model, w.db)
  settled =
      skip_funds now id from to currency amount w.db positive
        (no_pending id w.db.transactions one found final) found

  conclude_again :
      (conclude (quiet now cache) id user from (ok r.model) w).1.db
      ≡ status_rows now id TransactionStatus.completed w.db
  unfolding conclude
  conclude_again =
      db-update_transaction_status (quiet now cache) id user from TransactionStatus.completed w
      ∙ ap (λ p. p.1) (write_again now id TransactionStatus.completed w.db one)

  pub transfer_again :
      ((transfer_handler (quiet now cache) id user from to currency amount w).0 ≡ ok r.model)
      × ((transfer_handler (quiet now cache) id user from to currency amount w).1.db
          ≡ status_rows now id TransactionStatus.completed w.db)
  unfolding transfer_handler transfer_created settle_funds
  transfer_again = rw positive (
      rw (create_again now id from to currency amount w.db positive distinct (omega (arith, one)))
        (rw settled (unfold conclude in refl, conclude_again)))

none_found :
    (id : String) (status : TransactionStatus) (rows : List TransactionRow)
    → count_where (has_transaction_id id) rows ≡ 0
    → KeepsCompleted id status rows
unfolding count_where
none_found id status [] none_there = tt
none_found id status (y ∷ ys) none_there =
    (λ e. absurd (ground arith), none_found id status ys (ground arith))

-- Where the one row has this completion, writing a status with it keeps the ledger.
pub keeps_found :
    (id : String) (status : TransactionStatus) (rows : List TransactionRow) {r : TransactionRow}
    → count_where (has_transaction_id id) rows ≡ 1
    → find_where (has_transaction_id id) rows ≡ some r
    → is_completed r.status ≡ is_completed status
    → KeepsCompleted id status rows
unfolding count_where find_where
keeps_found id status [] one found same = tt
keeps_found id status (x ∷ rows) {r} one found same = elim (Bool-cases (has_transaction_id id x)) [
  | inl here ↦ (λ _. ground arith, none_found id status rows (ground arith))
  | inr other ↦ (
    λ e. absurd (cc (rw other at e)),
    keeps_found id status rows {r = r} (ground arith) (ground arith) same,
  )
]

signed_amount-status :
    (now : ℕ) (account : String) (r : TransactionRow)
    → signed_amount account (set_status now TransactionStatus.completed r) ≡ signed_amount account r
unfolding signed_amount
signed_amount-status now account r = refl

-- Completing a row that was not completed adds its effect to the ledger.
pub ledger_balance-status :
    (now : ℕ) (id account : String) (rows : List TransactionRow) {r : TransactionRow}
    → count_where (has_transaction_id id) rows ≡ 1
    → find_where (has_transaction_id id) rows ≡ some r
    → is_completed r.status ≡ false
    → ledger_balance account
        (update_where (has_transaction_id id) (set_status now TransactionStatus.completed) rows)
      ≡ ledger_balance account rows +ℤ effect account r
unfolding ledger_balance update_where count_where find_where counts_for
ledger_balance-status now id account [] one found open_row = cc
ledger_balance-status now id account (x ∷ rows) {r} one found open_row =
    elim (Bool-cases (has_transaction_id id x)) [
      | inl here ↦ grind (
        int_laws,
        signed_amount-status now account x,
        update_where-none (has_transaction_id id) (set_status now TransactionStatus.completed) rows,
      )
      | inr later ↦ grind (int_laws, ledger_balance-status now id account rows)
    ]
