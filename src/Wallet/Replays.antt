-- ===== src/Wallet/Replays.antt =====
-- What a second delivery of a transfer does to the money: nothing after a completed one, but it
-- completes a failed one without moving any, and a failing one undoes the status of a completed one.
use wallet_app.Base.{
  ℕ, ◌≡◌, refl, String, true, false, ◌==◌, some, arith, ℤ, pos, leb_ℤ, ◌+ℤ◌, count_where,
  find_where, ap, sym, ◌∙◌,
}
use mathlib.Core.Path.{subst}
use wallet_app.Models.{AccountModel, TransactionRow, TransactionStatus}
use wallet_app.Errors.{ok, err, db_error}
use wallet_app.Store.{Db, no_faults, transact}
use wallet_app.Ledger.{ledger_balance, has_id}
use wallet_app.Ledger.Balance.{effect}
use wallet_app.Repository.{has_transaction_id, transfer_funds}
use wallet_app.Repository.Invariant.{IsValid}
use wallet_app.Repository.Movement.{balance-eq-ledger}
use wallet_app.Repository.Pending.{status_rows, write_status-IsValid}
use wallet_app.Wallet.{World, Env, transfer_handler, transfer_created, settle_funds, conclude}
use wallet_app.Wallet.Redelivery.{
  quiet, transfer_again, keeps_found, ledger_balance-status, write_again, create_again,
}
use wallet_app.Wallet.Delivery.{db-update_transaction_status}
use wallet_app.Cache.{CacheFaults}

-- A redelivered transfer whose row is completed, with every call succeeding, returns the row, moves
-- no balance and keeps the invariant.
pub redelivered_completed :
    (now : ℕ) (cache : CacheFaults) (id user from to currency : String) (amount : ℤ) (w : World)
    {r : TransactionRow}
    → IsValid w.db
    → leb_ℤ amount (pos 0) ≡ false
    → (from == to) ≡ false
    → count_where (has_transaction_id id) w.db.transactions ≡ 1
    → find_where (has_transaction_id id) w.db.transactions ≡ some r
    → r.status ≡ TransactionStatus.completed
    → let (result, w') = transfer_handler (quiet now cache) id user from to currency amount w in
      (result ≡ ok r.model) × (w'.db.accounts ≡ w.db.accounts) × IsValid w'.db
redelivered_completed now cache id user from to currency amount w valid positive distinct one found
      done =
    let (result, same) =
      transfer_again now cache id user from to currency amount w positive distinct one found
        (rw done) in
    let keeps = keeps_found id TransactionStatus.completed w.db.transactions one found (rw done) in
    (
      result,
      ap (λ (db : Db). db.accounts) same,
      rw same (
          subst (λ p. IsValid p.1) (write_again now id TransactionStatus.completed w.db one)
            (write_status-IsValid now no_faults id TransactionStatus.completed w.db valid keeps)),
    )

-- A redelivered transfer whose row has failed, with every call succeeding, reports success and
-- completes the row, but moves no balance: the ledger of each account departs from its stored
-- balance by the effect of the row.
pub redelivered_failed :
    (now : ℕ) (cache : CacheFaults) (id user from to currency account : String) (amount : ℤ)
    (w : World) {r : TransactionRow} {a : AccountModel}
    → IsValid w.db
    → leb_ℤ amount (pos 0) ≡ false
    → (from == to) ≡ false
    → count_where (has_transaction_id id) w.db.transactions ≡ 1
    → find_where (has_transaction_id id) w.db.transactions ≡ some r
    → r.status ≡ TransactionStatus.failed
    → find_where (has_id account) w.db.accounts ≡ some a
    → let (result, w') = transfer_handler (quiet now cache) id user from to currency amount w in
      (result ≡ ok r.model)
      × (w'.db.accounts ≡ w.db.accounts)
      × (ledger_balance account w'.db.transactions ≡ a.balance +ℤ effect account r)
redelivered_failed now cache id user from to currency account amount w {r} {a} valid positive
      distinct one found failed known =
    let (result, same) =
      transfer_again now cache id user from to currency amount w positive distinct one found
        (rw failed) in
    (
      result,
      ap (λ (db : Db). db.accounts) same,
      ap (λ (db : Db). ledger_balance account db.transactions) same
          ∙ ledger_balance-status now id account w.db.transactions one found (rw failed)
          ∙ ap (λ b. b +ℤ effect account r) (sym (balance-eq-ledger account w.db valid known)),
    )

-- The same, but every call of the funds transaction fails.
abbrev pub cut_off : ℕ → CacheFaults → Env
cut_off now cache = record (quiet now cache) { funds = λ _. true }

-- A redelivered transfer that cannot reach the database for its funds, but can for its status, has
-- its row marked failed whatever its status was, a completed one included.
pub redelivered_cut_off :
    (now : ℕ) (cache : CacheFaults) (id user from to currency : String) (amount : ℤ) (w : World)
    → leb_ℤ amount (pos 0) ≡ false
    → (from == to) ≡ false
    → count_where (has_transaction_id id) w.db.transactions ≡ 1
    → let (result, w') = transfer_handler (cut_off now cache) id user from to currency amount w in
      (result ≡ err db_error) × (w'.db ≡ status_rows now id TransactionStatus.failed w.db)
unfolding transfer_handler transfer_created settle_funds transfer_funds transact conclude
redelivered_cut_off now cache id user from to currency amount w positive distinct one =
    rw positive (
      rw (create_again now id from to currency amount w.db positive distinct (omega (arith, one))) (
        rw positive (
          refl,
          db-update_transaction_status (cut_off now cache) id user from TransactionStatus.failed w
              ∙ ap (λ p. p.1) (write_again now id TransactionStatus.failed w.db one),
        )))
