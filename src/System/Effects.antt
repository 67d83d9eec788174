-- ===== src/System/Effects.antt =====
-- The effect of a first delivery on the balances, and that it is the order's.
pub mod Orders
use wallet_app.Base.{
  ℕ, ◌≡◌, refl, sym, ap, ◌∙◌, subst, String, Bool, true, false, ◌==◌, arith, inl, inr, ℤ, pos, ◌+ℤ◌,
  neg, int_laws, List, [], ◌∷◌, ◌++◌, leb_ℤ, ltb_ℤ, count_where, count_where-le, find_where,
  find_where-last, Bool-cases, Option-cases, some, none, if◌then◌else◌, eq_iff,
}
use text.Mathlib.TextPositions.{eq_refl}
use wallet_app.Models.{
  AccountModel, TransactionModel, TransactionRow, TransactionType, TransactionStatus, transfer,
  deposit, withdrawal,
}
use wallet_app.Errors.{Error, Result, ok, err, is_ok, balance_exceeds_limit}
use wallet_app.Store.{Db, Faults, transact-cases}
use wallet_app.Ledger.{ledger_balance, counts_for, signed_amount, is_pending_row}
use wallet_app.Ledger.Balance.{effect, ledger_balance_complete}
use wallet_app.Repository.{
  create_pending_transaction, deposit_funds, withdraw_funds, transfer_funds, pending_row,
  has_transaction_id, write_status, status_body,
}
use wallet_app.Repository.Pending.{
  KeepsCompleted, append_row, ledger_balance-append, status_body-ok, ledger_balance-set_status,
}
use wallet_app.Wallet.{
  World, Env, conclude, settle_funds, deposit_handler, deposit_created, withdraw_handler,
  withdraw_owned, withdraw_created, withdraw_limit, transfer_handler, transfer_created,
  check_user_account_compatibility,
}
use wallet_app.Wallet.Delivery.{
  IsFresh, IsNew, IsFunding, create-outcome, db-update_transaction_status, new-failed,
  new-completed, appended-IsNew, appended_one,
}
use wallet_app.Wallet.Handlers.{deposit-IsFunding, withdraw-IsFunding, transfer-IsFunding}
use wallet_app.System.{Order, pay_in, pay_out, move, order_id, deliver, balances, shift}

-- Writing a status that fits leaves the ledger as it was.
write_status-ledger :
    (now : ℕ) (fails : Faults) (id account : String) (status : TransactionStatus) (db : Db)
    → KeepsCompleted id status db.transactions
    → ledger_balance account (write_status now fails id status db).1.transactions
      ≡ ledger_balance account db.transactions
unfolding write_status
write_status-ledger now fails id account status db keeps =
    elim (transact-cases fails (status_body now fails id status) db) [
      | inl (e, failed) ↦ rw failed
      | inr (_, db', ran, done) ↦
          rw (done, (status_body-ok now fails id status db ran).1)
            (ledger_balance-set_status now id account status db.transactions keeps)
    ]

-- The end of a handler returns what came of the funds, and leaves the ledger as it was.
pub conclude-ledger :
    (env : Env) (id user account other : String) (r : Result TransactionModel) (w : World)
    → KeepsCompleted id
        (elim r [ ok _ ↦ TransactionStatus.completed | err _ ↦ TransactionStatus.failed ])
        w.db.transactions
    → let (r', w') = conclude env id user account r w in
      (r' ≡ r) × (balances w' other ≡ balances w other)
unfolding conclude
conclude-ledger env id user account other (ok t) w keeps = (
  refl,
  rw db-update_transaction_status (write_status-ledger env.now env.status id other _ w.db keeps),
)
conclude-ledger env id user account other (err e) w keeps = (
  refl,
  rw db-update_transaction_status (write_status-ledger env.now env.status id other _ w.db keeps),
)

-- What a result makes of a balance: the change, if there was no error.
abbrev pub changed_by : Result TransactionModel → ℤ → ℤ → ℤ
changed_by r change balance = if is_ok r then balance +ℤ change else balance

settle_funds-ledger :
    (env : Env) (id user account from to other : String) (funds : Db → Result TransactionModel × Db)
    (w : World) {row : TransactionRow}
    → IsFunding env.now id from to funds
    → IsNew id from to w.db.transactions
    → count_where (is_pending_row id) w.db.transactions ≡ 1
    → find_where (is_pending_row id) w.db.transactions ≡ some row
    → let (r, w') = settle_funds env id user account funds w in
      balances w' other ≡ changed_by r (effect other row) (balances w other)
unfolding settle_funds
settle_funds-ledger env id user account from to other funds w {row} funding new one found =
    elim (funding.atomic w.db) [
      | inl (t, done) ↦
          let w1 : World = record w { db = (funds w.db).1 } in
          let rows = funding.rows w.db t one done in
          let (same_r, same) =
            conclude-ledger env id user account other (funds w.db).0 w1
              (rw (done, rows) (new-completed env.now id from to w.db.transactions new)) in
          rw (same_r, same, done)
            (ap (ledger_balance other) rows
              ∙ ledger_balance_complete env.now id other w.db.transactions one found)
      | inr (e, failed) ↦
          let (same_r, same) =
            conclude-ledger env id user account other (err e) w
              (new-failed id from to w.db.transactions new) in
          rw (failed, same_r, same)
    ]

pub pending_row-uncounted :
    (now : ℕ) (id : String) (kind : TransactionType) (from to currency other : String) (amount : ℤ)
    → counts_for other (pending_row now id kind from to currency amount) ≡ false
unfolding pending_row counts_for
pending_row-uncounted now id kind from to currency other amount = ground arith

-- The new row counts for nothing until it is completed.
pub created-ledger :
    (env : Env) (id user account : String) (kind : TransactionType)
    (from to currency other : String) (amount : ℤ) (funds : Db → Result TransactionModel × Db)
    (w : World)
    → IsFunding env.now id from to funds
    → IsFresh id w.db
    → let row = pending_row env.now id kind from to currency amount in
      let (r, w') =
        settle_funds env id user account funds (record w { db = append_row row w.db }) in
      balances w' other ≡ changed_by r (effect other row) (balances w other)
unfolding pending_row counts_for
created-ledger env id user account kind from to currency other amount funds w funding fresh =
    let row = pending_row env.now id kind from to currency amount in
    let none_pending : count_where (is_pending_row id) w.db.transactions ≡ 0 = omega (
      arith,
      fresh,
      count_where-le (is_pending_row id) (has_transaction_id id) (λ r e. ground arith)
          w.db.transactions,
    ) in
    let found : find_where (is_pending_row id) (w.db.transactions ++ row ∷ []) ≡ some row =
      find_where-last (is_pending_row id) w.db.transactions row none_pending
        (ground (arith, eq_refl id)) in
    let settled =
      settle_funds-ledger env id user account from to other funds
        (record w { db = append_row row w.db }) funding
        (appended-IsNew env.now id kind from to currency amount w.db fresh)
        (appended_one env.now id kind from to currency amount w.db fresh) found in
    settled
    ∙ rw (
        ledger_balance-append other w.db.transactions row
          (pending_row-uncounted env.now id kind from to currency other amount))
