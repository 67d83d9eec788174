-- ===== src/Tests/System.antt =====
-- A transfer delivered to the sample world, as a run.
use wallet_app.Base.{
  ◌≡◌, refl, [], ◌∷◌, pos, ◌+ℤ◌, ◌-ℤ◌, ◌≤ℤ◌, in_int64, ltb_text, count_where, find_where,
  update_where,
}
use wallet_app.Store.{transact, autocommit}
use wallet_app.Ledger.{ledger_balance, counts_for, signed_amount, reconcile_balance}
use wallet_app.Repository.{
  lock_order, flip_pending, read_transaction, reconcile_one, reconcile_two, complete_then,
  transfer_funds, pending_row, is_transfer, row_allowed, account_exists, insert_pending, lock_both,
  create_body, create_pending_transaction, status_body, write_status,
}
use wallet_app.Repository.Invariant.{IsValid}
use wallet_app.Wallet.{
  World, transfer_handler, transfer_created, settle_funds, conclude, update_transaction_status,
  release_after,
}
use wallet_app.System.{
  Order, move, deliver, delivered, step, carry_out, Run, start, next, balances, replay,
}
use wallet_app.System.Runs.{Run-IsValid, Run-refines-Bank}
use wallet_app.Tests.Samples.{account, fresh, fresh-IsValid, world, calm}

abbrev order : Order
order = move "t1" "ann" "a" "b" "EUR" (pos 30)

abbrev paid : World
paid = step (delivered calm order) (world fresh)

-- The run that carries the order out.
paid-Run : Run (world fresh) (order ∷ []) paid
unfolding deliver step carry_out count_where find_where update_where transfer_handler
    transfer_created create_pending_transaction transact create_body insert_pending pending_row
    is_transfer row_allowed account_exists lock_both settle_funds transfer_funds complete_then
    flip_pending read_transaction reconcile_two reconcile_one reconcile_balance lock_order ltb_text
    ledger_balance counts_for signed_amount in_int64 conclude ◌+ℤ◌ ◌-ℤ◌
paid-Run = next start (delivered calm order) refl

Run-IsValid_example : IsValid paid.db
Run-IsValid_example = Run-IsValid fresh-IsValid paid-Run

Run-refines-Bank_example :
    (pos 30 ≡ replay (order ∷ []) (balances (world fresh)) "b") × (pos 0 ≤ℤ pos 30)
unfolding deliver step carry_out count_where find_where update_where transfer_handler
    transfer_created create_pending_transaction transact create_body insert_pending pending_row
    is_transfer row_allowed account_exists lock_both settle_funds transfer_funds complete_then
    flip_pending read_transaction reconcile_two reconcile_one reconcile_balance lock_order ltb_text
    ledger_balance counts_for signed_amount in_int64 conclude update_transaction_status
    release_after write_status status_body autocommit ◌+ℤ◌ ◌-ℤ◌
Run-refines-Bank_example =
    Run-refines-Bank "b" {a = record (account "b" "bob" (pos 30)) { updated_at = 5 }} fresh-IsValid
      paid-Run refl
