-- ===== src/Tests/Ledger.antt =====
-- The theorems on moving funds at the sample database, and runs of the repository's methods.
use wallet_app.Base.{
  ◌≡◌, refl, arith, pos, ◌+ℤ◌, ◌-ℤ◌, neg, count_where, find_where, update_where, ltb_text, in_int64,
}
use wallet_app.Models.{TransactionStatus}
use wallet_app.Errors.{Error, ok, err}
use wallet_app.Store.{no_faults, transact}
use wallet_app.Ledger.{ledger_balance, counts_for, signed_amount, reconcile_balance, set_completed}
use wallet_app.Repository.{
  transfer_funds, complete_then, flip_pending, read_transaction, reconcile_one, reconcile_two,
  lock_order,
}
use wallet_app.Repository.Movement.{transfer_moves_funds, transfer_overdraft}
use wallet_app.Repository.Success.{transfer_succeeds}
use wallet_app.Tests.Samples.{account, pay, before, overdrawn, before-IsValid, overdrawn-IsValid}

-- 30 of 100 go from "a" to "b".
transfer_run :
    (transfer_funds 5 no_faults "t1" "a" "b" "EUR" (pos 30) before).0
    ≡ ok (set_completed 5 (pay (pos 30) TransactionStatus.pending)).model
unfolding transfer_funds transact complete_then flip_pending read_transaction reconcile_two
    reconcile_one reconcile_balance lock_order ltb_text count_where find_where update_where
    ledger_balance counts_for signed_amount in_int64 ◌+ℤ◌ ◌-ℤ◌
transfer_run = refl

transfer_moves_funds_example : pos 70 ≡ pos 100 +ℤ neg (pos 30)
unfolding transfer_funds transact complete_then flip_pending read_transaction reconcile_two
    reconcile_one reconcile_balance lock_order ltb_text count_where find_where update_where
    ledger_balance counts_for signed_amount in_int64 ◌+ℤ◌ ◌-ℤ◌
transfer_moves_funds_example =
    transfer_moves_funds 5 no_faults "t1" "a" "b" "EUR" "a" (pos 30) before
      {t = (set_completed 5 (pay (pos 30) TransactionStatus.pending)).model}
      {a' = record (account "a" "ann" (pos 70)) { updated_at = 5 }} before-IsValid
      ((λ e. absurd (cc e)), ((λ _. (refl, refl)), tt)) refl refl refl refl refl refl

transfer_overdraft_example :
    (e : Error) × (transfer_funds 5 no_faults "t1" "a" "b" "EUR" (pos 130) overdrawn
      ≡ (err e, overdrawn))
unfolding count_where find_where
transfer_overdraft_example =
    transfer_overdraft 5 no_faults "t1" "a" "b" "EUR" (pos 130) overdrawn overdrawn-IsValid
      ((λ e. absurd (cc e)), ((λ _. (refl, refl)), tt)) refl refl refl refl (omega arith)

transfer_succeeds_example :
    (transfer_funds 5 no_faults "t1" "a" "b" "EUR" (pos 30) before).0
    ≡ ok (set_completed 5 (pay (pos 30) TransactionStatus.pending)).model
unfolding find_where ◌+ℤ◌
transfer_succeeds_example =
    transfer_succeeds 5 "t1" "a" "b" before before-IsValid
      ((λ e. absurd (cc e)), ((λ _. (refl, refl)), tt)) refl refl refl refl (omega arith)
      (omega arith) (omega arith) "EUR" (pos 30) (omega arith)
