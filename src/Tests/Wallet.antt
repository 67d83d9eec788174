-- ===== src/Tests/Wallet.antt =====
-- The theorems on the wallet service at the sample worlds.
use wallet_app.Base.{
  ◌≡◌, refl, false, some, none, arith, pos, ◌+ℤ◌, count_where, find_where, ◌⊎◌, ◌≤ℤ◌, ◌<ℤ◌, [], ◌∷◌,
}
use wallet_app.Models.{AccountModel, TransactionStatus}
use wallet_app.Errors.{Error, ok, err, db_error}
use wallet_app.Store.{Db, no_faults, autocommit}
use wallet_app.Ledger.{ledger_balance, has_id}
use wallet_app.Ledger.Balance.{effect}
use wallet_app.Repository.Invariant.{IsValid}
use wallet_app.Repository.Pending.{status_rows}
use wallet_app.Cache.{
  Cache, Key, balance_key, number, write, read, transaction_idempotency_check,
  transaction_idempotency_release, idempotency_ttl,
}
use wallet_app.Cache.Locks.{is_held}
use wallet_app.Wallet.{
  World, deposit_handler, transfer_handler, withdraw_handler, conclude, lock_id,
  check_user_account_compatibility, find_account_by_id,
}
use wallet_app.Wallet.Replays.{
  redelivered_completed, redelivered_failed, redelivered_cut_off, cut_off,
}
use wallet_app.Wallet.Release.{conclude_frees_lock, withdraw_own_funds}
use wallet_app.Wallet.Accounts.{open_account, get_balance}
use wallet_app.Wallet.Accounts.Limits.{AtMostThree, open_account-AtMostThree}
use wallet_app.Wallet.Accounts.Balances.{get_balance_owner}
use wallet_app.Tests.Samples.{
  account, pay, before, refused, fresh, after, refused-IsValid, after-IsValid, world, calm, ttl,
}

redelivered_completed_example :
    let (result, w') = transfer_handler calm "t1" "ann" "a" "b" "EUR" (pos 30) (world after) in
    (result ≡ ok (pay (pos 30) TransactionStatus.completed).model)
    × (w'.db.accounts ≡ after.accounts)
    × IsValid w'.db
unfolding count_where find_where
redelivered_completed_example =
    redelivered_completed 5 (λ _. false) "t1" "ann" "a" "b" "EUR" (pos 30) (world after)
      after-IsValid refl refl refl refl refl

redelivered_failed_example :
    let (result, w') = transfer_handler calm "t1" "ann" "a" "b" "EUR" (pos 130) (world refused) in
    (result ≡ ok (pay (pos 130) TransactionStatus.failed).model)
    × (w'.db.accounts ≡ refused.accounts)
    × (ledger_balance "a" w'.db.transactions
        ≡ pos 100 +ℤ effect "a" (pay (pos 130) TransactionStatus.failed))
unfolding count_where find_where
redelivered_failed_example =
    redelivered_failed 5 (λ _. false) "t1" "ann" "a" "b" "EUR" "a" (pos 130) (world refused)
      refused-IsValid refl refl refl refl refl refl

redelivered_cut_off_example :
    let (result, w') =
      transfer_handler (cut_off 5 (λ _. false)) "t1" "ann" "a" "b" "EUR" (pos 30) (world after) in
    (result ≡ err db_error) × (w'.db ≡ status_rows 5 "t1" TransactionStatus.failed after)
unfolding count_where
redelivered_cut_off_example =
    redelivered_cut_off 5 (λ _. false) "t1" "ann" "a" "b" "EUR" (pos 30) (world after) refl refl
      refl

conclude_frees_lock_example :
    is_held 9 "ann_a" (conclude calm "t1" "ann" "a" (err db_error) (world before)).1.cache ≡ false
unfolding count_where lock_id
conclude_frees_lock_example =
    conclude_frees_lock calm 9 "t1" "ann" "a" "ann_a" (err db_error) (world before) (λ c. refl) refl
      refl

withdraw_own_funds_example :
    ((a : AccountModel) × (find_where (has_id "a") fresh.accounts ≡ some a)
      × (a.user_id ≡ "bob")
      × (pos 0 <ℤ pos 50)
      × (pos 50 ≤ℤ a.balance))
    ⊎ ((e : Error) × (withdraw_handler calm "t1" "bob" "a" (pos 50) (world fresh)
          ≡ (err e, world fresh)))
withdraw_own_funds_example = withdraw_own_funds calm "t1" "bob" "a" (pos 50) (world fresh)

abbrev locked : Cache
locked = write (Key.idempotency_key "ann_a") (number (pos 1)) 100 (λ _. none)

fresh-AtMostThree : AtMostThree fresh
unfolding count_where
fresh-AtMostThree user currency = ground arith

open_account-AtMostThree_example :
    AtMostThree (open_account 5 no_faults no_faults "c" "ann" "EUR" fresh fresh).1
open_account-AtMostThree_example =
    open_account-AtMostThree 5 no_faults no_faults "c" "ann" "EUR" fresh fresh fresh-AtMostThree
      refl

-- Ann, with two accounts in EUR.
abbrev crowded : Db
crowded = record fresh {
  users =
      record {
        id = "ann";
        name = "Ann";
        username = "ann";
        password = "";
        email = "";
        created_at = 0;
        updated_at = 0;
      }
      ∷ [];
  accounts = account "a" "ann" (pos 100) ∷ account "b" "ann" (pos 0) ∷ [];
}

abbrev opened : Db
opened = (open_account 5 no_faults no_faults "c" "ann" "EUR" crowded crowded).1

get_balance_owner_example :
    let ann = account "a" "ann" (pos 100) in
    (ann.user_id ≡ "ann")
    × (stored : AccountModel) × (find_where (has_id "a") fresh.accounts ≡ some stored)
    × (ann ≡ record stored { balance = pos 100 })
unfolding get_balance wallet_app.Wallet.Accounts.balance_of_found
    wallet_app.Wallet.Accounts.or_given check_user_account_compatibility find_account_by_id
    autocommit find_where wallet_app.Cache.get_or_store_account_balance
get_balance_owner_example =
    get_balance_owner ttl 5 no_faults (λ _. false) "ann" "a" (world fresh)
      {a = account "a" "ann" (pos 100)} refl
