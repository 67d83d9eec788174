-- ===== src/Wallet/Release.antt =====
-- The lock of an account, which the outbox insert takes: when a handler frees it, and when it is
-- left to expire.
use wallet_app.Base.{
  ℕ, ◌≡◌, ◌⊎◌, inl, inr, String, false, ◌==◌, some, arith, ℤ, pos, leb_ℤ, ltb_ℤ, ◌≤ℤ◌, ◌<ℤ◌,
  find_where, Option-cases, count_where, Bool-cases, if◌then◌else◌,
}
use wallet_app.Models.{AccountModel, TransactionModel, TransactionStatus}
use wallet_app.Errors.{
  Error, Result, ok, err, insufficient_balance, not_account_owner, amount_not_positive,
}
use wallet_app.Store.{Db, Faults, Call, begin, commit, update_row, transact}
use wallet_app.Repository.{has_transaction_id, write_status, status_body}
use wallet_app.Wallet.{
  World, Env, lock_id, check_user_account_compatibility, update_transaction_status, release_after,
  conclude, withdraw_handler, withdraw_owned,
}
use wallet_app.Cache.{idempotency_key, del}
use wallet_app.Ledger.{has_id}
use wallet_app.Wallet.Accounts.Balances.{check-some}
use wallet_app.Cache.Locks.{is_held, transaction_idempotency_release-is_held}

-- A withdrawal is of a positive amount, from an account that is stored under its id, belongs to the
-- user, and has the amount; or it fails and changes nothing: no failed row records it, and the lock
-- that the request took when it was enqueued stays held.
pub withdraw_own_funds :
    (env : Env) (id user account : String) (amount : ℤ) (w : World)
    → ((a : AccountModel) × (find_where (has_id account) w.db.accounts ≡ some a)
        × (a.user_id ≡ user)
        × (pos 0 <ℤ amount)
        × (amount ≤ℤ a.balance))
      ⊎ ((e : Error) × (withdraw_handler env id user account amount w ≡ (err e, w)))
unfolding withdraw_handler withdraw_owned
withdraw_own_funds env id user account amount w = elim (Bool-cases (leb_ℤ amount (pos 0))) [
  | inl bad ↦ inr (amount_not_positive, rw bad)
  | inr positive ↦
      elim (Option-cases (check_user_account_compatibility env.find user account w.db)) [
        | inl stranger ↦ inr (not_account_owner, rw (positive, stranger))
        | inr (a, owner) ↦ elim (Bool-cases (ltb_ℤ a.balance amount)) [
          | inl short ↦ inr (insufficient_balance, rw (positive, owner, short))
          | inr covered ↦
              let (found, of_user) = check-some env.find user account w.db owner in
              inl (a, found, of_user, ground arith, ground arith)
        ]
      ]
]

write_status_succeeds :
    (now : ℕ) (fails : Faults) (id : String) (status : TransactionStatus) (db : Db)
    → ((c : Call) → fails c ≡ false)
    → count_where (has_transaction_id id) db.transactions ≡ 1
    → (write_status now fails id status db).0 ≡ ok tt
unfolding write_status status_body transact
write_status_succeeds now fails id status db quiet one =
    ground (arith, quiet begin, quiet update_row, quiet commit)

update_frees_lock :
    (env : Env) (later : ℕ) (id user account other : String) (status : TransactionStatus)
    (w : World)
    → ((c : Call) → env.status c ≡ false)
    → env.cache_fails (del (idempotency_key (lock_id user account))) ≡ false
    → count_where (has_transaction_id id) w.db.transactions ≡ 1
    → is_held later other (update_transaction_status env id user account status w).1.cache
      ≡ (if lock_id user account == other then false else is_held later other w.cache)
unfolding update_transaction_status
update_frees_lock env later id user account other status w quiet_db quiet_cache one =
    rw (write_status_succeeds env.now env.status id status w.db quiet_db one, release_after)
      (transaction_idempotency_release-is_held later env.cache_fails (lock_id user account) other
        w.cache quiet_cache).1

-- Once a handler has a final status to write, and neither the database nor the cache fails, it frees
-- the lock of its account and no other, whatever came of the funds.
pub conclude_frees_lock :
    (env : Env) (later : ℕ) (id user account other : String) (r : Result TransactionModel)
    (w : World)
    → ((c : Call) → env.status c ≡ false)
    → env.cache_fails (del (idempotency_key (lock_id user account))) ≡ false
    → count_where (has_transaction_id id) w.db.transactions ≡ 1
    → is_held later other (conclude env id user account r w).1.cache
      ≡ (if lock_id user account == other then false else is_held later other w.cache)
unfolding conclude
conclude_frees_lock env later id user account other (ok t) w quiet_db quiet_cache one =
    update_frees_lock env later id user account other TransactionStatus.completed w quiet_db
      quiet_cache one
conclude_frees_lock env later id user account other (err e) w quiet_db quiet_cache one =
    update_frees_lock env later id user account other TransactionStatus.failed w quiet_db
      quiet_cache one
