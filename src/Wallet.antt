-- ===== src/Wallet.antt =====
-- wallet-service/internal/services/wallet-serice.go over the repository: the handlers of the
-- dispatched transactions, which run on the database and the cache.
pub mod Accounts
pub mod Listing
pub mod Delivery
pub mod Handlers
pub mod Redelivery
pub mod Replays
pub mod Release
pub mod Ownership
use wallet_app.Base.{
  ℕ, String, Bool, true, false, Option, none, some, ◌==◌, ℤ, pos, leb_ℤ, ltb_ℤ, concat, find_where,
  if◌then◌else◌,
}
use wallet_app.Models.{
  AccountModel, TransactionModel, TransactionStatus, TransactionType, transfer, deposit, withdrawal,
}
use wallet_app.Errors.{
  Result, ok, err, amount_not_positive, not_account_owner, insufficient_balance,
  balance_exceeds_limit, no_rows,
}
use wallet_app.Store.{
  Db, Faults, Tx, pure, gets, or_raise, try_call, autocommit, read_row, ◌>>=◌, ◌>>◌,
}
use wallet_app.Ledger.{has_id}
use wallet_app.Repository.{
  create_pending_transaction, deposit_funds, withdraw_funds, transfer_funds, write_status,
}
use wallet_app.Cache.{Cache, CacheFaults, transaction_idempotency_release}

pub record World : Type 0 where
  pub db : Db
  pub cache : Cache

-- The time of a call, and which calls of the driver and of the cache client fail: one choice for
-- each repository method that a handler calls.
pub record Env : Type 0 where
  pub now : ℕ
  pub find : Faults
  pub create : Faults
  pub funds : Faults
  pub status : Faults
  pub cache_fails : CacheFaults

abbrev pub on_db : {A : Type 0} → (Db → Result A × Db) → World → Result A × World
on_db m w = let (r, db') = m w.db in (r, record w { db = db' })

abbrev pub on_cache : {A : Type 0} → (Cache → Result A × Cache) → World → Result A × World
on_cache m w = let (r, cache') = m w.cache in (r, record w { cache = cache' })

-- `idempotencyKey`
unfoldable pub lock_id : String → String → String
lock_id user account = concat user (concat "_" account)

-- `FindAccountById`
unfoldable pub find_account_by_id : Faults → String → Db → Result AccountModel
find_account_by_id fails account db =
    (autocommit
      (do
        try_call fails read_row
        found ← gets (λ d. find_where (has_id account) d.accounts)
        or_raise found no_rows)
      db).0

unfoldable pub owned_by : String → Result AccountModel → Option AccountModel
owned_by user (ok a) = if a.user_id == user then some a else none
owned_by user (err e) = none

-- `checkUserAccountCompatibility`
unfoldable pub check_user_account_compatibility :
    Faults → String → String → Db → Option AccountModel
unfolding owned_by
check_user_account_compatibility fails user account db =
    owned_by user (find_account_by_id fails account db)

-- What follows the write of `UpdateTransactionStatus`: the lock is released if the write went
-- through, and a failed release is only logged.
unfoldable pub release_after :
    Env → String → String → Result (Unit {0}) → World → Result (Unit {0}) × World
release_after env user account (err e) w = (err e, w)
release_after env user account (ok u) w =
    (ok u, (on_cache (transaction_idempotency_release env.cache_fails (lock_id user account)) w).1)

-- `UpdateTransactionStatus`
unfoldable pub update_transaction_status :
    Env → String → String → String → TransactionStatus → World → Result (Unit {0}) × World
unfolding release_after
update_transaction_status env id user account status w =
    let (r, w') = on_db (write_status env.now env.status id status) w in
    release_after env user account r w'

-- The end of each handler: the final status is written and its error ignored.
unfoldable pub conclude :
    Env
    → String
    → String
    → String
    → Result TransactionModel
    → World
    → Result TransactionModel × World
conclude env id user account (ok t) w =
    (ok t, (update_transaction_status env id user account TransactionStatus.completed w).1)
conclude env id user account (err e) w =
    (err e, (update_transaction_status env id user account TransactionStatus.failed w).1)

-- Moves the funds, and concludes with what came of it.
unfoldable pub settle_funds :
    Env
    → String
    → String
    → String
    → (Db → Result TransactionModel × Db)
    → World
    → Result TransactionModel × World
settle_funds env id user account funds w =
    let (r, w') = on_db funds w in conclude env id user account r w'

unfoldable pub deposit_created :
    Env
    → String
    → String
    → String
    → String
    → ℤ
    → Result (Unit {0})
    → World
    → Result TransactionModel × World
deposit_created env id user account currency amount (err e) w = (err e, w)
deposit_created env id user account currency amount (ok _) w =
    settle_funds env id user account (deposit_funds env.now env.funds id account currency amount) w

-- `deposit`. A `DepositResponse` is its transaction, and so are the other two responses.
unfoldable pub deposit_handler :
    Env → String → String → String → String → ℤ → World → Result TransactionModel × World
deposit_handler env id user account currency amount w =
    if leb_ℤ amount (pos 0)
    then (err amount_not_positive, w)
    else let (r, w') =
        on_db
          (create_pending_transaction env.now env.create id deposit account account currency amount)
          w in
      deposit_created env id user account currency amount r w'

abbrev pub withdraw_limit : ℤ
withdraw_limit = pos 600000

unfoldable pub withdraw_created :
    Env
    → String
    → String
    → String
    → AccountModel
    → ℤ
    → Result (Unit {0})
    → World
    → Result TransactionModel × World
withdraw_created env id user account_id account amount (err e) w = (err e, w)
withdraw_created env id user account_id account amount (ok _) w =
    if ltb_ℤ withdraw_limit account.balance
    then conclude env id user account_id (err balance_exceeds_limit) w
    else settle_funds env id user account_id (withdraw_funds env.now env.funds id account_id amount)
        w

unfoldable pub withdraw_owned :
    Env
    → String
    → String
    → String
    → Option AccountModel
    → ℤ
    → World
    → Result TransactionModel × World
withdraw_owned env id user account_id none amount w = (err not_account_owner, w)
withdraw_owned env id user account_id (some account) amount w =
    if ltb_ℤ account.balance amount
    then (err insufficient_balance, w)
    else let (r, w') =
        on_db
          (create_pending_transaction env.now env.create id withdrawal account_id account_id
            account.currency amount)
          w in
      withdraw_created env id user account_id account amount r w'

-- `withdraw`
unfoldable pub withdraw_handler :
    Env → String → String → String → ℤ → World → Result TransactionModel × World
withdraw_handler env id user account amount w =
    if leb_ℤ amount (pos 0)
    then (err amount_not_positive, w)
    else withdraw_owned env id user account
        (check_user_account_compatibility env.find user account w.db) amount w

unfoldable pub transfer_created :
    Env
    → String
    → String
    → String
    → String
    → String
    → ℤ
    → Result (Unit {0})
    → World
    → Result TransactionModel × World
transfer_created env id user from to currency amount (err e) w = (err e, w)
transfer_created env id user from to currency amount (ok _) w =
    settle_funds env id user from (transfer_funds env.now env.funds id from to currency amount) w

-- `transfer`
unfoldable pub transfer_handler :
    Env → String → String → String → String → String → ℤ → World → Result TransactionModel × World
transfer_handler env id user from to currency amount w =
    if leb_ℤ amount (pos 0)
    then (err amount_not_positive, w)
    else let (r, w') =
        on_db (create_pending_transaction env.now env.create id transfer from to currency amount)
          w in
      transfer_created env id user from to currency amount r w'
