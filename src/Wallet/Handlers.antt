-- ===== src/Wallet/Handlers.antt =====
-- The three handlers keep the ledger's invariant at the first delivery of a transaction.
use wallet_app.Base.{◌≡◌, inl, inr, String, some, ℤ, pos, leb_ℤ, ltb_ℤ, Bool-cases, Option-cases, ℕ}
use mathlib.Core.Path.{subst}
use wallet_app.Models.{AccountModel, TransactionType, transfer, deposit, withdrawal}
use wallet_app.Errors.{ok, err, account_not_found, insufficient_balance, balance_exceeds_limit}
use wallet_app.Store.{Db, Faults}
use wallet_app.Repository.{
  create_pending_transaction, deposit_funds, withdraw_funds, transfer_funds, pending_row,
}
use wallet_app.Repository.Invariant.{IsValid}
use wallet_app.Repository.Keeps.{
  deposit_funds-IsValid, withdraw_funds-IsValid, transfer_funds-IsValid,
}
use wallet_app.Repository.Pending.{append_row, create_pending_transaction-IsValid}
use wallet_app.Repository.Movement.{
  transact_atomic, one-outcome, transfer-outcome, transfer_funds-atomic,
}
use wallet_app.Wallet.{
  World, Env, deposit_handler, deposit_created, withdraw_handler, withdraw_owned, withdraw_created,
  withdraw_limit, transfer_handler, transfer_created, check_user_account_compatibility,
}
use wallet_app.Wallet.Delivery.{
  IsFresh, IsFunding, create-outcome, created-IsValid, conclude-IsValid, new-failed, appended-IsNew,
}

pub deposit-IsFunding :
    (now : ℕ) (fails : Faults) (id account currency : String) (amount : ℤ)
    → IsFunding now id account account (deposit_funds now fails id account currency amount)
unfolding deposit_funds
deposit-IsFunding now fails id account currency amount = record {
  keeps = deposit_funds-IsValid now fails id account currency amount;
  atomic = λ db. transact_atomic fails _ db;
  rows = λ db t one done. (one-outcome now fails id db account account_not_found one done).0;
}

pub withdraw-IsFunding :
    (now : ℕ) (fails : Faults) (id account : String) (amount : ℤ)
    → IsFunding now id account account (withdraw_funds now fails id account amount)
unfolding withdraw_funds
withdraw-IsFunding now fails id account amount = record {
  keeps = withdraw_funds-IsValid now fails id account amount;
  atomic = λ db. transact_atomic fails _ db;
  rows = λ db t one done. (one-outcome now fails id db account insufficient_balance one done).0;
}

pub transfer-IsFunding :
    (now : ℕ) (fails : Faults) (id from to currency : String) (amount : ℤ)
    → IsFunding now id from to (transfer_funds now fails id from to currency amount)
transfer-IsFunding now fails id from to currency amount = record {
  keeps = transfer_funds-IsValid now fails id from to currency amount;
  atomic = transfer_funds-atomic now fails id from to currency amount;
  rows = λ db t one done. (transfer-outcome now fails id db from to currency amount one done).0;
}

-- The row that was created is a valid addition.
appended-IsValid :
    (now : ℕ) (fails : Faults) (id : String) (kind : TransactionType) (from to currency : String)
    (amount : ℤ) (db : Db)
    → IsValid db
    → create_pending_transaction now fails id kind from to currency amount db
      ≡ (ok tt, append_row (pending_row now id kind from to currency amount) db)
    → IsValid (append_row (pending_row now id kind from to currency amount) db)
appended-IsValid now fails id kind from to currency amount db valid created =
    subst (λ p. IsValid p.1) created
      (create_pending_transaction-IsValid now fails id kind from to currency amount db valid)

-- The first delivery of a deposit keeps the invariant, whatever calls fail: the keys stay unique,
-- every stored balance is the sum of the completed transactions, and none is negative.
pub deposit_handler-IsValid :
    (env : Env) (id user account currency : String) (amount : ℤ) (w : World)
    → IsValid w.db
    → IsFresh id w.db
    → IsValid (deposit_handler env id user account currency amount w).1.db
unfolding deposit_handler deposit_created
deposit_handler-IsValid env id user account currency amount w valid fresh =
    elim (Bool-cases (leb_ℤ amount (pos 0))) [
      | inl refused ↦ rw refused valid
      | inr positive ↦
          rw positive
            (elim (create-outcome env.now env.create id deposit account account currency amount w.db
              fresh) [
                | inl (e, failed) ↦ rw failed valid
                | inr created ↦ rw created (
                    created-IsValid env id user account deposit account account currency amount _ w
                      (deposit-IsFunding env.now env.funds id account currency amount) valid fresh
                      (appended-IsValid env.now env.create id deposit account account currency
                        amount w.db valid created))
              ])
    ]

-- The first delivery of a transfer keeps the invariant, whatever calls fail.
pub transfer_handler-IsValid :
    (env : Env) (id user from to currency : String) (amount : ℤ) (w : World)
    → IsValid w.db
    → IsFresh id w.db
    → IsValid (transfer_handler env id user from to currency amount w).1.db
unfolding transfer_handler transfer_created
transfer_handler-IsValid env id user from to currency amount w valid fresh =
    elim (Bool-cases (leb_ℤ amount (pos 0))) [
      | inl refused ↦ rw refused valid
      | inr positive ↦
          rw positive
            (elim (create-outcome env.now env.create id transfer from to currency amount w.db
              fresh) [
                | inl (e, failed) ↦ rw failed valid
                | inr created ↦ rw created (
                    created-IsValid env id user from transfer from to currency amount _ w
                      (transfer-IsFunding env.now env.funds id from to currency amount) valid fresh
                      (appended-IsValid env.now env.create id transfer from to currency amount w.db
                        valid created))
              ])
    ]

withdraw_owned-IsValid :
    (env : Env) (id user account : String) (a : AccountModel) (amount : ℤ) (w : World)
    → IsValid w.db
    → IsFresh id w.db
    → IsValid (withdraw_owned env id user account (some a) amount w).1.db
unfolding withdraw_owned withdraw_created
withdraw_owned-IsValid env id user account a amount w valid fresh =
    elim (Bool-cases (ltb_ℤ a.balance amount)) [
      | inl short ↦ rw short valid
      | inr covered ↦
          rw covered
            (elim (create-outcome env.now env.create id withdrawal account account a.currency amount
              w.db fresh) [
                | inl (e, failed) ↦ rw failed valid
                | inr created ↦
                    let valid' =
                      appended-IsValid env.now env.create id withdrawal account account a.currency
                        amount w.db valid created in
                    rw created (elim (Bool-cases (ltb_ℤ withdraw_limit a.balance)) [
                      | inl above ↦ rw above (
                          conclude-IsValid env id user account (err balance_exceeds_limit) _ valid'
                            (new-failed id account account _ (
                              appended-IsNew env.now id withdrawal account account a.currency amount
                                w.db fresh)))
                      | inr within ↦ rw within (
                          created-IsValid env id user account withdrawal account account a.currency
                            amount _ w (withdraw-IsFunding env.now env.funds id account amount)
                            valid fresh valid')
                    ])
              ])
    ]

-- The first delivery of a withdrawal keeps the invariant, whatever calls fail.
pub withdraw_handler-IsValid :
    (env : Env) (id user account : String) (amount : ℤ) (w : World)
    → IsValid w.db
    → IsFresh id w.db
    → IsValid (withdraw_handler env id user account amount w).1.db
unfolding withdraw_handler
withdraw_handler-IsValid env id user account amount w valid fresh =
    elim (Bool-cases (leb_ℤ amount (pos 0))) [
      | inl refused ↦ rw refused valid
      | inr positive ↦
          rw positive
            (elim (Option-cases (check_user_account_compatibility env.find user account w.db)) [
              | inl stranger ↦ rw stranger (unfold withdraw_owned in valid)
              | inr (a, owner) ↦
                  rw owner (withdraw_owned-IsValid env id user account a amount w valid fresh)
            ])
    ]
