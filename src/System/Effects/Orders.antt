-- ===== src/System/Effects/Orders.antt =====
-- The effect of each order's handler is that of the order.
use wallet_app.Base.{
  ℕ, ◌≡◌, refl, String, arith, inl, inr, ℤ, pos, leb_ℤ, ltb_ℤ, Bool-cases, Option-cases, some,
}
use wallet_app.Models.{AccountModel, transfer, deposit, withdrawal}
use wallet_app.Errors.{err, balance_exceeds_limit}
use wallet_app.Ledger.{signed_amount}
use wallet_app.Ledger.Balance.{effect}
use wallet_app.Repository.{pending_row}
use wallet_app.Repository.Pending.{append_row, ledger_balance-append}
use wallet_app.Wallet.{
  World, Env, deposit_handler, deposit_created, withdraw_handler, withdraw_owned, withdraw_created,
  withdraw_limit, transfer_handler, transfer_created, check_user_account_compatibility,
}
use wallet_app.Wallet.Delivery.{IsFresh, create-outcome, new-failed, appended-IsNew}
use wallet_app.Wallet.Handlers.{deposit-IsFunding, withdraw-IsFunding, transfer-IsFunding}
use wallet_app.System.{Order, pay_in, pay_out, move, order_id, deliver, balances, shift}
use wallet_app.System.Effects.{changed_by, created-ledger, conclude-ledger, pending_row-uncounted}

effect-pay_in :
    (now : ℕ) (id user account currency other : String) (amount : ℤ)
    → effect other (pending_row now id deposit account account currency amount)
      ≡ shift (pay_in id user account currency amount) other
unfolding pending_row signed_amount shift
effect-pay_in now id user account currency other amount = ground arith

effect-pay_out :
    (now : ℕ) (id user account currency other : String) (amount : ℤ)
    → effect other (pending_row now id withdrawal account account currency amount)
      ≡ shift (pay_out id user account amount) other
unfolding pending_row signed_amount shift
effect-pay_out now id user account currency other amount = ground arith

effect-move :
    (now : ℕ) (id user from to currency other : String) (amount : ℤ)
    → effect other (pending_row now id transfer from to currency amount)
      ≡ shift (move id user from to currency amount) other
unfolding pending_row signed_amount shift
effect-move now id user from to currency other amount = ground arith

-- Each order does to the balances what its handler reports: its change, or nothing with an error.
deposit_handler-effect :
    (env : Env) (id user account currency other : String) (amount : ℤ) (w : World)
    → IsFresh id w.db
    → let (r, w') = deposit_handler env id user account currency amount w in
      balances w' other
      ≡ changed_by r (shift (pay_in id user account currency amount) other) (balances w other)
unfolding deposit_handler deposit_created
deposit_handler-effect env id user account currency other amount w fresh =
    elim (Bool-cases (leb_ℤ amount (pos 0))) [
      | inl refused ↦ rw refused
      | inr positive ↦
          elim (create-outcome env.now env.create id deposit account account currency amount w.db
            fresh) [
              | inl (e, failed) ↦ rw (positive, failed)
              | inr created ↦
                  rw
                    (
                      positive,
                      created,
                      ← effect-pay_in env.now id user account currency other amount,
                    )
                    (created-ledger env id user account deposit account account currency other
                      amount _ w (deposit-IsFunding env.now env.funds id account currency amount)
                      fresh)
            ]
    ]

transfer_handler-effect :
    (env : Env) (id user from to currency other : String) (amount : ℤ) (w : World)
    → IsFresh id w.db
    → let (r, w') = transfer_handler env id user from to currency amount w in
      balances w' other
      ≡ changed_by r (shift (move id user from to currency amount) other) (balances w other)
unfolding transfer_handler transfer_created
transfer_handler-effect env id user from to currency other amount w fresh =
    elim (Bool-cases (leb_ℤ amount (pos 0))) [
      | inl refused ↦ rw refused
      | inr positive ↦
          elim (create-outcome env.now env.create id transfer from to currency amount w.db fresh) [
            | inl (e, failed) ↦ rw (positive, failed)
            | inr created ↦
                rw (positive, created, ← effect-move env.now id user from to currency other amount)
                  (created-ledger env id user from transfer from to currency other amount _ w
                    (transfer-IsFunding env.now env.funds id from to currency amount) fresh)
          ]
    ]

withdraw_owned-effect :
    (env : Env) (id user account other : String) (a : AccountModel) (amount : ℤ) (w : World)
    → IsFresh id w.db
    → let (r, w') = withdraw_owned env id user account (some a) amount w in
      balances w' other
      ≡ changed_by r (shift (pay_out id user account amount) other) (balances w other)
unfolding withdraw_owned withdraw_created
withdraw_owned-effect env id user account other a amount w fresh =
    elim (Bool-cases (ltb_ℤ a.balance amount)) [
      | inl short ↦ rw short
      | inr covered ↦
          elim (create-outcome env.now env.create id withdrawal account account a.currency amount
            w.db fresh) [
              | inl (e, failed) ↦ rw (covered, failed)
              | inr created ↦ elim (Bool-cases (ltb_ℤ withdraw_limit a.balance)) [
                | inl above ↦
                    let row = pending_row env.now id withdrawal account account a.currency amount in
                    let (same_r, same) =
                      conclude-ledger env id user account other (err balance_exceeds_limit)
                        (record w { db = append_row row w.db })
                        (new-failed id account account _ (
                          appended-IsNew env.now id withdrawal account account a.currency amount
                            w.db fresh)) in
                    rw (covered, created, above, same_r, same)
                      (ledger_balance-append other w.db.transactions row (
                        pending_row-uncounted env.now id withdrawal account account a.currency other
                          amount))
                | inr within ↦
                    rw
                      (
                        covered,
                        created,
                        within,
                        ← effect-pay_out env.now id user account a.currency other amount,
                      )
                      (created-ledger env id user account withdrawal account account a.currency
                        other amount _ w (withdraw-IsFunding env.now env.funds id account amount)
                        fresh)
              ]
            ]
    ]

withdraw_handler-effect :
    (env : Env) (id user account other : String) (amount : ℤ) (w : World)
    → IsFresh id w.db
    → let (r, w') = withdraw_handler env id user account amount w in
      balances w' other
      ≡ changed_by r (shift (pay_out id user account amount) other) (balances w other)
unfolding withdraw_handler
withdraw_handler-effect env id user account other amount w fresh =
    elim (Bool-cases (leb_ℤ amount (pos 0))) [
      | inl refused ↦ rw refused
      | inr positive ↦
          elim (Option-cases (check_user_account_compatibility env.find user account w.db)) [
            | inl stranger ↦ rw (positive, stranger) (unfold withdraw_owned in refl)
            | inr (a, owner) ↦
                rw (positive, owner)
                  (withdraw_owned-effect env id user account other a amount w fresh)
          ]
    ]

-- The first delivery of an order changes the balances as the order says, if its handler reports
-- success, and else not at all.
pub deliver-refines :
    (env : Env) (o : Order) (w : World) (other : String)
    → IsFresh (order_id o) w.db
    → let (r, w') = deliver env o w in
      balances w' other ≡ changed_by r (shift o other) (balances w other)
unfolding deliver
deliver-refines env (pay_in id user account currency amount) w other fresh =
    deposit_handler-effect env id user account currency other amount w fresh
deliver-refines env (pay_out id user account amount) w other fresh =
    withdraw_handler-effect env id user account other amount w fresh
deliver-refines env (move id user from to currency amount) w other fresh =
    transfer_handler-effect env id user from to currency other amount w fresh
