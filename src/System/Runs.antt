-- ===== src/System/Runs.antt =====
-- What holds along every run of the wallet service.
use wallet_app.Base.{
  ◌≡◌, refl, ap, ◌∙◌, String, List, inl, inr, some, pos, ◌+ℤ◌, ◌≤ℤ◌, find_where, All-find,
  Bool-cases,
}
use wallet_app.Models.{AccountModel}
use wallet_app.Errors.{is_ok}
use wallet_app.Ledger.{has_id}
use wallet_app.Repository.Invariant.{IsValid}
use wallet_app.Repository.Movement.{balance-eq-ledger}
use wallet_app.Wallet.{World, Env}
use wallet_app.Wallet.Delivery.{IsFresh}
use wallet_app.Wallet.Handlers.{
  deposit_handler-IsValid, transfer_handler-IsValid, withdraw_handler-IsValid,
}
use wallet_app.Wallet.Accounts.Limits.{open_account-IsValid, open_account-transactions}
use wallet_app.System.{
  Order, pay_in, pay_out, move, order_id, deliver, Event, requested, relayed, delivered, opened,
  balance_read, step, IsAdmissible, carry_out, Run, start, next, Bank, balances, shift, apply_order,
  replay,
}
use wallet_app.System.Effects.Orders.{deliver-refines}
use wallet_app.System.Frames.{
  SameLedger, request-SameLedger, read_and_relay-SameLedger, get_balance-SameLedger,
}

-- The invariant is about the two ledger tables alone.
SameLedger-IsValid : (w w' : World) → SameLedger w w' → IsValid w.db → IsValid w'.db
SameLedger-IsValid w w' (accounts, transactions) valid = record {
  one_transaction = rw transactions valid.one_transaction;
  one_account = rw accounts valid.one_account;
  rows_allowed = rw transactions valid.rows_allowed;
  reconciled = rw (accounts, transactions) valid.reconciled;
  nonneg = rw accounts valid.nonneg;
}

deliver-IsValid :
    (env : Env) (o : Order) (w : World)
    → IsFresh (order_id o) w.db
    → IsValid w.db
    → IsValid (deliver env o w).1.db
unfolding deliver
deliver-IsValid env (pay_in id user account currency amount) w fresh valid =
    deposit_handler-IsValid env id user account currency amount w valid fresh
deliver-IsValid env (pay_out id user account amount) w fresh valid =
    withdraw_handler-IsValid env id user account amount w valid fresh
deliver-IsValid env (move id user from to currency amount) w fresh valid =
    transfer_handler-IsValid env id user from to currency amount w valid fresh

step-IsValid : (e : Event) (w : World) → IsAdmissible e w → IsValid w.db → IsValid (step e w).db
unfolding step
step-IsValid (requested env o) w _ valid =
    SameLedger-IsValid w (step (requested env o) w) (request-SameLedger env o w) valid
step-IsValid (relayed env claims batch) w _ valid =
    SameLedger-IsValid w (step (relayed env claims batch) w)
      (read_and_relay-SameLedger env claims batch w) valid
step-IsValid (delivered env o) w fresh valid = deliver-IsValid env o w fresh valid
step-IsValid (opened now finds inserts id user currency seen) w unused valid =
    open_account-IsValid now finds inserts id user currency seen w.db valid unused
step-IsValid (balance_read ttl now finds cache_fails user account) w _ valid =
    SameLedger-IsValid w (step (balance_read ttl now finds cache_fails user account) w)
      (get_balance-SameLedger ttl now finds cache_fails user account w) valid

-- Along every run that delivers each message once, whatever calls fail, the keys of the ledger
-- tables stay unique, their rows pass the checks, every stored balance is the sum of the completed
-- transactions, and none is negative.
pub Run-IsValid : {w w' : World} {done : List Order} → IsValid w.db → Run w done w' → IsValid w'.db
Run-IsValid valid start = valid
Run-IsValid valid (next {w'} run e admissible) =
    step-IsValid e w' admissible (Run-IsValid valid run)

-- A step takes the balances from one bank to another by the orders that it carries out.
step-replay :
    (e : Event) (w : World) (done : List Order) (b : Bank) (account : String)
    → IsAdmissible e w
    → balances w account ≡ replay done b account
    → balances (step e w) account ≡ replay (carry_out e w done) b account
unfolding step carry_out replay apply_order
step-replay (requested env o) w done b account _ same = rw ((request-SameLedger env o w).1) same
step-replay (relayed env claims batch) w done b account _ same =
    rw ((read_and_relay-SameLedger env claims batch w).1) same
step-replay (delivered env o) w done b account fresh same =
    elim (Bool-cases (is_ok (deliver env o w).0)) [
      | inl fine ↦
          rw (deliver-refines env o w account fresh, fine) (ap (λ x. x +ℤ shift o account) same)
      | inr failed ↦ rw (deliver-refines env o w account fresh, failed) same
    ]
step-replay (opened now finds inserts id user currency seen) w done b account _ same =
    rw (open_account-transactions now finds inserts id user currency seen w.db) same
step-replay (balance_read ttl now finds cache_fails user other) w done b account _ same =
    rw ((get_balance-SameLedger ttl now finds cache_fails user other w).1) same

run-replay :
    {w w' : World} {done : List Order} (account : String)
    → Run w done w'
    → balances w' account ≡ replay done (balances w) account
unfolding replay
run-replay account start = refl
run-replay {w} account (next {done} {w'} run e admissible) =
    step-replay e w' done (balances w) account admissible (run-replay account run)

-- The service is a bank: from a valid database, along every run that delivers each message once,
-- whatever calls fail, every stored balance is what the orders whose handlers reported success make
-- of the balances at the start, and is not negative.
pub Run-refines-Bank :
    {w w' : World} {done : List Order} (account : String) {a : AccountModel}
    → IsValid w.db
    → Run w done w'
    → find_where (has_id account) w'.db.accounts ≡ some a
    → (a.balance ≡ replay done (balances w) account) × (pos 0 ≤ℤ a.balance)
Run-refines-Bank {w' = w'} account valid run found =
    let valid' = Run-IsValid valid run in
    (
      balance-eq-ledger account w'.db valid' found ∙ run-replay account run,
      All-find _ (has_id account) w'.db.accounts valid'.nonneg found,
    )
