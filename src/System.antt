-- ===== src/System.antt =====
-- The wallet service as one system: requests enter the outbox, the relay publishes them, messages
-- are delivered to the handlers, accounts are opened and balances are read, in any order and with
-- any calls failing. A message is delivered once here; Wallet.Replays is about redelivery.
pub mod Effects
pub mod Frames
pub mod Runs
use wallet_app.Base.{
  ℕ, ◌≡◌, String, Bool, false, List, [], ◌∷◌, ◌==◌, ℤ, pos, ◌+ℤ◌, neg, All, if◌then◌else◌,
}
use wallet_app.Models.{TransactionModel}
use wallet_app.Errors.{Result, is_ok}
use wallet_app.Store.{Db, Faults}
use wallet_app.Ledger.{ledger_balance}
use wallet_app.Ledger.Balance.{touches}
use wallet_app.Cache.{Ttl, CacheFaults}
use wallet_app.Wallet.{World, Env, deposit_handler, withdraw_handler, transfer_handler}
use wallet_app.Wallet.Delivery.{IsFresh}
use wallet_app.Wallet.Accounts.{open_account, get_balance}
use wallet_app.Outbox.Relay.{RelayEnv, read_and_relay}
use wallet_app.Messages.{RequestEnv, request_deposit, request_withdrawal, request_transfer}

-- The three requests, with the id of their transaction.
pub data Order : Type 0 where
  pay_in : (id user account currency : String) → ℤ → Order
  pay_out : (id user account : String) → ℤ → Order
  move : (id user from to currency : String) → ℤ → Order

abbrev pub order_id : Order → String
order_id (pay_in id user account currency amount) = id
order_id (pay_out id user account amount) = id
order_id (move id user from to currency amount) = id

-- The message of an order comes to its handler.
unfoldable pub deliver : Env → Order → World → Result TransactionModel × World
deliver env (pay_in id user account currency amount) =
    deposit_handler env id user account currency amount
deliver env (pay_out id user account amount) = withdraw_handler env id user account amount
deliver env (move id user from to currency amount) =
    transfer_handler env id user from to currency amount

-- The gRPC request of an order; a deposit gets its id from the service.
unfoldable pub request : RequestEnv → Order → World → Result TransactionModel × World
request env (pay_in id user account currency amount) =
    request_deposit (record env { new_id = id }) user account currency amount
request env (pay_out id user account amount) = request_withdrawal env id user account amount
request env (move id user from to currency amount) =
    request_transfer env id user from to currency amount

-- An opening inserts into the database as it is, and has read the accounts of any other.
pub data Event : Type 0 where
  requested : RequestEnv → Order → Event
  relayed : RelayEnv → Faults → ℕ → Event
  delivered : Env → Order → Event
  opened : (now : ℕ) (finds inserts : Faults) (id user currency : String) (seen : Db) → Event
  balance_read : Ttl → (now : ℕ) → Faults → CacheFaults → (user account : String) → Event

unfoldable pub step : Event → World → World
step (requested env o) w = (request env o w).1
step (relayed env claims batch) w = (read_and_relay env claims batch w).1
step (delivered env o) w = (deliver env o w).1
step (opened now finds inserts id user currency seen) w = record w {
  db = (open_account now finds inserts id user currency seen w.db).1;
}
step (balance_read ttl now finds cache_fails user account) w =
    (get_balance ttl now finds cache_fails user account w).1

-- A message is delivered once, and the id of a new account is in no transaction.
abbrev pub IsAdmissible : Event → World → Type 0
IsAdmissible (delivered env o) w = IsFresh (order_id o) w.db
IsAdmissible (opened now finds inserts id user currency seen) w =
    All (λ r. touches id r ≡ false) w.db.transactions
IsAdmissible _ w = Unit

-- The orders that were carried out, the last one first.
unfoldable pub carry_out : Event → World → List Order → List Order
carry_out (delivered env o) w done = if is_ok (deliver env o w).0 then o ∷ done else done
carry_out _ w done = done

pub data Run (w : World) : List Order → World → Type 0 where
  start : Run w [] w
  next :
      {done : List Order} {w' : World}
      → Run w done w'
      → (e : Event) → IsAdmissible e w'
      → Run w (carry_out e w' done) (step e w')

-- What the accounts hold, as a bank sees it: no rows, no statuses, no outbox.
abbrev pub Bank : Type 0
Bank = String → ℤ

abbrev pub balances : World → Bank
balances w account = ledger_balance account w.db.transactions

-- What an order does to an account.
unfoldable pub shift : Order → String → ℤ
shift (pay_in id user account currency amount) other = if account == other then amount else pos 0
shift (pay_out id user account amount) other = if account == other then neg amount else pos 0
shift (move id user from to currency amount) other =
    if to == other then amount else if from == other then neg amount else pos 0

unfoldable pub apply_order : Order → Bank → Bank
apply_order o b account = b account +ℤ shift o account

unfoldable pub replay : List Order → Bank → Bank
replay [] b = b
replay (o ∷ done) b = apply_order o (replay done b)
