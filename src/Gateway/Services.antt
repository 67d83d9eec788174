-- ===== src/Gateway/Services.antt =====
-- The services of the gateway: api-gateway/internal/services/wallet_service.go, account_service.go
-- and user_service.go.
use Prim.Native.String.{len}
use wallet_app.Base.{String, ◌||◌, Option, none, some, ◌==◌, ℤ, ltb, if◌then◌else◌}
use wallet_app.Models.{UserModel}
use wallet_app.Errors.{Result, ok, err, invalid_credentials, password_too_short, not_implemented}
use wallet_app.Wallet.{World}
use wallet_app.Messages.{RequestEnv}
use wallet_app.Auth.Login.{AuthEnv}
use wallet_app.Auth.Register.{RegisterEnv, register, login}
use wallet_app.Protocol.{TransactionResponse, CreateAccountResponse, AuthenticateResponse}
use wallet_app.Rpc.{ServiceEnv, deposit, withdraw, transfer, create_account, balance, list}
use wallet_app.Gateway.{
  Account, Transaction, TransactionPage, Balance, UserAuth, Outcome, returned, failed, crashed,
  Connection, call,
}
use wallet_app.Gateway.Mapping.{
  to_register_user_proto, to_login_user_proto, to_user_auth, to_create_account_proto,
  to_account_domain, to_transaction_domain, to_deposit_funds_proto, to_withdraw_funds_proto,
  to_transfer_funds_proto, to_get_balance_proto, to_list_transactions_proto, to_transaction_page,
}

-- The gateway and the services behind it: the connections to the two services, the id that
-- `uuid.NewString` makes in the gateway, and what the handlers of the services depend on.
pub record Backend : Type 0 where
  pub wallet : Connection
  pub auth : Connection
  pub key : String
  pub requests : RequestEnv
  pub service : ServiceEnv
  pub registers : RegisterEnv
  pub logins : AuthEnv

abbrev pub then_return : {A B : Type 0} → (A → Outcome B) → Result A × World → Outcome B × World
then_return f (ok a, w) = (f a, w)
then_return f (err e, w) = (failed e, w)

-- The log line reads a field of the transaction, which must not be nil.
unfoldable pub logged : Option Transaction → Outcome Transaction
logged none = crashed
logged (some t) = returned t

unfoldable pub started : TransactionResponse → Outcome Transaction
started resp = logged (to_transaction_domain resp.transaction)

-- `TransferFunds`
unfoldable pub transfer_funds :
    Backend → String → String → String → String → ℤ → World → Outcome Transaction × World
transfer_funds b user from to currency amount w = then_return started (
    call b.wallet (transfer b.requests (to_transfer_funds_proto user from to currency amount b.key))
      w)

-- `DepositFunds`
unfoldable pub deposit_funds :
    Backend → String → String → String → ℤ → World → Outcome Transaction × World
deposit_funds b user account currency amount w =
    then_return started
      (call b.wallet (deposit b.requests (to_deposit_funds_proto user account currency amount)) w)

-- `WithdrawFunds`
unfoldable pub withdraw_funds : Backend → String → String → ℤ → World → Outcome Transaction × World
withdraw_funds b user account amount w =
    then_return started
      (call b.wallet (withdraw b.requests (to_withdraw_funds_proto user account amount b.key)) w)

-- `GetBalance`
unfoldable pub get_balance : Backend → String → String → World → Outcome Balance × World
get_balance b user account w =
    then_return
      (λ resp.
        returned
          (record { account_id = account; balance = resp.balance; currency = resp.currency }))
      (call b.wallet (balance b.service (to_get_balance_proto user account)) w)

-- `ListTransactions`
unfoldable pub list_transactions :
    Backend → String → ℤ → ℤ → World → Outcome TransactionPage × World
list_transactions b account page page_size w =
    then_return (λ resp. returned (to_transaction_page resp))
      (call b.wallet (list b.service (to_list_transactions_proto account page page_size)) w)

-- An account that the service does not send back stays as it was.
unfoldable pub created : Account → CreateAccountResponse → Outcome Account
created account resp = elim (to_account_domain resp.account) [
  | none ↦ returned account
  | some a ↦ returned a
]

-- `CreateAccount`
unfoldable pub create_account_for : Backend → Account → World → Outcome Account × World
create_account_for b account w =
    then_return (created account)
      (call b.wallet (create_account b.service (to_create_account_proto account)) w)

-- `UpdateAccount`
unfoldable pub update_account : Account → World → Outcome Account × World
update_account account w = (returned account, w)

-- `RegisterUser`: the call is made first, and its answer is looked at last.
unfoldable pub checked_credentials :
    UserModel → Result AuthenticateResponse × World → Outcome UserAuth × World
checked_credentials user (r, w) =
    if (user.username == "") || (user.password == "")
    then (failed invalid_credentials, w)
    else if ltb (len user.password) 6
    then (failed password_too_short, w)
    else then_return (λ resp. returned (to_user_auth resp)) (r, w)

unfoldable pub register_user : Backend → UserModel → World → Outcome UserAuth × World
register_user b user w =
    checked_credentials user (call b.auth (register b.registers (to_register_user_proto user)) w)

-- `LoginUser`
unfoldable pub login_user : Backend → UserModel → World → Outcome UserAuth × World
login_user b user w =
    if (user.username == "") || (user.password == "")
    then (failed invalid_credentials, w)
    else if ltb (len user.password) 6
    then (failed invalid_credentials, w)
    else then_return (λ resp. returned (to_user_auth resp))
        (call b.auth (login b.logins (to_login_user_proto user)) w)

-- `RefreshToken`
unfoldable pub refresh_token : String → Outcome String
refresh_token token = failed not_implemented
