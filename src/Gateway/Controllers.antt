-- ===== src/Gateway/Controllers.antt =====
-- api-gateway/controllers: what each route does, and `ValidateAccount` of
-- api-gateway/internal/utils/validations.go.
use wallet_app.Base.{String, ◌||◌, Option, none, some, ◌==◌, ℤ, pos, if◌then◌else◌}
use wallet_app.Base.Decimal.{int8, int32}
use wallet_app.Models.{UserModel}
use wallet_app.Errors.{Error}
use wallet_app.Wallet.{World}
use wallet_app.Gateway.{
  Account, CreateUserRequest, LoginRequest, TransferFundsRequest, DepositFundsRequest,
  WithdrawFundsRequest, BodyDecoder, HttpRequest, Body, message, message_with, error_response,
  error_response_with, account_created, account_updated, user_authenticated, token_refreshed,
  transaction_started, balance_shown, transactions_shown, health, Answer, answered, panics, exits,
  Outcome, returned, failed, crashed,
}
use wallet_app.Gateway.Mapping.{convert_string_to_int}
use wallet_app.Gateway.Services.{
  Backend, transfer_funds, deposit_funds, withdraw_funds, get_balance, list_transactions,
  create_account_for, update_account, register_user, login_user, refresh_token,
}

abbrev pub Handler : Type 0
Handler = HttpRequest → World → Answer × World

-- A service's outcome as an answer: what it returned is shown, and an error has its own answer.
abbrev pub answer_with :
    {A : Type 0} → (A → Body) → (Error → Answer) → Outcome A × World → Answer × World
answer_with show fail (returned a, w) = (answered 200 (show a), w)
answer_with show fail (failed e, w) = (fail e, w)
answer_with show fail (crashed, w) = (panics, w)

abbrev pub bad_json : Answer
bad_json = answered 400 (message "failed to parse JSON data")

abbrev pub missing_user : Answer
missing_user = answered 400 (message "Invalid Request, missing userId")

unfoldable pub deposit_decoded : Backend → Option DepositFundsRequest → Handler
deposit_decoded b none req w = (bad_json, w)
deposit_decoded b (some d) req w =
    if req.query "userId" == ""
    then (missing_user, w)
    else answer_with transaction_started
        (λ e. answered 400 (message_with "Failed to deposit funds, reason: " e))
        (deposit_funds b (req.query "userId") d.account_id d.currency d.amount w)

-- `HandleDeposit`
unfoldable pub handle_deposit : BodyDecoder → Backend → Handler
handle_deposit decode b req w = deposit_decoded b (decode.deposit_funds req.body) req w

unfoldable pub withdraw_decoded : Backend → Option WithdrawFundsRequest → Handler
withdraw_decoded b none req w = (bad_json, w)
withdraw_decoded b (some d) req w =
    if req.query "userId" == ""
    then (missing_user, w)
    else answer_with transaction_started
        (λ e. answered 400 (message_with "Failed to withdraw funds, reason: " e))
        (withdraw_funds b (req.query "userId") d.account_id d.amount w)

-- `HandleWithdraw`
unfoldable pub handle_withdraw : BodyDecoder → Backend → Handler
handle_withdraw decode b req w = withdraw_decoded b (decode.withdraw_funds req.body) req w

unfoldable pub transfer_decoded : Backend → Option TransferFundsRequest → Handler
transfer_decoded b none req w = (bad_json, w)
transfer_decoded b (some d) req w =
    if req.query "userId" == ""
    then (missing_user, w)
    else answer_with transaction_started
        (λ e. answered 400 (message_with "Failed to transfer funds, reason: " e))
        (transfer_funds b (req.query "userId") d.from_account_id d.to_account_id d.currency d.amount
          w)

-- `HandleTransferFunds`
unfoldable pub handle_transfer_funds : BodyDecoder → Backend → Handler
handle_transfer_funds decode b req w = transfer_decoded b (decode.transfer_funds req.body) req w

-- `HandleGetBalance`
unfoldable pub handle_get_balance : Backend → Handler
handle_get_balance b req w =
    if (req.query "accountId" == "") || (req.query "userId" == "")
    then (answered 400 (message "Invalid Request, missing accountId or userId"), w)
    else answer_with balance_shown
        (λ e. answered 400 (message_with "Failed to retrieve balance, reason: " e))
        (get_balance b (req.query "userId") (req.query "accountId") w)

-- The page size is 0 beside an error, which is not looked at.
unfoldable pub size_or_zero : Option ℤ → ℤ
size_or_zero none = pos 0
size_or_zero (some n) = n

unfoldable pub list_page : Backend → Option ℤ → Handler
list_page b none req w = (exits, w)
list_page b (some page) req w =
    if (req.query "accountId" == "") || (req.query "page" == "")
    then (
      answered 400
          (message "Please provide required request data: owner accounts id, current page"),
      w,
    )
    else answer_with (λ resp. transactions_shown resp.transactions resp.next_page_token)
        (λ e. answered 400 (message_with "Failed to retrieve transactions, reason: " e))
        (list_transactions b (req.query "accountId") (int32 page)
          (int8 (size_or_zero (convert_string_to_int 8 (req.query "pageSize")))) w)

-- `HandleListTransactions`
unfoldable pub handle_list_transactions : Backend → Handler
handle_list_transactions b req w = list_page b (convert_string_to_int 16 (req.query "page")) req w

-- `ValidateAccount`: the text of the first error.
unfoldable pub validate_account : Account → Option String
validate_account account =
    if account.currency == ""
    then some "currency is required"
    else if account.owner_user == ""
    then some "owner user is required"
    else none

unfoldable pub create_validated : Backend → Account → Option String → World → Answer × World
create_validated b account (some error) w = (answered 400 (message error), w)
create_validated b account none w =
    answer_with (λ a. account_created "account created" a.id a.balance a.currency)
      (λ e. answered 400 (error_response_with "Account creation failed" e))
      (create_account_for b account w)

unfoldable pub create_decoded : Backend → Option Account → Handler
create_decoded b none req w = (bad_json, w)
create_decoded b (some a) req w =
    let account = record a { owner_user = req.query "userId" } in
    create_validated b account (validate_account account) w

-- `HandleAccountCreate`
unfoldable pub handle_account_create : BodyDecoder → Backend → Handler
handle_account_create decode b req w = create_decoded b (decode.account req.body) req w

unfoldable pub update_decoded : Option (String × String) → Handler
update_decoded none req w = (bad_json, w)
update_decoded (some (account, owner)) req w =
    answer_with (λ _. account_updated "account updated")
      (λ e. answered 500 (message "account update failed"))
      (update_account
        (record {
          id = account;
          balance = pos 0;
          currency = "";
          owner_user = owner;
          created_at = 0;
        })
        w)

-- `HandleAccountUpdate`
unfoldable pub handle_account_update : BodyDecoder → Handler
handle_account_update decode req w = update_decoded (decode.update_account req.body) req w

-- The domain user of a request.
abbrev pub user_of : String → String → String → String → UserModel
user_of name username email password = record {
  id = "";
  name = name;
  username = username;
  password = password;
  email = email;
  created_at = 0;
  updated_at = 0;
}

unfoldable pub register_decoded : Backend → Option CreateUserRequest → Handler
register_decoded b none req w = (bad_json, w)
register_decoded b (some d) req w =
    answer_with (λ auth. user_authenticated "user registered" auth.access_token)
      (λ e. answered 400 (error_response_with "User Registration Failed" e))
      (register_user b (user_of d.name d.username d.email d.password) w)

-- `HandleUserRegister`
unfoldable pub handle_user_register : BodyDecoder → Backend → Handler
handle_user_register decode b req w = register_decoded b (decode.create_user req.body) req w

unfoldable pub login_decoded : Backend → Option LoginRequest → Handler
login_decoded b none req w = (bad_json, w)
login_decoded b (some d) req w =
    answer_with (λ auth. user_authenticated "user authenticated" auth.access_token)
      (λ e. answered 400 (error_response "Login Failed" "Invalid Credentials"))
      (login_user b (user_of "" d.username "" d.password) w)

-- `HandleUserLogin`
unfoldable pub handle_user_login : BodyDecoder → Backend → Handler
handle_user_login decode b req w = login_decoded b (decode.login_user req.body) req w

unfoldable pub refresh_decoded : Option String → Handler
refresh_decoded none req w = (bad_json, w)
refresh_decoded (some token) req w =
    if token == ""
    then (answered 400 (message "refresh_token is required"), w)
    else answer_with token_refreshed (λ e. answered 401 (message "invalid refresh token"))
        (refresh_token token, w)

-- `HandleRefreshToken`
unfoldable pub handle_refresh_token : BodyDecoder → Handler
handle_refresh_token decode req w = refresh_decoded (decode.refresh_token req.body) req w

-- `HandleHealthLiveness` and `HandleHealthReadiness`
unfoldable pub handle_health_liveness : Handler
handle_health_liveness req w = (answered 200 (health "live"), w)

unfoldable pub handle_health_readiness : Handler
handle_health_readiness req w = (answered 200 (health "ready"), w)
