-- ===== src/Gateway/Mapping.antt =====
-- api-gateway/internal/mapping/mapper.go, and `ConvertStringToInt` of
-- api-gateway/internal/utils/conversions.go.
use wallet_app.Base.{ℕ, String, Option, none, some, List, [], ◌∷◌, ℤ}
use wallet_app.Base.Decimal.{Parsed, syntax, range, value, parse_int, itoa}
use wallet_app.Models.{UserModel}
use wallet_app.Protocol.{
  AccountProto, TransactionProto, CreateAccountRequest, GetBalanceRequest, DepositRequest,
  WithdrawRequest, TransferRequest, ListTransactionsRequest, ListTransactionsReply,
  RegisterUserRequest, LoginUserRequest, AuthenticateResponse,
}
use wallet_app.Gateway.{Account, Transaction, TransactionPage, UserAuth}

-- A missing timestamp leaves the zero time.
unfoldable pub time_of : Option ℕ → ℕ
time_of none = 0
time_of (some t) = t

-- `ToRegisterUserProto`
unfoldable pub to_register_user_proto : UserModel → RegisterUserRequest
to_register_user_proto user = record {
  id = user.id;
  name = user.name;
  username = user.username;
  email = user.email;
  password = user.password;
}

-- `ToLoginUserProto`
unfoldable pub to_login_user_proto : UserModel → LoginUserRequest
to_login_user_proto user = record { username = user.username; password = user.password }

-- `ToRegisterUserAuthDomain` and `ToLoginUserDomain`
unfoldable pub to_user_auth : AuthenticateResponse → UserAuth
to_user_auth resp = record { id = resp.id; access_token = resp.access_token }

-- `ToCreateAccountProto`
unfoldable pub to_create_account_proto : Account → CreateAccountRequest
to_create_account_proto account = record {
  owner_user = account.owner_user;
  currency = account.currency;
}

-- `ToAccountDomain`
unfoldable pub to_account_domain : Option AccountProto → Option Account
to_account_domain none = none
to_account_domain (some a) = some (record {
  id = a.id;
  balance = a.balance;
  currency = a.currency;
  owner_user = a.owner_user;
  created_at = time_of a.created_at;
})

-- `ToTransactionDomain`
unfoldable pub to_transaction_domain : Option TransactionProto → Option Transaction
to_transaction_domain none = none
to_transaction_domain (some t) = some (record {
  id = t.id;
  from_account = t.from_account;
  to_account = t.to_account;
  amount = t.amount;
  currency = t.currency;
  status = t.status;
  created_at = time_of t.created_at;
  updated_at = time_of t.updated_at;
})

-- `ToDepositFundsProto`
unfoldable pub to_deposit_funds_proto : String → String → String → ℤ → DepositRequest
to_deposit_funds_proto user account currency amount = record {
  account_id = account;
  amount = amount;
  user_id = user;
  currency = currency;
}

-- `ToWithdrawFundsProto`
unfoldable pub to_withdraw_funds_proto : String → String → ℤ → String → WithdrawRequest
to_withdraw_funds_proto user account amount key = record {
  account_id = account;
  amount = amount;
  transaction_id = key;
  user_id = user;
}

-- `ToTransferFundsProto`
unfoldable pub to_transfer_funds_proto :
    String → String → String → String → ℤ → String → TransferRequest
to_transfer_funds_proto user from to currency amount key = record {
  from_account_id = from;
  to_account_id = to;
  currency = currency;
  amount = amount;
  idempotency_key = key;
  user_id = user;
}

-- `ToGetBalanceProto`
unfoldable pub to_get_balance_proto : String → String → GetBalanceRequest
to_get_balance_proto user account = record { account_id = account; user_id = user }

-- `ToListTransactionsProto`: the page is an int32 and the page size an int8, which fit the wider
-- types that they are put into.
unfoldable pub to_list_transactions_proto : String → ℤ → ℤ → ListTransactionsRequest
to_list_transactions_proto account page page_size = record {
  account_id = account;
  page_size = page_size;
  page = itoa page;
}

-- The loop of `ToListTransactionsDomain`, which leaves out what is nil.
unfoldable pub keep_some : Option Transaction → List Transaction → List Transaction
keep_some none ts = ts
keep_some (some t) ts = t ∷ ts

unfoldable pub to_transactions : List (Option TransactionProto) → List Transaction
to_transactions [] = []
to_transactions (t ∷ ts) = keep_some (to_transaction_domain t) (to_transactions ts)

-- `ToListTransactionsDomain`
unfoldable pub to_transaction_page : ListTransactionsReply → TransactionPage
to_transaction_page resp = record {
  transactions = to_transactions resp.transactions;
  next_page_token = resp.next_page_token;
}

-- `ConvertStringToInt` in base 10: no number beside an error.
unfoldable pub without_error : Parsed ℤ → Option ℤ
without_error syntax = none
without_error (range n) = none
without_error (value n) = some n

unfoldable pub convert_string_to_int : ℕ → String → Option ℤ
convert_string_to_int bits s = without_error (parse_int bits s)
