-- ===== src/Rpc.antt =====
-- wallet-service/internal/infra/grpc/grpc.go with wallet-service/internal/mapping/mapper.go: the
-- calls of the wallet service, from the messages of the protocol to the operations and back.
use wallet_app.Base.{ℕ, String, Option, none, some, map, ℤ, pos}
use wallet_app.Base.Decimal.{itoa, atoi, int8, int32}
use wallet_app.Models.{AccountModel, TransactionModel, TransactionStatus}
use wallet_app.Errors.{Result, ok, err, not_implemented}
use wallet_app.Store.{Db, Faults}
use wallet_app.Cache.{Ttl, CacheFaults}
use wallet_app.Wallet.{World}
use wallet_app.Wallet.Accounts.{open_account, get_balance}
use wallet_app.Wallet.Listing.{ListTransactionsResponse, list_transactions}
use wallet_app.Messages.{RequestEnv, request_deposit, request_withdrawal, request_transfer}
use wallet_app.Protocol.{
  AccountProto, TransactionProto, CreateAccountRequest, CreateAccountResponse, GetBalanceRequest,
  GetBalanceResponse, DepositRequest, WithdrawRequest, TransferRequest, TransactionResponse,
  ListTransactionsRequest, ListTransactionsReply,
}

abbrev pub map_ok : {A B : Type 0} → (A → B) → Result A × World → Result B × World
map_ok f (ok a, w) = (ok (f a), w)
map_ok f (err e, w) = (err e, w)

-- `string(t.Status)`
unfoldable pub status_text : TransactionStatus → String
status_text TransactionStatus.pending = "pending"
status_text TransactionStatus.completed = "completed"
status_text TransactionStatus.failed = "failed"
status_text TransactionStatus.rejected = "rejected"

-- `ToAccountProto`
unfoldable pub to_account_proto : Option AccountModel → Option AccountProto
to_account_proto none = none
to_account_proto (some a) = some (record {
  id = a.id;
  balance = a.balance;
  currency = a.currency;
  owner_user = a.user_id;
  created_at = some a.created_at;
})

-- `ToTransactionProto`
unfoldable pub to_transaction_proto : Option TransactionModel → Option TransactionProto
to_transaction_proto none = none
to_transaction_proto (some t) = some (record {
  id = t.id;
  from_account = t.from_account;
  to_account = t.to_account;
  amount = t.amount;
  currency = t.currency;
  status = status_text t.status;
  created_at = some t.created_at;
  updated_at = some t.updated_at;
})

-- The account id, the page and the page size of a list request.
pub record ListRequest : Type 0 where
  pub account_id : String
  pub page : ℤ
  pub page_size : ℤ

-- `ToListTransactionsDomain`: the error of `Atoi` is dropped.
unfoldable pub to_list_request : ListTransactionsRequest → ListRequest
to_list_request req = record {
  account_id = req.account_id;
  page = int32 (atoi req.page);
  page_size = int8 req.page_size;
}

-- The token of the next page, which the service prints with `strconv.Itoa`.
unfoldable pub token_text : Option ℕ → String
token_text none = ""
token_text (some page) = itoa (pos page)

-- `ToListTransactionsProto`
unfoldable pub to_list_reply : ListTransactionsResponse → ListTransactionsReply
to_list_reply resp = record {
  transactions = map (λ t. to_transaction_proto (some t)) resp.transactions;
  next_page_token = token_text resp.next_page_token;
}

abbrev pub transaction_response : TransactionModel → TransactionResponse
transaction_response t = record { transaction = to_transaction_proto (some t) }

-- `Deposit`
unfoldable pub deposit : RequestEnv → DepositRequest → World → Result TransactionResponse × World
deposit env req w =
    map_ok transaction_response
      (request_deposit env req.user_id req.account_id req.currency req.amount w)

-- `Withdraw`
unfoldable pub withdraw : RequestEnv → WithdrawRequest → World → Result TransactionResponse × World
withdraw env req w =
    map_ok transaction_response
      (request_withdrawal env req.transaction_id req.user_id req.account_id req.amount w)

-- `Transfer`
unfoldable pub transfer : RequestEnv → TransferRequest → World → Result TransactionResponse × World
transfer env req w = map_ok transaction_response (
    request_transfer env req.idempotency_key req.user_id req.from_account_id req.to_account_id
      req.currency req.amount w)

-- The time, the calls that fail in the methods that answer at once, the lifetimes of the cache, the
-- id of a new account, and the database in which its opening has read the accounts.
pub record ServiceEnv : Type 0 where
  pub now : ℕ
  pub finds : Faults
  pub inserts : Faults
  pub selects : Faults
  pub cache_fails : CacheFaults
  pub ttl : Ttl
  pub account_id : String
  pub seen : Db

-- `CreateAccount`
unfoldable pub create_account :
    ServiceEnv → CreateAccountRequest → World → Result CreateAccountResponse × World
create_account env req w =
    let (r, db') =
      open_account env.now env.finds env.inserts env.account_id req.owner_user req.currency env.seen
        w.db in
    map_ok (λ a. record { account = to_account_proto (some a) }) (r, record w { db = db' })

-- `GetBalance`
unfoldable pub balance : ServiceEnv → GetBalanceRequest → World → Result GetBalanceResponse × World
balance env req w =
    map_ok (λ a. record { balance = a.balance; currency = a.currency })
      (get_balance env.ttl env.now env.finds env.cache_fails req.user_id req.account_id w)

-- `ListTransactions`
unfoldable pub list :
    ServiceEnv → ListTransactionsRequest → World → Result ListTransactionsReply × World
list env req w =
    let r = to_list_request req in
    map_ok to_list_reply (list_transactions env.selects r.account_id r.page r.page_size w.db, w)

-- `StreamTransactions`
unfoldable pub stream_transactions : String → Result (Unit {0})
stream_transactions account = err not_implemented
