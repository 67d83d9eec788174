-- ===== src/Gateway.antt =====
-- The API gateway: the types of api-gateway/internal/domain/domain.go and
-- api-gateway/internal/infra/http/http.go, its gRPC clients, and the answers that it writes
-- (api-gateway/internal/utils/http.go).
pub mod Mapping
pub mod Services
pub mod Controllers
pub mod Middleware
pub mod Routes
pub mod Authorization
pub mod Guards
pub mod Accepted
pub mod Journey
pub mod Pages
pub mod Credentials
use wallet_app.Base.{ℕ, String, Bool, true, false, Option, none, some, List, ℤ}
use wallet_app.Errors.{Error, Result, ok, err, rpc_failed}
use wallet_app.Wallet.{World}

-- The types of the domain; Go's zero time is 0. The lists of transactions that `Account` could hold
-- and the fields of `UserAuth` that nothing fills are left out.
pub record Account : Type 0 where
  pub id : String
  pub balance : ℤ
  pub currency : String
  pub owner_user : String
  pub created_at : ℕ

pub record Transaction : Type 0 where
  pub id : String
  pub from_account : String
  pub to_account : String
  pub amount : ℤ
  pub currency : String
  pub status : String
  pub created_at : ℕ
  pub updated_at : ℕ

pub record TransactionPage : Type 0 where
  pub transactions : List Transaction
  pub next_page_token : String

pub record Balance : Type 0 where
  pub account_id : String
  pub balance : ℤ
  pub currency : String

pub record UserAuth : Type 0 where
  pub id : String
  pub access_token : String

-- The bodies of the requests.
pub record CreateUserRequest : Type 0 where
  pub name : String
  pub username : String
  pub email : String
  pub password : String

pub record LoginRequest : Type 0 where
  pub email : String
  pub username : String
  pub password : String

pub record TransferFundsRequest : Type 0 where
  pub from_account_id : String
  pub to_account_id : String
  pub currency : String
  pub amount : ℤ

pub record DepositFundsRequest : Type 0 where
  pub account_id : String
  pub currency : String
  pub amount : ℤ

pub record WithdrawFundsRequest : Type 0 where
  pub account_id : String
  pub amount : ℤ

-- The decoders of encoding/json, which fail on a text that is no JSON of the type.
pub record BodyDecoder : Type 0 where
  pub create_user : String → Option CreateUserRequest
  pub login_user : String → Option LoginRequest
  pub refresh_token : String → Option String
  pub account : String → Option Account
  pub update_account : String → Option (String × String)
  pub transfer_funds : String → Option TransferFundsRequest
  pub deposit_funds : String → Option DepositFundsRequest
  pub withdraw_funds : String → Option WithdrawFundsRequest

-- A request: its method, its path, the header Authorization, the first value of each key of its
-- query, and its body. What is missing is empty.
pub record HttpRequest : Type 0 where
  pub method : String
  pub path : String
  pub authorization : String
  pub query : String → String
  pub body : String

-- What is written: a text, a text with the text of an error behind it, `ErrorResponse`, the same
-- with the text of an error as its reason, or the JSON of a response.
pub data Body : Type 0 where
  message : String → Body
  message_with : String → Error → Body
  error_response : (error reason : String) → Body
  error_response_with : String → Error → Body
  account_created : (status account_id : String) → ℤ → (currency : String) → Body
  account_updated : String → Body
  user_authenticated : (status access_token : String) → Body
  token_refreshed : String → Body
  transaction_started : Transaction → Body
  balance_shown : Balance → Body
  transactions_shown : List Transaction → String → Body
  health : String → Body

-- A status with a body, a handler that panics (net/http then closes the connection), or a gateway
-- that exits (`log.Fatalf`).
pub data Answer : Type 0 where
  answered : ℕ → Body → Answer
  panics : Answer
  exits : Answer

-- What a service of the gateway returns.
pub data Outcome (A : Type 0) : Type 0 where
  returned : A → Outcome A
  failed : Error → Outcome A
  crashed : Outcome A

-- What becomes of a gRPC call: it comes back, it never reaches the service, or it is carried out
-- but its answer is lost.
pub data Connection : Type 0 where
  works unreachable answer_lost : Connection

abbrev pub lose : {A : Type 0} → Result A × World → Result A × World
lose (r, w) = (err rpc_failed, w)

unfoldable pub call :
    {A : Type 0} → Connection → (World → Result A × World) → World → Result A × World
call works rpc w = rpc w
call unreachable rpc w = (err rpc_failed, w)
call answer_lost rpc w = lose (rpc w)
