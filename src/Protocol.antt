-- ===== src/Protocol.antt =====
-- The messages of shared/proto/wallet.proto and shared/proto/auth.proto. A field that is a message
-- may be missing; a timestamp counts whole seconds.
use wallet_app.Base.{ℕ, String, Option, List, ℤ}

pub record AccountProto : Type 0 where
  pub id : String
  pub balance : ℤ
  pub currency : String
  pub owner_user : String
  pub created_at : Option ℕ

pub record TransactionProto : Type 0 where
  pub id : String
  pub from_account : String
  pub to_account : String
  pub amount : ℤ
  pub currency : String
  pub status : String
  pub created_at : Option ℕ
  pub updated_at : Option ℕ

pub record CreateAccountRequest : Type 0 where
  pub owner_user : String
  pub currency : String

pub record CreateAccountResponse : Type 0 where
  pub account : Option AccountProto

pub record GetBalanceRequest : Type 0 where
  pub account_id : String
  pub user_id : String

pub record GetBalanceResponse : Type 0 where
  pub balance : ℤ
  pub currency : String

pub record DepositRequest : Type 0 where
  pub account_id : String
  pub amount : ℤ
  pub user_id : String
  pub currency : String

pub record WithdrawRequest : Type 0 where
  pub account_id : String
  pub amount : ℤ
  pub transaction_id : String
  pub user_id : String

pub record TransferRequest : Type 0 where
  pub from_account_id : String
  pub to_account_id : String
  pub currency : String
  pub amount : ℤ
  pub idempotency_key : String
  pub user_id : String

-- `DepositResponse`, `WithdrawResponse` (whose balance is never filled) and `TransferResponse`.
pub record TransactionResponse : Type 0 where
  pub transaction : Option TransactionProto

pub record ListTransactionsRequest : Type 0 where
  pub account_id : String
  pub page_size : ℤ
  pub page : String

pub record ListTransactionsReply : Type 0 where
  pub transactions : List (Option TransactionProto)
  pub next_page_token : String

pub record RegisterUserRequest : Type 0 where
  pub id : String
  pub name : String
  pub username : String
  pub email : String
  pub password : String

pub record LoginUserRequest : Type 0 where
  pub username : String
  pub password : String

-- `RegisterUserResponse` and `LoginUserResponse`.
pub record AuthenticateResponse : Type 0 where
  pub id : String
  pub access_token : String
