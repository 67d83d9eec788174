-- ===== src/Models.antt =====
-- shared/pkg/models/model.go and the tables of shared/migrations: the rows that the services store
-- and the values that they pass on. Times are whole seconds. `AccountModel.Transactions` is a
-- relation that no query fills, and is left out.
use wallet_app.Base.{ℕ, String, Option, Bool, true, false, ℤ}

-- `TransactionStatus`, and the SQL enum transaction_status.
pub data TransactionStatus : Type 0 where
  pending completed failed rejected : TransactionStatus

-- The SQL enum transaction_type.
pub data TransactionType : Type 0 where
  transfer deposit withdrawal : TransactionType

pub record AccountModel : Type 0 where
  pub id : String
  pub user_id : String
  pub created_at : ℕ
  pub updated_at : ℕ
  pub balance : ℤ
  pub currency : String

pub record TransactionModel : Type 0 where
  pub id : String
  pub from_account : String
  pub to_account : String
  pub amount : ℤ
  pub currency : String
  pub status : TransactionStatus
  pub created_at : ℕ
  pub updated_at : ℕ

-- A row of the table `transactions`: the model and the column that no query reads back.
pub record TransactionRow : Type 0 where
  pub model : TransactionModel
  pub open model use *
  pub transaction_type : TransactionType

pub record UserModel : Type 0 where
  pub id : String
  pub name : String
  pub username : String
  pub password : String
  pub email : String
  pub created_at : ℕ
  pub updated_at : ℕ

pub record UserAuthModel : Type 0 where
  pub id : String
  pub refresh_token : String
  pub user_id : String
  pub is_currently_logged_in : Bool
  pub created_at : ℕ
  pub updated_at : ℕ

-- The values that the gRPC handlers put into the `map[string]interface{}` of an outbox payload.
pub data Json : Type 0 where
  text : String → Json
  number : ℤ → Json

-- A JSON object by its keys.
abbrev pub JsonObject : Type 0
JsonObject = String → Option Json

-- `OutboxStatus`, and the SQL enum outbox_status.
pub data OutboxStatus : Type 0 where
  pending claimed published failed : OutboxStatus

-- A row of the table `transaction_outbox`: the model and the two columns of the retry backoff.
pub record OutboxModel : Type 0 where
  pub id : String
  pub aggregate_type : String
  pub aggregate_id : String
  pub event_type : String
  pub payload : JsonObject
  pub topic : String
  pub partition_key : String
  pub idempotency_key : String
  pub status : OutboxStatus
  pub error_message : Option String
  pub created_at : ℕ
  pub updated_at : ℕ
  pub published_at : Option ℕ
  pub retry_count : ℕ
  pub next_attempt_at : ℕ

-- The tests `status = '…'` of the queries.
abbrev pub is_pending : TransactionStatus → Bool
is_pending TransactionStatus.pending = true
is_pending _ = false

abbrev pub is_completed : TransactionStatus → Bool
is_completed TransactionStatus.completed = true
is_completed _ = false
