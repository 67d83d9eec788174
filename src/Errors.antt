-- ===== src/Errors.antt =====
-- Errors as values. A Go error is named by its first cause: the text that `fmt.Errorf` wraps around
-- it (`%w`) is dropped, since `errors.Is` looks through it.
use wallet_app.Base.{Bool, true, false}

pub data Error : Type 0 where
  -- a call of the database driver or of the cache client that fails
  db_error cache_error no_rows : Error
  -- a constraint of the schema
  unique_violation foreign_key_violation check_violation out_of_range : Error
  -- the wallet repository
  amount_not_positive first_account_rejected second_account_rejected account_not_found : Error
  insufficient_balance no_transaction transaction_in_progress no_outbox_row : Error
  -- the wallet service
  user_id_required currency_required account_id_required too_many_accounts : Error
  not_account_owner balance_exceeds_limit : Error
  -- the authentication service
  invalid_credentials already_logged_in token_not_generated user_exists empty_password : Error
  hash_failed name_required username_required username_invalid email_required : Error
  email_invalid password_too_short password_weak : Error
  -- the messages
  invalid_message publish_failed handler_panicked not_connected no_brokers not_implemented cancelled
        rpc_failed :
      Error

pub data Result {ℓ} (A : Type ℓ) : Type ℓ where
  ok : A → Result A
  err : Error → Result A

abbrev pub is_ok {ℓ} : {A : Type ℓ} → Result A → Bool
is_ok (ok _) = true
is_ok (err _) = false
