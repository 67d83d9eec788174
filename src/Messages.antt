-- ===== src/Messages.antt =====
-- The way of a request: wallet-service/internal/infra/grpc/grpc.go enqueues it, and
-- wallet-service/internal/services/event_dispatcher.go and the `Handle…Dispatched` methods of
-- wallet-serice.go run it when its message comes back from Kafka. Reading JSON is not under the
-- repository and is a parameter (`Decoder`); which keys are written, and which are read, is here.
pub mod Consumer
pub mod Roundtrip
pub mod Amounts
pub mod Offsets
use wallet_app.Base.{
  ℕ, ◌+◌, String, Bool, true, false, Option, none, some, List, [], ◌∷◌, ◌++◌, ◌==◌, ℤ, pos,
  in_int64, if◌then◌else◌,
}
use wallet_app.Models.{TransactionModel, TransactionStatus, Json, JsonObject}
use wallet_app.Errors.{Error, Result, ok, err, invalid_message, handler_panicked, not_implemented}
use wallet_app.Store.{Faults}
use wallet_app.Cache.{CacheFaults}
use wallet_app.Wallet.{World, Env, deposit_handler, withdraw_handler, transfer_handler}
use wallet_app.Outbox.Relay.{Envelope, insert_outbox_relay}

-- The event types of shared/events/contracts.go.
abbrev pub deposit_requested : String
deposit_requested = "transaction.deposit.requested"

abbrev pub withdrawal_requested : String
withdrawal_requested = "transaction.withdrawal.requested"

abbrev pub transfer_requested : String
transfer_requested = "transaction.transfer.requested"

-- The pending transaction that a handler answers with; Go's zero time is 0.
unfoldable pub pending_transaction : String → String → String → ℤ → String → TransactionModel
pending_transaction id from to amount currency = record {
  id = id;
  from_account = from;
  to_account = to;
  amount = amount;
  currency = currency;
  status = TransactionStatus.pending;
  created_at = 0;
  updated_at = 0;
}

-- The map that a gRPC handler builds; that of a withdrawal has no currency.
unfoldable pub payload_of : TransactionModel → Option String → String → JsonObject
payload_of t currency user key =
    if key == "ID"
    then some (Json.text t.id)
    else if key == "FromAccount"
    then some (Json.text t.from_account)
    else if key == "ToAccount"
    then some (Json.text t.to_account)
    else if key == "Amount"
    then some (Json.number t.amount)
    else if key == "Currency"
    then mathlib.Core.Option.map Json.text currency
    else if key == "UserId"
    then some (Json.text user)
    else none

-- What an enqueued request is answered with.
unfoldable pub answer :
    TransactionModel → Result (Unit {0}) × World → Result TransactionModel × World
answer t (ok u, w) = (ok t, w)
answer t (err e, w) = (err e, w)

-- The time, the calls that fail, the topic, and the ids that `uuid.NewString` and the database make.
pub record RequestEnv : Type 0 where
  pub now : ℕ
  pub insert : Faults
  pub cache_fails : CacheFaults
  pub topic : String
  pub new_id : String
  pub row_id : String

unfoldable pub enqueue :
    RequestEnv
    → TransactionModel
    → Option String
    → String
    → String
    → String
    → World
    → Result TransactionModel × World
enqueue env t currency event partition user w = answer t (
    insert_outbox_relay env.now env.insert env.cache_fails env.row_id env.topic "transaction" t.id
      event partition user (payload_of t currency user) w)

-- `Deposit` of the gRPC handler.
unfoldable pub request_deposit :
    RequestEnv → String → String → String → ℤ → World → Result TransactionModel × World
request_deposit env user account currency amount =
    enqueue env (pending_transaction env.new_id account account amount currency) (some currency)
      deposit_requested account user

unfoldable pub or_new : String → String → String
or_new new id = if id == "" then new else id

-- `Withdraw` of the gRPC handler.
unfoldable pub request_withdrawal :
    RequestEnv → String → String → String → ℤ → World → Result TransactionModel × World
request_withdrawal env id user account amount =
    enqueue env (pending_transaction (or_new env.new_id id) account account amount "") none
      withdrawal_requested account user

-- `Transfer` of the gRPC handler: the idempotency key of the request is the id.
unfoldable pub request_transfer :
    RequestEnv
    → String
    → String
    → String
    → String
    → String
    → ℤ
    → World
    → Result TransactionModel × World
request_transfer env key user from to currency amount =
    enqueue env (pending_transaction (or_new env.new_id key) from to amount currency)
      (some currency) transfer_requested from user

-- What `json.Unmarshal` reads: the object that is a payload, and an envelope.
pub record Decoder : Type 0 where
  pub unmarshal_object : String → Option JsonObject
  pub unmarshal_envelope : String → Option Envelope

-- The three requested payloads; that of a withdrawal leaves the currency empty.
pub record Payload : Type 0 where
  pub id : String
  pub from_account : String
  pub to_account : String
  pub amount : ℤ
  pub currency : String
  pub user_id : String

-- A field of a struct: a missing key leaves the zero value, and a value of another type, or a number
-- that is no int64, is an error.
unfoldable pub text_field : Option Json → Option String
text_field none = some ""
text_field (some (Json.text s)) = some s
text_field (some (Json.number n)) = none

unfoldable pub number_field : Option Json → Option ℤ
number_field none = some (pos 0)
number_field (some (Json.text s)) = none
number_field (some (Json.number n)) = if in_int64 n then some n else none

unfoldable pub fields_of :
    Option String
    → Option String
    → Option String
    → Option ℤ
    → Option String
    → Option String
    → Option Payload
fields_of (some id) (some from) (some to) (some amount) (some currency) (some user) = some (record {
  id = id;
  from_account = from;
  to_account = to;
  amount = amount;
  currency = currency;
  user_id = user;
})
fields_of _ _ _ _ _ _ = none

-- The tags of the structs are not well formed, so that the keys are the names of the fields.
unfoldable pub decode_payload : Option String → JsonObject → Option Payload
decode_payload currency o =
    fields_of (text_field (o "ID")) (text_field (o "FromAccount")) (text_field (o "ToAccount"))
      (number_field (o "Amount")) currency (text_field (o "UserId"))

-- `DepositRequestedPayload` and `TransferRequestedPayload`
unfoldable pub with_currency : JsonObject → Option Payload
with_currency o = decode_payload (text_field (o "Currency")) o

-- `WithdrawalRequestedPayload`
unfoldable pub without_currency : JsonObject → Option Payload
without_currency = decode_payload (some "")

abbrev pub Handler : Type 0
Handler = String → String → World → Result (Unit {0}) × World

abbrev pub forget : {A : Type 0} → Result A × World → Result (Unit {0}) × World
forget (ok _, w) = (ok tt, w)
forget (err e, w) = (err e, w)

unfoldable pub run_decoded :
    (Payload → World → Result (Unit {0}) × World) → Option Payload → Handler
run_decoded run none id text w = (err invalid_message, w)
run_decoded run (some p) id text w = run p w

-- `HandleDepositDispatched`
unfoldable pub handle_deposit_dispatched : Decoder → Env → Handler
handle_deposit_dispatched decoder env id text =
    run_decoded
      (λ p w. forget (deposit_handler env p.id p.user_id p.to_account p.currency p.amount w))
      (mathlib.Core.Option.bind (decoder.unmarshal_object text) with_currency) id text

-- `HandleWithdrawalDispatched`
unfoldable pub handle_withdrawal_dispatched : Decoder → Env → Handler
handle_withdrawal_dispatched decoder env id text =
    run_decoded (λ p w. forget (withdraw_handler env p.id p.user_id p.to_account p.amount w))
      (mathlib.Core.Option.bind (decoder.unmarshal_object text) without_currency) id text

-- `HandleTransferDispatched`
unfoldable pub handle_transfer_dispatched : Decoder → Env → Handler
handle_transfer_dispatched decoder env id text =
    run_decoded
      (λ p w.
        forget
          (transfer_handler env p.id p.user_id p.from_account p.to_account p.currency p.amount w))
      (mathlib.Core.Option.bind (decoder.unmarshal_object text) with_currency) id text

abbrev pub Handlers : Type 0
Handlers = String → Option Handler

-- `NewEventDispatcherService` and `Register`
unfoldable pub no_handlers : Handlers
no_handlers event = none

unfoldable pub register : String → Handler → Handlers → Handlers
register event h handlers other = if event == other then some h else handlers other

-- The registrations of wallet-service/cmd/main.go.
unfoldable pub wallet_handlers : Decoder → Env → Handlers
wallet_handlers decoder env = register transfer_requested (handle_transfer_dispatched decoder env) (
    register withdrawal_requested (handle_withdrawal_dispatched decoder env)
      (register deposit_requested (handle_deposit_dispatched decoder env) no_handlers))

unfoldable pub run_handler : Option Handler → String → String → World → Result (Unit {0}) × World
run_handler none id text w = (err invalid_message, w)
run_handler (some h) id text w = h id text w

unfoldable pub handle_envelope : Handlers → Option Envelope → World → Result (Unit {0}) × World
handle_envelope handlers none w = (err invalid_message, w)
handle_envelope handlers (some e) w = run_handler (handlers e.event_type) e.aggregate_id e.payload w

-- `Handle`
unfoldable pub handle : Decoder → Handlers → String → World → Result (Unit {0}) × World
handle decoder handlers message = handle_envelope handlers (decoder.unmarshal_envelope message)
