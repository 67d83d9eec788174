-- ===== src/Outbox/Relay.antt =====
-- wallet-service/internal/services/outbox_relay_service.go: the relay claims a batch of outbox rows
-- and publishes each. The goroutines of a batch are run one after the other. JSON encoding and the
-- Kafka producer are not under the repository and are parameters (`Publisher`).
pub mod Outcome
use wallet_app.Base.{
  ℕ, String, Bool, true, false, Option, none, some, List, [], ◌∷◌, concat, trim_suffix, length, ltb,
  if◌then◌else◌,
}
use wallet_app.Models.{OutboxModel, OutboxStatus, JsonObject}
use wallet_app.Errors.{Result, ok, err}
use wallet_app.Store.{Faults}
use wallet_app.Cache.{CacheFaults}
use wallet_app.Wallet.{World, on_db}
use wallet_app.Outbox.{
  OutboxInsertConfig, RetrySettings, outbox_insert, idempotency_release, outbox_update,
  outbox_mark_publish_failure,
}
use wallet_app.Outbox.Batch.{outbox_pending_get_batch}

-- `Envelope`, the message on the wire; `payload` is the encoded payload.
pub record Envelope : Type 0 where
  pub event_id : String
  pub event_type : String
  pub aggregate_id : String
  pub occurred_at : ℕ
  pub version : ℕ
  pub payload : String

abbrev pub envelope_version : ℕ
envelope_version = 1

-- The two calls of `json.Marshal`, and `Publish`, which answers with the text of its error.
pub record Publisher : Type 0 where
  pub marshal_payload : JsonObject → Option String
  pub marshal_envelope : Envelope → Option String
  pub publish : String → String → Option String

-- The time, the settings, and which calls fail.
pub record RelayEnv : Type 0 where
  pub now : ℕ
  pub settings : RetrySettings
  pub update : Faults
  pub cache_fails : CacheFaults
  pub publisher : Publisher

-- `InsertOutboxRelay`
unfoldable pub insert_outbox_relay :
    ℕ
    → Faults
    → CacheFaults
    → String
    → String
    → String
    → String
    → String
    → String
    → String
    → JsonObject
    → World
    → Result (Unit {0}) × World
insert_outbox_relay now fails cache_fails row_id topic type id event partition user payload =
    outbox_insert now fails cache_fails row_id (record {
      aggregate_type = type;
      aggregate_id = id;
      event_type = event;
      payload = payload;
      topic = topic;
      partition_key = partition;
      user_id = user;
    })

-- `releaseIdempotency`: the user is what the key has before the account.
unfoldable pub release_idempotency : CacheFaults → OutboxModel → World → World
release_idempotency cache_fails o w =
    let user = trim_suffix o.idempotency_key (concat "_" o.partition_key) in
    (idempotency_release cache_fails user o.partition_key w).1

-- `markFailed`
unfoldable pub mark_failed : RelayEnv → OutboxModel → World → World
mark_failed env o w =
    let (_, w') = on_db (outbox_update env.now env.update o.aggregate_id OutboxStatus.failed) w in
    release_idempotency env.cache_fails o w'

-- After a failure is recorded: the lock of a row that has failed for good is released.
unfoldable pub release_failed : RelayEnv → OutboxModel → Result OutboxStatus → World → World
release_failed env o (ok OutboxStatus.failed) w = release_idempotency env.cache_fails o w
release_failed env o _ w = w

unfoldable pub after_publish : RelayEnv → OutboxModel → Option String → World → World
after_publish env o (some error) w =
    let (status, w') =
      on_db (outbox_mark_publish_failure env.settings env.now env.update o.aggregate_id error) w in
    release_failed env o status w'
after_publish env o none w =
    (on_db (outbox_update env.now env.update o.aggregate_id OutboxStatus.published) w).1

unfoldable pub publish_message : RelayEnv → OutboxModel → Option String → World → World
publish_message env o none w = mark_failed env o w
publish_message env o (some message) w =
    after_publish env o (env.publisher.publish o.partition_key message) w

unfoldable pub envelope : OutboxModel → String → Envelope
envelope o payload = record {
  event_id = o.id;
  event_type = o.event_type;
  aggregate_id = o.aggregate_id;
  occurred_at = o.created_at;
  version = envelope_version;
  payload = payload;
}

unfoldable pub seal_payload : RelayEnv → OutboxModel → Option String → World → World
seal_payload env o none w = mark_failed env o w
seal_payload env o (some payload) w =
    publish_message env o (env.publisher.marshal_envelope (envelope o payload)) w

-- The goroutine of one row.
unfoldable pub relay_row : RelayEnv → OutboxModel → World → World
relay_row env o w = seal_payload env o (env.publisher.marshal_payload o.payload) w

unfoldable pub relay_rows : RelayEnv → List OutboxModel → World → World
relay_rows env [] w = w
relay_rows env (o ∷ os) w = relay_rows env os (relay_row env o w)

unfoldable pub relay_batch : RelayEnv → Result (List OutboxModel) → World → ℕ × World
relay_batch env (err e) w = (0, w)
relay_batch env (ok os) w = (length os, relay_rows env os w)

-- `readAndRelay`: the number of rows of the batch.
unfoldable pub read_and_relay : RelayEnv → Faults → ℕ → World → ℕ × World
read_and_relay env claims batch_size w =
    let (batch, w') = on_db (outbox_pending_get_batch env.now claims batch_size) w in
    relay_batch env batch w'
