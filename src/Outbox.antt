-- ===== src/Outbox.antt =====
-- The outbox methods of wallet-service/internal/repository/wallet_repository.go, on the table
-- transaction_outbox: a request is inserted as a pending row, claimed in batches by the relay, and
-- ends as published or failed.
pub mod Batch
pub mod Relay
pub mod Enqueue
pub mod Claims
pub mod Retries
use wallet_app.Base.{
  take, ℕ, ◌+◌, ◌-◌, ◌^◌, ◌%◌, zero, suc, String, Bool, true, false, not, ◌&&◌, Option, none, some,
  List, [], ◌∷◌, ◌++◌, map, ◌==◌, ℤ, pos, negsuc, neg, ltb, leb, eqb, leb_ℤ, count_where,
  find_where, select_where, update_where, if◌then◌else◌,
}
use wallet_app.Models.{OutboxModel, OutboxStatus, Json, JsonObject}
use wallet_app.Base.Float.{float64}
use wallet_app.Errors.{
  Error, Result, ok, err, db_error, no_rows, unique_violation, transaction_in_progress,
  no_outbox_row,
}
use wallet_app.Store.{
  Db, Faults, Tx, pure, gets, modify, guard, or_raise, try_call, transact, autocommit, select_rows,
  insert_row, update_row, read_row, reclaim_rows, claim_rows, ◌>>=◌, ◌>>◌,
}
use wallet_app.Ledger.{is_pending_row}
use wallet_app.Cache.{CacheFaults, transaction_idempotency_check, transaction_idempotency_release}
use wallet_app.Wallet.{World, on_db, on_cache, lock_id}

-- `OutboxInsertConfig`
pub record OutboxInsertConfig : Type 0 where
  pub aggregate_type : String
  pub aggregate_id : String
  pub event_type : String
  pub payload : JsonObject
  pub topic : String
  pub partition_key : String
  pub user_id : String

-- The inserted row; the columns that the statement does not name have their defaults.
unfoldable pub outbox_row : ℕ → String → String → OutboxInsertConfig → OutboxModel
outbox_row now id key config = record {
  id = id;
  aggregate_type = config.aggregate_type;
  aggregate_id = config.aggregate_id;
  event_type = config.event_type;
  payload = config.payload;
  topic = config.topic;
  partition_key = config.partition_key;
  idempotency_key = key;
  status = OutboxStatus.pending;
  error_message = none;
  created_at = now;
  updated_at = now;
  published_at = none;
  retry_count = 0;
  next_attempt_at = now;
}

abbrev pub has_aggregate_id : String → OutboxModel → Bool
has_aggregate_id id o = o.aggregate_id == id

abbrev pub has_outbox_id : String → OutboxModel → Bool
has_outbox_id id o = o.id == id

-- The JOIN of the fallback: an outbox row under the key, whose transaction is pending.
unfoldable pub in_progress : String → Db → Bool
in_progress key db = not (
    eqb
      (count_where
        (λ o.
          o.idempotency_key == key
          && not (eqb (count_where (is_pending_row o.aggregate_id) db.transactions) 0))
        db.outbox)
      0)

-- `outboxIdempotencyCheck`
unfoldable pub outbox_idempotency_check : Faults → String → Db → Result Bool
unfolding in_progress
outbox_idempotency_check fails key db =
    if fails select_rows then err db_error else ok (in_progress key db)

-- What the two checks come to: is the request refused? An error of the cache leaves the decision
-- to the database, and an error of both lets the request pass.
unfoldable pub refused : Result Bool → Result Bool → Bool
refused (ok fresh) fallback = not fresh
refused (err e) (ok busy) = busy
refused (err e) (err e') = false

-- The INSERT, under an id that the database makes: `aggregate_id` is unique.
unfoldable pub insert_outbox : ℕ → Faults → String → String → OutboxInsertConfig → Tx (Unit {0})
insert_outbox now fails id key config = do
  try_call fails insert_row
  taken ← gets (λ db. count_where (has_aggregate_id config.aggregate_id) db.outbox)
  guard (eqb taken 0) unique_violation
  modify (λ db. record db { outbox = db.outbox ++ outbox_row now id key config ∷ [] })

-- A row that is not inserted has its lock released; an error of the release is only logged.
unfoldable pub release_unless_inserted :
    CacheFaults → String → Result (Unit {0}) → World → Result (Unit {0}) × World
release_unless_inserted cache_fails key (ok u) w = (ok u, w)
release_unless_inserted cache_fails key (err e) w =
    (err e, (on_cache (transaction_idempotency_release cache_fails key) w).1)

-- `OutboxInsert`
unfoldable pub outbox_insert :
    ℕ → Faults → CacheFaults → String → OutboxInsertConfig → World → Result (Unit {0}) × World
outbox_insert now fails cache_fails id config w =
    let key = lock_id config.user_id config.partition_key in
    let (fresh, w') = on_cache (transaction_idempotency_check now cache_fails key) w in
    if refused fresh (outbox_idempotency_check fails key w'.db)
    then (err transaction_in_progress, w')
    else let (r, w'') = on_db (autocommit (insert_outbox now fails id key config)) w' in
      release_unless_inserted cache_fails key r w''

-- `IdempotencyRelease`
unfoldable pub idempotency_release :
    CacheFaults → String → String → World → Result (Unit {0}) × World
idempotency_release cache_fails user account =
    on_cache (transaction_idempotency_release cache_fails (lock_id user account))

abbrev pub is_published : OutboxStatus → Bool
is_published OutboxStatus.published = true
is_published _ = false

unfoldable pub set_outbox_status : ℕ → OutboxStatus → OutboxModel → OutboxModel
set_outbox_status now status o = record o {
  status = status;
  updated_at = now;
  published_at = if is_published status then some now else o.published_at;
}

-- `OutboxUpdate`. The statement has taken effect when its count is looked at.
unfoldable pub outbox_update : ℕ → Faults → String → OutboxStatus → Db → Result (Unit {0}) × Db
outbox_update now fails id status db = if fails update_row then (err db_error, db) else (
  if eqb (count_where (has_aggregate_id id) db.outbox) 1 then ok tt else err no_outbox_row,
  record db {
    outbox = update_where (has_aggregate_id id) (set_outbox_status now status) db.outbox;
  },
)

-- The two settings that `OutboxMarkPublishFailure` reads from the environment.
pub record RetrySettings : Type 0 where
  pub max_backoff_seconds : ℤ
  pub max_publish_retries : ℤ

-- `1 << n` on Postgres' 32-bit integer, which takes the shift modulo 32.
unfoldable pub shifted_one : ℕ → ℤ
shifted_one n = if eqb (n % 32) 31 then neg (pos (2 ^ 31)) else pos (2 ^ (n % 32))

-- LEAST(1 << n, max)
unfoldable pub backoff_seconds : ℤ → ℕ → ℤ
backoff_seconds max n = if leb_ℤ (shifted_one n) max then shifted_one n else max

-- A time and a number of seconds; no time lies before 0.
abbrev pub add_seconds : ℕ → ℤ → ℕ
add_seconds now (pos n) = now + n
add_seconds now (negsuc n) = now - suc n

unfoldable pub record_failure : RetrySettings → ℕ → String → OutboxModel → OutboxModel
record_failure settings now message o = record o {
  retry_count = suc o.retry_count;
  error_message = some message;
  status =
      if leb_ℤ settings.max_publish_retries (pos (suc o.retry_count))
      then OutboxStatus.failed
      else OutboxStatus.pending;
  next_attempt_at =
      add_seconds now (backoff_seconds settings.max_backoff_seconds (suc o.retry_count));
  updated_at = now;
}

-- `OutboxMarkPublishFailure`
unfoldable pub outbox_mark_publish_failure :
    RetrySettings → ℕ → Faults → String → String → Db → Result OutboxStatus × Db
outbox_mark_publish_failure settings now fails id message = autocommit (do
  try_call fails update_row
  modify (λ db. record db {
    outbox = update_where (has_aggregate_id id) (record_failure settings now message) db.outbox;
  })
  found ← gets (λ db. find_where (has_aggregate_id id) db.outbox)
  o ← or_raise found no_rows
  pure o.status)

-- `OutboxDelete`
unfoldable pub outbox_delete : Faults → String → Db → Result (Unit {0}) × Db
outbox_delete fails id = autocommit (do
  try_call fails update_row
  modify (λ db. record db { outbox = select_where (λ o. not (has_aggregate_id id o)) db.outbox }))

-- What `rows.Scan` leaves of a JSON column in a `map[string]interface{}`: a number becomes a float64.
unfoldable pub scan_json : Option Json → Option Json
scan_json none = none
scan_json (some (Json.text s)) = some (Json.text s)
scan_json (some (Json.number n)) = some (Json.number (float64 n))

unfoldable pub scan_row : OutboxModel → OutboxModel
scan_row o = record o { payload = λ key. scan_json (o.payload key) }

-- `OutboxGet`: no row is no error. The columns that it does not select have Go's zero values.
unfoldable pub outbox_get : Faults → String → Db → Result (Option OutboxModel)
outbox_get fails id db =
    if fails read_row then err db_error else ok (found (find_where (has_aggregate_id id) db.outbox))
  where
    found : Option OutboxModel → Option OutboxModel
    found none = none
    found (some o) =
        some (record (scan_row o) { idempotency_key = ""; retry_count = 0; next_attempt_at = 0 })
