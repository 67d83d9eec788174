-- ===== src/Tests/Outbox.antt =====
-- The theorems on the outbox at a small table.
use wallet_app.Base.{
  ℕ, ◌≡◌, ◌≤◌, ◌<◌, refl, true, false, none, some, String, List, [], ◌∷◌, arith, pos, count_where,
  find_where, length, All, ◌↔◌, if◌then◌else◌,
}
use wallet_app.Models.{OutboxModel, OutboxStatus}
use wallet_app.Errors.{ok}
use wallet_app.Store.{Db, no_faults}
use wallet_app.Wallet.{lock_id}
use wallet_app.Outbox.{
  OutboxInsertConfig, RetrySettings, outbox_row, outbox_insert, record_failure, has_aggregate_id,
  has_outbox_id,
}
use wallet_app.Outbox.Batch.{outbox_pending_get_batch, claimed_row, set_claimed}
use wallet_app.Outbox.Enqueue.{IsEnqueued, outbox_insert-IsEnqueued, IsIdle, outbox_insert_fallback}
use wallet_app.Outbox.Claims.{claims_disjoint}
use wallet_app.Outbox.Retries.{fail_times, fail_times-status, record_failure_backoff}
use wallet_app.Outbox.Relay.{RelayEnv, relay_row}
use wallet_app.Outbox.Relay.Outcome.{IsSettled, relay_row-IsSettled}
use wallet_app.Messages.{payload_of, pending_transaction}
use wallet_app.Tests.Samples.{fresh, world}

abbrev config : String → OutboxInsertConfig
config id = record {
  aggregate_type = "transaction";
  aggregate_id = id;
  event_type = "deposit.requested";
  payload = payload_of (pending_transaction id "a" "a" (pos 30) "EUR") (some "EUR") "ann";
  topic = "transactions";
  partition_key = "a";
  user_id = "ann";
}

abbrev waiting : OutboxModel
waiting = record {
  id = "o1";
  aggregate_type = "transaction";
  aggregate_id = "t1";
  event_type = "deposit.requested";
  payload = (config "t1").payload;
  topic = "transactions";
  partition_key = "a";
  idempotency_key = "ann_a";
  status = OutboxStatus.pending;
  error_message = none;
  created_at = 5;
  updated_at = 5;
  published_at = none;
  retry_count = 0;
  next_attempt_at = 5;
}

abbrev queued : Db
queued = record fresh { outbox = waiting ∷ [] }

abbrev settings : RetrySettings
settings = record { max_backoff_seconds = pos 60; max_publish_retries = pos 4 }

-- A relay whose encoding works and whose broker is down.
abbrev broker_down : RelayEnv
broker_down = record {
  now = 7;
  settings = settings;
  update = no_faults;
  cache_fails = λ _. false;
  publisher = record {
    marshal_payload = λ _. some "{}";
    marshal_envelope = λ _. some "{}";
    publish = λ _ _. some "not connected";
  };
}

outbox_insert-IsEnqueued_example :
    let (r, w') = outbox_insert 5 no_faults (λ _. false) "o1" (config "t1") (world fresh) in
    IsEnqueued 5 "o1" (config "t1") (world fresh) r w'
outbox_insert-IsEnqueued_example =
    outbox_insert-IsEnqueued 5 no_faults (λ _. false) "o1" (config "t1") (world fresh) refl refl

outbox_insert_fallback_example :
    ((outbox_insert 6 no_faults (λ _. true) "o2" (config "t2") (world queued)).0 ≡ ok tt)
    ↔ ((count_where (has_aggregate_id "t2") queued.outbox ≡ 0) × IsIdle (lock_id "ann" "a") queued)
outbox_insert_fallback_example =
    outbox_insert_fallback 6 no_faults (λ _. true) "o2" (config "t2") (world queued) refl
      (λ c. refl)

-- Two rows wait, and two relays claim one each.
abbrev second : OutboxModel
second = record waiting { id = "o2"; aggregate_id = "t2"; created_at = 6; next_attempt_at = 6 }

abbrev both : List OutboxModel → Db
both os = record fresh { outbox = os }

claims_disjoint_example :
    All
      (λ (o : OutboxModel). count_where (has_outbox_id o.id) (claimed_row 6 waiting ∷ []) ≡ 0)
      (claimed_row 30 second ∷ [])
unfolding outbox_pending_get_batch wallet_app.Store.transact wallet_app.Base.update_where
    wallet_app.Outbox.Batch.pick wallet_app.Base.take wallet_app.Outbox.Batch.sort_by_age
    wallet_app.Outbox.Batch.insert_by_age wallet_app.Base.select_where
    wallet_app.Outbox.Batch.is_due wallet_app.Outbox.Batch.is_stale count_where
claims_disjoint_example =
    claims_disjoint 6 30 no_faults no_faults 1 1 (both (waiting ∷ second ∷ []))
      {first = claimed_row 6 waiting ∷ []} {second = claimed_row 30 second ∷ []}
      {db' = both (set_claimed 6 waiting ∷ second ∷ [])}
      {db'' = both (set_claimed 6 waiting ∷ set_claimed 30 second ∷ [])} (omega arith) refl refl

fail_times-status_example :
    (fail_times settings (λ n. n) "down" 4 waiting).status ≡ OutboxStatus.failed
fail_times-status_example = fail_times-status settings (λ n. n) "down" 3 waiting refl

record_failure_backoff_example :
    let o' = record_failure settings 7 "down" waiting in
    (7 < o'.next_attempt_at) × (o'.next_attempt_at ≤ 67)
record_failure_backoff_example =
    record_failure_backoff settings 7 60 "down" waiting refl (omega arith) (omega arith)

relay_row-IsSettled_example :
    IsSettled 9 waiting (world queued) (relay_row broker_down waiting (world queued))
unfolding find_where lock_id
relay_row-IsSettled_example =
    relay_row-IsSettled 9 broker_down waiting "ann" (world queued) (λ c. refl) refl refl
      {row = waiting} refl
