-- ===== src/Tests/Messages.antt =====
-- The theorems on requests, messages and pages at small inputs.
use wallet_app.Base.{
  ◌++◌, ◌≢◌, ◌⊎◌, ◌&&◌, ◌≤◌, All, arith, ◌≡◌, ◌+◌, refl, true, false, none, some, String, List, [],
  ◌∷◌, ◌==◌, pos, length, find_where, count_where, if◌then◌else◌,
}
use wallet_app.Models.{OutboxModel, TransactionModel, TransactionRow}
use wallet_app.Errors.{ok, err, db_error, invalid_message}
use wallet_app.Store.{no_faults}
use wallet_app.Wallet.{World, lock_id, deposit_handler, withdraw_handler, transfer_handler}
use wallet_app.Wallet.Listing.{history, touches}
use wallet_app.Wallet.Listing.History.{IsNewestFirst, history-IsNewestFirst}
use wallet_app.Wallet.Listing.Pages.{walk, walk-history}
use wallet_app.Outbox.{outbox_row, scan_row}
use wallet_app.Outbox.Relay.{envelope}
use wallet_app.Messages.{
  Decoder, RequestEnv, request_transfer, request_deposit, request_withdrawal, handle, Payload,
  with_currency, wallet_handlers, forget, payload_of, pending_transaction, transfer_requested,
  deposit_requested, withdrawal_requested,
}
use wallet_app.Messages.Amounts.{large_transfer_changes_amount}
use wallet_app.Messages.Consumer.{Broker, BrokerFaults, Message, Run, consume_message, recovered}
use wallet_app.Messages.Offsets.{failed_message_skipped}
use wallet_app.Messaging.{fetched, fails, consume}
use wallet_app.Messaging.Fetching.{without_errors, consume-without_errors}
use wallet_app.Tests.Samples.{before, fresh, world}

walk-history_example :
    walk no_faults "a" (pos 8) before (length (history "a" before) + 1) 0
    ≡ some (history "a" before)
unfolding history wallet_app.Wallet.Listing.newest_first wallet_app.Base.select_where
    wallet_app.Wallet.Listing.insert_by_time wallet_app.Wallet.Listing.touches
walk-history_example = walk-history no_faults "a" (pos 8) before refl refl (omega arith)

history-IsNewestFirst_example :
    IsNewestFirst (history "b" before)
    × (count_where (λ (t : TransactionModel). t.id == "t1") (history "b" before)
        ≡ count_where (λ (r : TransactionRow). touches "b" r && (r.id == "t1")) before.transactions)
history-IsNewestFirst_example = history-IsNewestFirst "b" before (λ t. t.id == "t1")

abbrev pub desk : RequestEnv
desk = record {
  now = 5;
  insert = no_faults;
  cache_fails = λ _. false;
  topic = "wallet.events.v1";
  new_id = "t9";
  row_id = "o9";
}

abbrev pub sent : String → String → String → String → OutboxModel
sent event from to currency = outbox_row 5 "o9" "ann_a" (record {
  aggregate_type = "transaction";
  aggregate_id = "t9";
  event_type = event;
  payload =
      payload_of (pending_transaction "t9" from to (pos 30) currency)
        (if currency == "" then none else some currency) "ann";
  topic = "wallet.events.v1";
  partition_key = "a";
  user_id = "ann";
})

-- A decoder for the one message of a row.
abbrev pub decoder_of : OutboxModel → Decoder
decoder_of row = record {
  unmarshal_object = λ _. some (scan_row row).payload;
  unmarshal_envelope = λ _. some (envelope row "{}");
}

-- A handler that succeeds on every message but "bad" and "worse".
abbrev picky : String → World → Run × World
picky value w =
    if value == "bad"
    then (Run.returned (err db_error), w)
    else if value == "worse"
    then (Run.returned (err invalid_message), w)
    else (Run.returned (ok tt), w)

abbrev steady : BrokerFaults
steady = record { append_fails = false; commit_fails = false }

abbrev start : Broker
start = record { committed = 4; dlq = [] }

-- A transfer of 2^53 + 1, and its row.
abbrev huge : OutboxModel
huge = outbox_row 5 "o9" "ann_a" (record {
  aggregate_type = "transaction";
  aggregate_id = "t9";
  event_type = transfer_requested;
  payload =
      payload_of (pending_transaction "t9" "a" "b" (pos 9007199254740993) "EUR") (some "EUR") "ann";
  topic = "wallet.events.v1";
  partition_key = "a";
  user_id = "ann";
})

large_transfer_changes_amount_example :
    (p : Payload) × (with_currency (scan_row huge).payload ≡ some p)
    × (p.id ≡ "t9")
    × (pos 9007199254740993 ≡ pos 9007199254740993)
    × (p.amount ≢ pos 9007199254740993)
unfolding request_transfer wallet_app.Messages.or_new wallet_app.Messages.enqueue
    wallet_app.Messages.answer wallet_app.Outbox.Relay.insert_outbox_relay
    wallet_app.Outbox.outbox_insert wallet_app.Outbox.insert_outbox wallet_app.Outbox.refused
    wallet_app.Outbox.outbox_idempotency_check wallet_app.Outbox.release_unless_inserted
    wallet_app.Store.autocommit wallet_app.Cache.transaction_idempotency_check count_where
    find_where lock_id pending_transaction outbox_row payload_of
large_transfer_changes_amount_example =
    large_transfer_changes_amount desk "" "ann" "a" "b" "EUR" 9007199254740993 (world fresh)
      {t = pending_transaction "t9" "a" "b" (pos 9007199254740993) "EUR"}
      {w' = (request_transfer desk "" "ann" "a" "b" "EUR" (pos 9007199254740993) (world fresh)).1}
      {row = huge} (omega arith) (omega arith) refl refl refl

abbrev bad_message : Message
bad_message = record { offset = 4; value = "bad" }

failed_message_skipped_example :
    let (w1, b1) = consume_message steady picky bad_message (world fresh) start in
    let (w2, b2) = consume_message steady picky (record { offset = 5; value = "good" }) w1 b1 in
    (w2 ≡ world fresh) × (b1 ≡ start) × (b2.committed ≡ 6) × (b2.dlq ≡ [])
unfolding wallet_app.Messages.Consumer.is_invalid
failed_message_skipped_example =
    failed_message_skipped steady picky bad_message (record { offset = 5; value = "good" })
      (world fresh) start {e = db_error} {w' = world fresh} {w'' = world fresh} refl refl refl refl
      refl

consume-without_errors_example :
    let fetches = fails false ∷ fetched steady bad_message ∷ [] in
    ((consume picky fetches 1 (world fresh, start)).0
      ≡ (consume picky (without_errors fetches) 1 (world fresh, start)).0)
    × All
        (λ seconds. (1 ≤ seconds) × (seconds ≤ 30))
        (consume picky fetches 1 (world fresh, start)).1
consume-without_errors_example =
    consume-without_errors picky (fails false ∷ fetched steady bad_message ∷ []) 1 1
      (world fresh, start) (omega arith) (omega arith)
