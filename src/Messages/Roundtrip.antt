-- ===== src/Messages/Roundtrip.antt =====
-- A request that is enqueued, claimed by the relay and published comes back from Kafka to the handler
-- of its kind, with its own fields.
use wallet_app.Base.{
  find_where-last, in_int64, refl, ℕ, ◌≡◌, String, Option, none, some, [], ◌∷◌, ◌++◌, arith, ℤ,
  count_where, find_where,
}
use wallet_app.Base.Float.{HasBits53, float64, float64-small}
use text.Mathlib.TextPositions.{eq_refl}
use wallet_app.Models.{TransactionModel, OutboxModel, Json}
use wallet_app.Errors.{Result, ok, err}
use wallet_app.Store.{Faults, autocommit}
use wallet_app.Cache.{CacheFaults, transaction_idempotency_check}
use wallet_app.Wallet.{World, Env, lock_id, deposit_handler, withdraw_handler, transfer_handler}
use wallet_app.Outbox.{
  OutboxInsertConfig, outbox_insert, outbox_row, insert_outbox, release_unless_inserted,
  has_aggregate_id, scan_row, scan_json,
}
use wallet_app.Outbox.Relay.{envelope, insert_outbox_relay}
use wallet_app.Messages.{
  Decoder, RequestEnv, enqueue, answer, payload_of, pending_transaction, or_new, request_transfer,
  transfer_requested, deposit_requested, withdrawal_requested, request_deposit, request_withdrawal,
  handle, handle_envelope, run_handler, register, wallet_handlers, run_decoded,
  handle_transfer_dispatched, handle_deposit_dispatched, handle_withdrawal_dispatched, forget,
  Payload, with_currency, without_currency, decode_payload, fields_of, text_field, number_field,
}

-- A request that is enqueued has put its row, under a new aggregate id, at the end of the table.
outbox_insert-ok :
    (now : ℕ) (fails : Faults) (cache_fails : CacheFaults) (id : String)
    (config : OutboxInsertConfig) (w : World) {u : Unit {0}} {w' : World}
    → outbox_insert now fails cache_fails id config w ≡ (ok u, w')
    → let row = outbox_row now id (lock_id config.user_id config.partition_key) config in
      (count_where (has_aggregate_id config.aggregate_id) w.db.outbox ≡ 0)
      × (w'.db.outbox ≡ w.db.outbox ++ row ∷ [])
unfolding outbox_insert insert_outbox autocommit release_unless_inserted
    transaction_idempotency_check
outbox_insert-ok now fails cache_fails id config w h = (ground arith, ground arith)

answer-ok :
    (t : TransactionModel) (p : Result (Unit {0}) × World) {t' : TransactionModel} {w' : World}
    → answer t p ≡ (ok t', w')
    → (t' ≡ t) × (p ≡ (ok tt, w'))
unfolding answer
answer-ok t (ok u, w) h = (cc h, cc h)
answer-ok t (err e, w) h = absurd (cc h)

-- The row that is found for an enqueued request is the one that the request put there.
pub insert_outbox_relay-ok :
    (env : RequestEnv) (t t' : TransactionModel) (currency : Option String)
    (event partition user : String) (w : World) {w' : World} {row : OutboxModel}
    → enqueue env t currency event partition user w ≡ (ok t', w')
    → find_where (has_aggregate_id t'.id) w'.db.outbox ≡ some row
    → (t' ≡ t)
      × (row.event_type ≡ event)
      × (row.aggregate_id ≡ t.id)
      × (row.payload ≡ payload_of t currency user)
unfolding enqueue insert_outbox_relay outbox_row
insert_outbox_relay-ok env t t' currency event partition user w {w'} {row} h found =
    let config : OutboxInsertConfig = record {
      aggregate_type = "transaction";
      aggregate_id = t.id;
      event_type = event;
      payload = payload_of t currency user;
      topic = env.topic;
      partition_key = partition;
      user_id = user;
    } in
    let (same, inserted) = answer-ok t _ h in
    let (new, table) =
      outbox_insert-ok env.now env.insert env.cache_fails env.row_id config w inserted in
    let mine = outbox_row env.now env.row_id (lock_id user partition) config in
    let last : find_where (has_aggregate_id t'.id) w'.db.outbox ≡ some mine =
      rw (same, table)
        (find_where-last (has_aggregate_id t.id) w.db.outbox mine new (eq_refl t.id)) in
    let is_mine : row ≡ mine = cc (found, last) in (same, rw is_mine, rw is_mine, rw is_mine)

-- What a handler reads of a payload: the fields that were written.
abbrev fields : TransactionModel → String → String → Payload
fields t currency user = record {
  id = t.id;
  from_account = t.from_account;
  to_account = t.to_account;
  amount = t.amount;
  currency = currency;
  user_id = user;
}

number_field-scanned :
    (n : ℤ) → HasBits53 n → number_field (some (Json.number (float64 n))) ≡ some n
unfolding number_field in_int64
number_field-scanned n bits = rw (float64-small n bits) (ground (arith, bits.0, bits.1))

-- The keys that are written are those that are read, and scanning keeps a number of 53 bits.
with_currency-scanned :
    (t : TransactionModel) (currency user : String) (o : OutboxModel)
    → HasBits53 t.amount
    → o.payload ≡ payload_of t (some currency) user
    → with_currency (scan_row o).payload ≡ some (fields t currency user)
unfolding with_currency decode_payload fields_of payload_of scan_row scan_json text_field
with_currency-scanned t currency user o bits same =
    rw (same, number_field-scanned t.amount bits) refl

without_currency-scanned :
    (t : TransactionModel) (user : String) (o : OutboxModel)
    → HasBits53 t.amount
    → o.payload ≡ payload_of t none user
    → without_currency (scan_row o).payload ≡ some (fields t "" user)
unfolding without_currency decode_payload fields_of payload_of scan_row scan_json text_field
without_currency-scanned t user o bits same = rw (same, number_field-scanned t.amount bits) refl

-- Where a transfer of an amount of at most 53 bits is enqueued, the JSON of its scanned outbox row is read
-- as the object that was written, and its envelope is decoded as it was encoded, the message is
-- handled by the transfer handler, with the fields of the request.
pub transfer_reaches_handler :
    (env : RequestEnv) (key user from to currency : String) (amount : ℤ) (w : World)
    {t : TransactionModel} {w' : World} {row : OutboxModel} (decoder : Decoder)
    (text message : String) (run : Env) (later : World)
    → request_transfer env key user from to currency amount w ≡ (ok t, w')
    → find_where (has_aggregate_id t.id) w'.db.outbox ≡ some row
    → HasBits53 amount
    → decoder.unmarshal_object text ≡ some (scan_row row).payload
    → decoder.unmarshal_envelope message ≡ some (envelope row text)
    → handle decoder (wallet_handlers decoder run) message later
      ≡ forget (transfer_handler run (or_new env.new_id key) user from to currency amount later)
unfolding request_transfer handle envelope handle_envelope run_handler wallet_handlers register
    handle_transfer_dispatched run_decoded pending_transaction mathlib.Core.Option.bind
transfer_reaches_handler env key user from to currency amount w {t} {w'} {row} decoder text message
      run later sent found bits payload_is envelope_is =
    let sent_t = pending_transaction (or_new env.new_id key) from to amount currency in
    let (same, event, _, payload) =
      insert_outbox_relay-ok env sent_t t (some currency) transfer_requested from user w sent
        found in
    rw (envelope_is, event, payload_is, with_currency-scanned sent_t currency user row bits payload)

-- Where a withdrawal of an amount of at most 53 bits is enqueued, the JSON of its scanned outbox row is read
-- as the object that was written, and its envelope is decoded as it was encoded, the message is
-- handled by the withdrawal handler, with the fields of the request.
pub withdrawal_reaches_handler :
    (env : RequestEnv) (id user account : String) (amount : ℤ) (w : World) {t : TransactionModel}
    {w' : World} {row : OutboxModel} (decoder : Decoder) (text message : String) (run : Env)
    (later : World)
    → request_withdrawal env id user account amount w ≡ (ok t, w')
    → find_where (has_aggregate_id t.id) w'.db.outbox ≡ some row
    → HasBits53 amount
    → decoder.unmarshal_object text ≡ some (scan_row row).payload
    → decoder.unmarshal_envelope message ≡ some (envelope row text)
    → handle decoder (wallet_handlers decoder run) message later
      ≡ forget (withdraw_handler run (or_new env.new_id id) user account amount later)
unfolding request_withdrawal handle envelope handle_envelope run_handler wallet_handlers register
    handle_withdrawal_dispatched run_decoded pending_transaction mathlib.Core.Option.bind
withdrawal_reaches_handler env id user account amount w {t} {w'} {row} decoder text message run
      later sent found bits payload_is envelope_is =
    let sent_t = pending_transaction (or_new env.new_id id) account account amount "" in
    let (same, event, _, payload) =
      insert_outbox_relay-ok env sent_t t none withdrawal_requested account user w sent found in
    rw (envelope_is, event, payload_is, without_currency-scanned sent_t user row bits payload)

-- Where a deposit of an amount of at most 53 bits is enqueued, the JSON of its scanned outbox row is read
-- as the object that was written, and its envelope is decoded as it was encoded, the message is
-- handled by the deposit handler, with the fields of the request.
pub deposit_reaches_handler :
    (env : RequestEnv) (user account currency : String) (amount : ℤ) (w : World)
    {t : TransactionModel} {w' : World} {row : OutboxModel} (decoder : Decoder)
    (text message : String) (run : Env) (later : World)
    → request_deposit env user account currency amount w ≡ (ok t, w')
    → find_where (has_aggregate_id t.id) w'.db.outbox ≡ some row
    → HasBits53 amount
    → decoder.unmarshal_object text ≡ some (scan_row row).payload
    → decoder.unmarshal_envelope message ≡ some (envelope row text)
    → handle decoder (wallet_handlers decoder run) message later
      ≡ forget (deposit_handler run env.new_id user account currency amount later)
unfolding request_deposit handle envelope handle_envelope run_handler wallet_handlers register
    handle_deposit_dispatched run_decoded pending_transaction mathlib.Core.Option.bind
deposit_reaches_handler env user account currency amount w {t} {w'} {row} decoder text message run
      later sent found bits payload_is envelope_is =
    let sent_t = pending_transaction env.new_id account account amount currency in
    let (same, event, _, payload) =
      insert_outbox_relay-ok env sent_t t (some currency) deposit_requested account user w sent
        found in
    rw (envelope_is, event, payload_is, with_currency-scanned sent_t currency user row bits payload)
