-- ===== src/Messages/Amounts.antt =====
-- The amount of a request on its way through the outbox, where `rows.Scan` makes a float64 of it.
use wallet_app.Base.{ℕ, ◌≡◌, ◌≢◌, ◌≤◌, ◌<◌, ◌^◌, ◌%◌, refl, String, some, pos, find_where}
use wallet_app.Base.Float.{float64, float64-odd, float64-int64}
use wallet_app.Models.{TransactionModel, OutboxModel}
use wallet_app.Errors.{ok}
use wallet_app.Wallet.{World}
use wallet_app.Outbox.{has_aggregate_id, scan_row, scan_json}
use wallet_app.Messages.{
  RequestEnv, Payload, payload_of, pending_transaction, or_new, request_transfer,
  transfer_requested, with_currency, decode_payload, fields_of, text_field, number_field,
}
use wallet_app.Messages.Roundtrip.{insert_outbox_relay-ok}

-- Where a transfer of an odd amount from 2^53 to 2^54 is enqueued, what is read of its scanned outbox
-- row is a transfer of another amount.
pub large_transfer_changes_amount :
    (env : RequestEnv) (key user from to currency : String) (n : ℕ) (w : World)
    {t : TransactionModel} {w' : World} {row : OutboxModel}
    → 2 ^ 53 ≤ n
    → n < 2 ^ 54
    → n % 2 ≡ 1
    → request_transfer env key user from to currency (pos n) w ≡ (ok t, w')
    → find_where (has_aggregate_id t.id) w'.db.outbox ≡ some row
    → (p : Payload) × (with_currency (scan_row row).payload ≡ some p)
      × (p.id ≡ t.id)
      × (t.amount ≡ pos n)
      × (p.amount ≢ pos n)
unfolding request_transfer pending_transaction with_currency decode_payload fields_of payload_of
    scan_row scan_json text_field number_field
large_transfer_changes_amount env key user from to currency n w {t} {row = row} big small odd sent
      found =
    let sent_t = pending_transaction (or_new env.new_id key) from to (pos n) currency in
    let (same, _, _, payload) =
      insert_outbox_relay-ok env sent_t t (some currency) transfer_requested from user w sent
        found in
    let read : Payload = record {
      id = sent_t.id;
      from_account = from;
      to_account = to;
      amount = float64 (pos n);
      currency = currency;
      user_id = user;
    } in
    (
      read,
      rw (payload, float64-int64 n small) refl,
      rw same refl,
      rw same refl,
      float64-odd n big small odd,
    )
