-- ===== src/Gateway/Journey.antt =====
-- The whole way of a transaction, from the HTTP request to the handler of its message.
use wallet_app.Base.{ℕ, ◌≡◌, refl, sym, ◌∙◌, inl, inr, String, true, some, find_where}
use wallet_app.Base.Float.{HasBits53}
use wallet_app.Models.{OutboxModel}
use wallet_app.Wallet.{World, Env, transfer_handler, deposit_handler, withdraw_handler}
use wallet_app.Outbox.{has_aggregate_id, scan_row}
use wallet_app.Outbox.Relay.{envelope}
use wallet_app.Messages.{Decoder, or_new, handle, wallet_handlers, forget}
use wallet_app.Messages.Roundtrip.{
  transfer_reaches_handler, deposit_reaches_handler, withdrawal_reaches_handler,
}
use wallet_app.Session.{SessionSettings}
use wallet_app.Gateway.{
  BodyDecoder, HttpRequest, Transaction, TransferFundsRequest, DepositFundsRequest,
  WithdrawFundsRequest,
}
use wallet_app.Gateway.Services.{Backend}
use wallet_app.Gateway.Controllers.{handle_transfer_funds, handle_deposit, handle_withdraw}
use wallet_app.Gateway.Routes.{Route, route, routes, takes, run_route, serve}
use wallet_app.Gateway.Authorization.{IsAuthorized, authorize_user-decides}
use wallet_app.Gateway.Accepted.{success, transfer_service, deposit_service, withdrawal_service}

-- A guarded route that answers with a transaction was called by an authorised user.
guarded_success :
    (session : SessionSettings) (now : ℕ) (decode : BodyDecoder) (b : Backend) (req : HttpRequest)
    (w : World) (r : Route) {t : Transaction} {w' : World}
    → find_where (takes req) (routes decode b) ≡ some r
    → r.protected ≡ true
    → serve session now decode b req w ≡ success t w'
    → IsAuthorized session now req × (r.run req w ≡ success t w')
unfolding serve run_route
guarded_success session now decode b req w r found protected h =
    elim (authorize_user-decides session now r.run req w) [
      | inl (authorized, ran) ↦ (authorized, sym ran ∙ rw (found, protected) at h)
      | inr (_, refused) ↦ absurd (cc (refused, rw (found, protected) at h))
    ]

module _ (session : SessionSettings) (now : ℕ) (decode : BodyDecoder) (b : Backend)
    (req : HttpRequest) (w : World) where
  -- A transfer that is posted and answered with 200 was authorised, and, where its amount has at most 53
  -- bits, the JSON of its scanned outbox row is read as the object that was written, and its envelope
  -- is decoded as it was encoded, the message of the row is handled by the transfer handler with
  -- the fields of the body and the user that was authorised.
  pub posted_transfer_reaches_handler :
      (d : TransferFundsRequest) {t : Transaction} {w' : World} {row : OutboxModel}
      (decoder : Decoder) (text message : String) (run : Env) (later : World)
      → req.method ≡ "POST"
      → req.path ≡ "/wallet/transfer"
      → decode.transfer_funds req.body ≡ some d
      → serve session now decode b req w ≡ success t w'
      → find_where (has_aggregate_id t.id) w'.db.outbox ≡ some row
      → HasBits53 d.amount
      → decoder.unmarshal_object text ≡ some (scan_row row).payload
      → decoder.unmarshal_envelope message ≡ some (envelope row text)
      → IsAuthorized session now req
        × (handle decoder (wallet_handlers decoder run) message later
            ≡ forget (
                transfer_handler run
                  (or_new b.requests.new_id b.key)
                  (req.query "userId")
                  d.from_account_id
                  d.to_account_id
                  d.currency
                  d.amount
                  later))
  unfolding routes find_where handle_transfer_funds
  posted_transfer_reaches_handler d decoder text message run later method path body served found
        bits payload_is envelope_is =
      let (authorized, ran) =
        guarded_success session now decode b req w
          (route "POST" "/wallet/transfer" true (handle_transfer_funds decode b))
          (rw (method, path) refl) refl served in
      let (m, requested, same) = transfer_service b req d w (rw body at ran) in
      (
        authorized,
        transfer_reaches_handler b.requests b.key (req.query "userId") d.from_account_id
            d.to_account_id d.currency d.amount w decoder text message run later requested
            (rw same found) bits payload_is envelope_is,
      )

  -- A deposit that is posted and answered with 200 was authorised, and, where its amount has at most 53
  -- bits, the JSON of its scanned outbox row is read as the object that was written, and its envelope
  -- is decoded as it was encoded, the message of the row is handled by the deposit handler with
  -- the fields of the body and the user that was authorised.
  pub posted_deposit_reaches_handler :
      (d : DepositFundsRequest) {t : Transaction} {w' : World} {row : OutboxModel}
      (decoder : Decoder) (text message : String) (run : Env) (later : World)
      → req.method ≡ "POST"
      → req.path ≡ "/wallet/deposit"
      → decode.deposit_funds req.body ≡ some d
      → serve session now decode b req w ≡ success t w'
      → find_where (has_aggregate_id t.id) w'.db.outbox ≡ some row
      → HasBits53 d.amount
      → decoder.unmarshal_object text ≡ some (scan_row row).payload
      → decoder.unmarshal_envelope message ≡ some (envelope row text)
      → IsAuthorized session now req
        × (handle decoder (wallet_handlers decoder run) message later
            ≡ forget (
                deposit_handler run b.requests.new_id
                  (req.query "userId")
                  d.account_id
                  d.currency
                  d.amount
                  later))
  unfolding routes find_where handle_deposit
  posted_deposit_reaches_handler d decoder text message run later method path body served found bits
        payload_is envelope_is =
      let (authorized, ran) =
        guarded_success session now decode b req w
          (route "POST" "/wallet/deposit" true (handle_deposit decode b)) (rw (method, path) refl)
          refl served in
      let (m, requested, same) = deposit_service b req d w (rw body at ran) in
      (
        authorized,
        deposit_reaches_handler b.requests (req.query "userId") d.account_id d.currency d.amount w
            decoder text message run later requested (rw same found) bits payload_is envelope_is,
      )

  -- A withdrawal that is posted and answered with 200 was authorised, and, where its amount has at most 53
  -- bits, the JSON of its scanned outbox row is read as the object that was written, and its envelope
  -- is decoded as it was encoded, the message of the row is handled by the withdrawal handler with
  -- the fields of the body and the user that was authorised.
  pub posted_withdrawal_reaches_handler :
      (d : WithdrawFundsRequest) {t : Transaction} {w' : World} {row : OutboxModel}
      (decoder : Decoder) (text message : String) (run : Env) (later : World)
      → req.method ≡ "POST"
      → req.path ≡ "/wallet/withdraw"
      → decode.withdraw_funds req.body ≡ some d
      → serve session now decode b req w ≡ success t w'
      → find_where (has_aggregate_id t.id) w'.db.outbox ≡ some row
      → HasBits53 d.amount
      → decoder.unmarshal_object text ≡ some (scan_row row).payload
      → decoder.unmarshal_envelope message ≡ some (envelope row text)
      → IsAuthorized session now req
        × (handle decoder (wallet_handlers decoder run) message later
            ≡ forget (
                withdraw_handler run
                  (or_new b.requests.new_id b.key)
                  (req.query "userId")
                  d.account_id
                  d.amount
                  later))
  unfolding routes find_where handle_withdraw
  posted_withdrawal_reaches_handler d decoder text message run later method path body served found
        bits payload_is envelope_is =
      let (authorized, ran) =
        guarded_success session now decode b req w
          (route "POST" "/wallet/withdraw" true (handle_withdraw decode b)) (rw (method, path) refl)
          refl served in
      let (m, requested, same) = withdrawal_service b req d w (rw body at ran) in
      (
        authorized,
        withdrawal_reaches_handler b.requests b.key (req.query "userId") d.account_id d.amount w
            decoder text message run later requested (rw same found) bits payload_is envelope_is,
      )
