-- ===== src/Gateway/Accepted.antt =====
-- A request that the gateway answers with 200 has been carried out: from the answer back to the
-- request of the wallet service.
use wallet_app.Base.{◌≡◌, inl, inr, String, Option, none, some, ◌==◌, Bool-cases}
use wallet_app.Models.{TransactionModel}
use wallet_app.Errors.{Result, ok, err}
use wallet_app.Wallet.{World}
use wallet_app.Messages.{request_transfer, request_deposit, request_withdrawal}
use wallet_app.Protocol.{TransactionResponse}
use wallet_app.Rpc.{map_ok, transaction_response, to_transaction_proto, transfer, deposit, withdraw}
use wallet_app.Gateway.{
  HttpRequest, Transaction, TransferFundsRequest, DepositFundsRequest, WithdrawFundsRequest,
  message_with, transaction_started, Answer, answered, Outcome, returned, failed, crashed,
  Connection, works, unreachable, answer_lost, call,
}
use wallet_app.Gateway.Mapping.{
  to_transaction_domain, to_transfer_funds_proto, to_deposit_funds_proto, to_withdraw_funds_proto,
}
use wallet_app.Gateway.Services.{
  Backend, then_return, logged, started, transfer_funds, deposit_funds, withdraw_funds,
}
use wallet_app.Gateway.Controllers.{
  answer_with, transfer_decoded, deposit_decoded, withdraw_decoded,
}

-- The answer to a request that has started a transaction.
abbrev pub success : Transaction → World → Answer × World
success t w = (answered 200 (transaction_started t), w)

answer_with-success :
    (text : String) (p : Outcome Transaction × World) {t : Transaction} {w' : World}
    → answer_with transaction_started (λ e. answered 400 (message_with text e)) p ≡ success t w'
    → p ≡ (returned t, w')
answer_with-success text (returned t, w) h = cc h
answer_with-success text (failed e, w) h = cc h
answer_with-success text (crashed, w) h = cc h

call-ok :
    {A : Type 0} (c : Connection) (rpc : World → Result A × World) (w : World) {a : A} {w' : World}
    → call c rpc w ≡ (ok a, w')
    → rpc w ≡ (ok a, w')
unfolding call
call-ok works rpc w h = h
call-ok unreachable rpc w h = cc h
call-ok answer_lost rpc w h = cc h

logged-returned :
    (o : Option Transaction) (w : World) {t : Transaction} {w' : World}
    → Path (Outcome Transaction × World) (logged o, w) (returned t, w')
    → (o ≡ some t) × (w ≡ w')
unfolding logged
logged-returned none w h = cc h
logged-returned (some t) w h = (cc h, cc h)

started-returned :
    (p : Result TransactionResponse × World) {t : Transaction} {w' : World}
    → then_return started p ≡ (returned t, w')
    → (resp : TransactionResponse) × (p ≡ (ok resp, w'))
      × (to_transaction_domain resp.transaction ≡ some t)
unfolding started
started-returned (ok resp, w) h =
    let (there, same) = logged-returned (to_transaction_domain resp.transaction) w h in
    (resp, cc same, there)
started-returned (err e, w) h = cc h

map_ok-ok :
    {A B : Type 0} (f : A → B) (p : Result A × World) {b : B} {w' : World}
    → map_ok f p ≡ (ok b, w')
    → (a : A) × (p ≡ (ok a, w')) × (f a ≡ b)
map_ok-ok f (ok a, w) h = (a, cc h, cc h)
map_ok-ok f (err e, w) h = cc h

same_id :
    (m : TransactionModel) {t : Transaction}
    → to_transaction_domain (transaction_response m).transaction ≡ some t
    → m.id ≡ t.id
unfolding to_transaction_proto to_transaction_domain
same_id m h = cc h

-- From the outcome of a service of the gateway back to the request of the wallet service.
service-ok :
    (c : Connection) (rpc : World → Result TransactionModel × World) (w : World) {t : Transaction}
    {w' : World}
    → then_return started (call c (λ v. map_ok transaction_response (rpc v)) w) ≡ (returned t, w')
    → (m : TransactionModel) × (rpc w ≡ (ok m, w')) × (m.id ≡ t.id)
service-ok c rpc w h =
    let (resp, called, domain) =
      started-returned (call c (λ v. map_ok transaction_response (rpc v)) w) h in
    let (m, done, same) = map_ok-ok transaction_response (rpc w) (call-ok c _ w called) in
    (m, done, same_id m (rw (← same) at domain))

-- What stands behind an answer to each of the three requests that start a transaction.
pub transfer_service :
    (b : Backend) (req : HttpRequest) (d : TransferFundsRequest) (w : World) {t : Transaction}
    {w' : World}
    → transfer_decoded b (some d) req w ≡ success t w'
    → (m : TransactionModel) × (request_transfer b.requests b.key
          (req.query "userId")
          d.from_account_id
          d.to_account_id
          d.currency
          d.amount
          w
        ≡ (ok m, w'))
      × (m.id ≡ t.id)
unfolding transfer_decoded transfer_funds to_transfer_funds_proto transfer
transfer_service b req d w h = elim (Bool-cases (req.query "userId" == "")) [
  | inl missing ↦ absurd (cc (rw missing at h))
  | inr named ↦
      service-ok b.wallet _ w
        (answer_with-success "Failed to transfer funds, reason: " _ (rw named at h))
]

pub deposit_service :
    (b : Backend) (req : HttpRequest) (d : DepositFundsRequest) (w : World) {t : Transaction}
    {w' : World}
    → deposit_decoded b (some d) req w ≡ success t w'
    → (m : TransactionModel) × (request_deposit b.requests
          (req.query "userId")
          d.account_id
          d.currency
          d.amount
          w
        ≡ (ok m, w'))
      × (m.id ≡ t.id)
unfolding deposit_decoded deposit_funds to_deposit_funds_proto deposit
deposit_service b req d w h = elim (Bool-cases (req.query "userId" == "")) [
  | inl missing ↦ absurd (cc (rw missing at h))
  | inr named ↦
      service-ok b.wallet _ w
        (answer_with-success "Failed to deposit funds, reason: " _ (rw named at h))
]

pub withdrawal_service :
    (b : Backend) (req : HttpRequest) (d : WithdrawFundsRequest) (w : World) {t : Transaction}
    {w' : World}
    → withdraw_decoded b (some d) req w ≡ success t w'
    → (m : TransactionModel) × (request_withdrawal b.requests b.key
          (req.query "userId")
          d.account_id
          d.amount
          w
        ≡ (ok m, w'))
      × (m.id ≡ t.id)
unfolding withdraw_decoded withdraw_funds to_withdraw_funds_proto withdraw
withdrawal_service b req d w h = elim (Bool-cases (req.query "userId" == "")) [
  | inl missing ↦ absurd (cc (rw missing at h))
  | inr named ↦
      service-ok b.wallet _ w
        (answer_with-success "Failed to withdraw funds, reason: " _ (rw named at h))
]
