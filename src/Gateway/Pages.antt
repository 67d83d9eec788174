-- ===== src/Gateway/Pages.antt =====
-- The page that a client asks the gateway for, on its way to the wallet service: as a text in the
-- query, as an int32 and an int8 in the gateway, and as a text and an int32 in the message.
use wallet_app.Base.{
  ℕ, ◌≡◌, ◌≢◌, refl, sym, ap, ◌∙◌, find_where, String, ◌||◌, ◌==◌, none, some, arith, ℤ, in_int64,
  inl, inr, Bool-cases, Option-cases, ◌↔◌,
}
use wallet_app.Base.Decimal.{
  Parsed, syntax, range, value, parse_int, atoi, itoa, int8, int32, wrap, residue,
}
use wallet_app.Base.Decimal.Reading.{atoi-itoa, wrap8, wrap32, parse_int-fits}
use wallet_app.Wallet.{World}
use wallet_app.Rpc.{to_list_request}
use wallet_app.Gateway.{
  BodyDecoder, HttpRequest, Body, answered, exits, message_with, transactions_shown, Outcome,
  returned, failed, crashed,
}
use wallet_app.Gateway.Mapping.{convert_string_to_int, without_error, to_list_transactions_proto}
use wallet_app.Session.{SessionSettings}
use wallet_app.Gateway.Middleware.{authorize_user, unauthorized}
use wallet_app.Gateway.Routes.{routes, run_route, serve}
use wallet_app.Gateway.Authorization.{IsAuthorized, authorize_user-decides}
use wallet_app.Gateway.Services.{Backend}
use wallet_app.Gateway.Controllers.{answer_with, handle_list_transactions, list_page, size_or_zero}

value_of : (p : Parsed ℤ) {n : ℤ} → without_error p ≡ some n → p ≡ value n
unfolding without_error
value_of syntax h = cc h
value_of (range n) h = cc h
value_of (value n) h = cc h

-- An int16 is what it was in an int32, on the wire, and in an int32 again.
page_kept :
    (page : String) {n : ℤ}
    → convert_string_to_int 16 page ≡ some n
    → int32 (atoi (itoa (int32 n))) ≡ n
unfolding convert_string_to_int in_int64
page_kept page {n} h =
    let (low, high) = parse_int-fits 16 page (omega arith) (value_of (parse_int 16 page) h) in
    let same : int32 n ≡ n = wrap32 n (omega (arith, low)) (omega (arith, high)) in
    let sent : atoi (itoa n) ≡ n = atoi-itoa n (ground (arith, low, high)) in
    rw (same, sent, same) refl

size_kept :
    (size : String)
    → int8 (int8 (size_or_zero (convert_string_to_int 8 size)))
      ≡ size_or_zero (convert_string_to_int 8 size)
unfolding size_or_zero wrap residue
size_kept size = elim (Option-cases (convert_string_to_int 8 size)) [
  | inl unreadable ↦ rw unreadable refl
  | inr (n, there) ↦
      let (low, high) =
        parse_int-fits 8 size {n = n} (omega arith)
          (value_of (parse_int 8 size) {n = n} (unfold convert_string_to_int in there)) in
      let same : int8 n ≡ n = wrap8 n (omega (arith, low)) (omega (arith, high)) in
      rw (there, same, same) refl
]

-- A page that the gateway reads from a query reaches the wallet service as it is; so does a page size,
-- and one that the gateway cannot read reaches the service as 0.
pub page_reaches_service :
    (account page page_size : String) {n : ℤ}
    → convert_string_to_int 16 page ≡ some n
    → let size = size_or_zero (convert_string_to_int 8 page_size) in
      to_list_request (to_list_transactions_proto account (int32 n) (int8 size))
      ≡ (record { account_id = account; page = n; page_size = size })
unfolding to_list_request to_list_transactions_proto
page_reaches_service account page page_size h = rw (page_kept page h, size_kept page_size) refl

answer_with-answers :
    {A : Type 0} (show : A → Body) (text : String) (p : Outcome A × World)
    → (answer_with show (λ e. answered 400 (message_with text e)) p).0 ≢ exits
answer_with-answers show text (returned a, w) h = cc h
answer_with-answers show text (failed e, w) h = cc h
answer_with-answers show text (crashed, w) h = cc h

list_page-answers :
    (b : Backend) (page : ℤ) (req : HttpRequest) (w : World)
    → (list_page b (some page) req w).0 ≢ exits
unfolding list_page
list_page-answers b page req w h =
    elim (Bool-cases ((req.query "accountId" == "") || (req.query "page" == ""))) [
      | inl missing ↦ cc (rw missing at h)
      | inr given ↦
          answer_with-answers (λ resp. transactions_shown resp.transactions resp.next_page_token)
            "Failed to retrieve transactions, reason: " _ (rw given at h)
    ]

-- The controller exits on what it is given if and only if it cannot read the page as an int16.
controller-exits :
    (b : Backend) (req : HttpRequest) (w : World)
    → ((handle_list_transactions b req w).0 ≡ exits)
      ↔ (convert_string_to_int 16 (req.query "page") ≡ none)
unfolding handle_list_transactions
controller-exits b req w = elim (Option-cases (convert_string_to_int 16 (req.query "page"))) [
  | inl unreadable ↦ ((λ _. unreadable), (λ _. rw unreadable (unfold list_page in refl)))
  | inr (n, there) ↦ (
    (λ left. absurd (list_page-answers b n req w (rw there at left))),
    (λ unreadable. absurd (cc (there, unreadable))),
  )
]

-- On a GET of /wallet/transactions the gateway exits if and only if the request is authorised and its
-- page cannot be read as an int16.
pub unreadable_page_exits :
    (session : SessionSettings) (now : ℕ) (decode : BodyDecoder) (b : Backend) (req : HttpRequest)
    (w : World)
    → req.method ≡ "GET"
    → req.path ≡ "/wallet/transactions"
    → ((serve session now decode b req w).0 ≡ exits)
      ↔ (IsAuthorized session now req × (convert_string_to_int 16 (req.query "page") ≡ none))
unfolding serve run_route routes find_where
unreadable_page_exits session now decode b req w method path =
    let run = handle_list_transactions b in
    let served : serve session now decode b req w ≡ authorize_user session now run req w =
      rw (method, path) refl in
    elim (authorize_user-decides session now run req w) [
      | inl (authorized, ran) ↦
          let same : (serve session now decode b req w).0 ≡ (run req w).0 =
            ap (λ p. p.0) (served ∙ ran) in
          (
            (λ left. (authorized, (controller-exits b req w).0 (sym same ∙ left))),
            (λ h. same ∙ (controller-exits b req w).1 h.1),
          )
      | inr (refused, answer) ↦
          let same : (serve session now decode b req w).0 ≡ unauthorized =
            ap (λ p. p.0) (served ∙ answer) in
          ((λ left. absurd (cc (same, left))), (λ h. absurd (refused h.0)))
    ]
