-- ===== src/Tests/Gateway.antt =====
-- A transfer that is posted to the gateway, and the other theorems on the gateway at small inputs.

use wallet_app.Base.{
  ◌≡◌, ◌≢◌, ◌⊎◌, ◌↔◌, inl, inr, refl, true, false, none, some, String, Bool, Option, [], ◌∷◌, ◌&&◌,
  ◌==◌, eq_iff, arith, pos, eqb, ltb, find_where, count_where, if◌then◌else◌,
}
use wallet_app.Base.Decimal.{parse_int, int8, int32}
use wallet_app.Store.{no_faults, autocommit}
use wallet_app.Wallet.{transfer_handler, lock_id}
use wallet_app.Outbox.{OutboxInsertConfig, outbox_row}
use wallet_app.Messages.{
  handle, wallet_handlers, forget, pending_transaction, transfer_requested, payload_of,
  request_transfer,
}
use wallet_app.Auth.Validation.{Unicode}
use wallet_app.Session.{claims_for, validate_access_token}
use wallet_app.Rpc.{to_list_request}
use wallet_app.Gateway.{BodyDecoder, HttpRequest, Transaction, works, exits}
use wallet_app.Gateway.Mapping.{to_list_transactions_proto, convert_string_to_int}
use wallet_app.Gateway.Services.{Backend}
use wallet_app.Gateway.Controllers.{handle_list_transactions, handle_health_liveness}
use wallet_app.Gateway.Middleware.{authorize_user, unauthorized}
use wallet_app.Gateway.Routes.{serve, refuse}
use wallet_app.Gateway.Authorization.{IsAuthorized, authorize_user-decides}
use wallet_app.Gateway.Guards.{IsOpen, serve-IsAuthorized}
use wallet_app.Gateway.Journey.{posted_transfer_reaches_handler}
use wallet_app.Gateway.Pages.{page_reaches_service, unreadable_page_exits}
use wallet_app.Tests.Samples.{fresh, world, calm, ttl}
use wallet_app.Tests.Messages.{desk, sent, decoder_of}
use wallet_app.Tests.Sessions.{settings}

abbrev decode : BodyDecoder
decode = record {
  create_user = λ _. none;
  login_user = λ _. none;
  refresh_token = λ _. none;
  account = λ _. none;
  update_account = λ _. none;
  transfer_funds = λ _.
      some
        (record { from_account_id = "a"; to_account_id = "b"; currency = "EUR"; amount = pos 30 });
  deposit_funds = λ _. none;
  withdraw_funds = λ _. none;
}

abbrev plain : Unicode
plain = record {
  is_space = λ _. false;
  is_upper = λ _. true;
  is_lower = λ _. true;
  is_number = λ _. true;
  is_punct = λ _. true;
  is_symbol = λ _. true;
  to_lower = λ c. c;
}

abbrev pub backend : Backend
backend = record {
  wallet = works;
  auth = works;
  key = "t9";
  requests = desk;
  service = record {
    now = 5;
    finds = no_faults;
    inserts = no_faults;
    selects = no_faults;
    cache_fails = λ _. false;
    ttl = ttl;
    account_id = "c";
    seen = fresh;
  };
  registers = record {
    now = 5;
    ttl = ttl;
    find = no_faults;
    insert = no_faults;
    cache_fails = λ _. false;
    unicode = plain;
    hash = λ _. some "hash";
    session = settings 900;
    new_id = "ann";
  };
  logins = record {
    now = 5;
    ttl = ttl;
    find = no_faults;
    get_token = no_faults;
    insert = no_faults;
    cache_fails = λ _. false;
    session_id = "s1";
    crypto = record {
      compare_password = λ hash password. password == "secret";
      session_tokens = λ _. some ("access", "refresh");
    };
  };
}

-- A request to a path by the member, with a header and a page.
abbrev request : String → String → String → String → HttpRequest
request method path header page = record {
  method = method;
  path = path;
  authorization = header;
  query = λ key. if key == "userId" then "ann" else if key == "page" then page else "";
  body = "{}";
}

abbrev posted : HttpRequest
posted = request "POST" "/wallet/transfer" "Bearer a.b.c" ""

pub apart : (s t : String) → (s == t) ≡ false → s ≢ t
apart s t differ same = absurd (cc (differ, (eq_iff s t).1 same))

transfers_are_guarded : IsOpen "/wallet/transfer" → ⊥
transfers_are_guarded (inl e) = apart "/wallet/transfer" "/user/register" refl e
transfers_are_guarded (inr (inl e)) = apart "/wallet/transfer" "/user/login" refl e
transfers_are_guarded (inr (inr (inl e))) = apart "/wallet/transfer" "/user/refresh" refl e
transfers_are_guarded (inr (inr (inr (inl e)))) = apart "/wallet/transfer" "/health/liveness" refl e
transfers_are_guarded (inr (inr (inr (inr e)))) =
    apart "/wallet/transfer" "/health/readiness" refl e

serve-IsAuthorized_example :
    let req = request "POST" "/wallet/transfer" "Basic a.b.c" "" in
    IsAuthorized (settings 900) 10 req
    ⊎ ((serve (settings 900) 10 decode backend req (world fresh) ≡ (unauthorized, world fresh))
        ⊎ ((known : Bool) × (serve (settings 900) 10 decode backend req (world fresh)
              ≡ (refuse known, world fresh))))
serve-IsAuthorized_example =
    serve-IsAuthorized (settings 900) 10 decode backend
      (request "POST" "/wallet/transfer" "Basic a.b.c" "") (world fresh) transfers_are_guarded

authorize_user-decides_example :
    let answer = authorize_user (settings 900) 10 handle_health_liveness posted (world fresh) in
    (IsAuthorized (settings 900) 10 posted × (answer ≡ handle_health_liveness posted (world fresh)))
    ⊎ ((IsAuthorized (settings 900) 10 posted → ⊥) × (answer ≡ (unauthorized, world fresh)))
authorize_user-decides_example =
    authorize_user-decides (settings 900) 10 handle_health_liveness posted (world fresh)

page_reaches_service_example :
    to_list_request (to_list_transactions_proto "a" (int32 (pos 12)) (int8 (pos 9)))
    ≡ (record { account_id = "a"; page = pos 12; page_size = pos 9 })
unfolding parse_int wallet_app.Gateway.Controllers.size_or_zero convert_string_to_int
    wallet_app.Gateway.Mapping.without_error wallet_app.Base.Decimal.signed
    wallet_app.Base.Decimal.parse_uint wallet_app.Base.Decimal.scan
page_reaches_service_example = page_reaches_service "a" "12" "9" refl

unreadable_page_exits_example :
    let req = request "GET" "/wallet/transactions" "Bearer a.b.c" "" in
    ((serve (settings 900) 10 decode backend req (world fresh)).0 ≡ exits)
    ↔ (IsAuthorized (settings 900) 10 req × (convert_string_to_int 16 "" ≡ none))
unreadable_page_exits_example =
    unreadable_page_exits (settings 900) 10 decode backend
      (request "GET" "/wallet/transactions" "Bearer a.b.c" "") (world fresh) refl refl

posted_transfer_reaches_handler_example :
    IsAuthorized (settings 900) 10 posted
    × (handle
          (decoder_of (sent transfer_requested "a" "b" "EUR"))
          (wallet_handlers (decoder_of (sent transfer_requested "a" "b" "EUR")) calm)
          "{}"
          (world fresh)
        ≡ forget (transfer_handler calm "t9" "ann" "a" "b" "EUR" (pos 30) (world fresh)))
unfolding wallet_app.Messages.or_new serve wallet_app.Gateway.Routes.run_route find_where
    wallet_app.Gateway.Routes.routes authorize_user wallet_app.Gateway.Middleware.with_token
    wallet_app.Gateway.Middleware.behind wallet_app.Gateway.Middleware.authorize
    wallet_app.Gateway.Middleware.claims_match validate_access_token wallet_app.Session.if_valid
    wallet_app.Session.key_of claims_for wallet_app.Gateway.Controllers.handle_transfer_funds
    wallet_app.Gateway.Controllers.transfer_decoded wallet_app.Gateway.Services.transfer_funds
    wallet_app.Gateway.Services.started wallet_app.Gateway.Services.logged wallet_app.Gateway.call
    wallet_app.Gateway.Mapping.to_transfer_funds_proto
    wallet_app.Gateway.Mapping.to_transaction_domain wallet_app.Gateway.Mapping.time_of
    wallet_app.Rpc.transfer wallet_app.Rpc.to_transaction_proto wallet_app.Rpc.status_text
    request_transfer wallet_app.Messages.enqueue wallet_app.Messages.answer
    wallet_app.Outbox.outbox_insert wallet_app.Outbox.insert_outbox wallet_app.Outbox.refused
    wallet_app.Outbox.outbox_idempotency_check wallet_app.Outbox.release_unless_inserted
    wallet_app.Outbox.Relay.insert_outbox_relay autocommit
    wallet_app.Cache.transaction_idempotency_check count_where lock_id pending_transaction
    outbox_row payload_of
posted_transfer_reaches_handler_example =
    posted_transfer_reaches_handler (settings 900) 10 decode backend posted (world fresh)
      (record { from_account_id = "a"; to_account_id = "b"; currency = "EUR"; amount = pos 30 })
      {t = record {
        id = "t9";
        from_account = "a";
        to_account = "b";
        amount = pos 30;
        currency = "EUR";
        status = "pending";
        created_at = 0;
        updated_at = 0;
      }}
      {w' = (request_transfer desk "t9" "ann" "a" "b" "EUR" (pos 30) (world fresh)).1}
      {row = sent transfer_requested "a" "b" "EUR"}
      (decoder_of (sent transfer_requested "a" "b" "EUR")) "{}" "{}" calm (world fresh) refl refl
      refl refl refl (omega arith, omega arith) refl refl
