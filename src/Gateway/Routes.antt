-- ===== src/Gateway/Routes.antt =====
-- The routes of api-gateway/cmd/main.go.
use wallet_app.Base.{
  ℕ, String, Bool, true, false, ◌&&◌, ◌||◌, Option, none, some, ◌==◌, ltb, find_where, count_where,
  List, [], ◌∷◌, if◌then◌else◌,
}
use wallet_app.Session.{SessionSettings}
use wallet_app.Gateway.{BodyDecoder, HttpRequest, message, Answer, answered}
use wallet_app.Gateway.Services.{Backend}
use wallet_app.Gateway.Controllers.{
  Handler, handle_deposit, handle_withdraw, handle_transfer_funds, handle_get_balance,
  handle_list_transactions, handle_account_create, handle_account_update, handle_user_register,
  handle_user_login, handle_refresh_token, handle_health_liveness, handle_health_readiness,
}
use wallet_app.Gateway.Middleware.{authorize_user}

-- A route: the pattern's method and path, whether the middleware stands before its handler, and its
-- handler.
pub record Route : Type 0 where
  pub method : String
  pub path : String
  pub protected : Bool
  pub run : Handler

abbrev pub route : String → String → Bool → Handler → Route
route method path protected run = record {
  method = method;
  path = path;
  protected = protected;
  run = run;
}

-- The routes of `main`.
unfoldable pub routes : BodyDecoder → Backend → List Route
routes decode b =
    route "POST" "/user/register" false (handle_user_register decode b)
    ∷ route "POST" "/user/login" false (handle_user_login decode b)
    ∷ route "POST" "/user/refresh" false (handle_refresh_token decode)
    ∷ route "POST" "/account/create" true (handle_account_create decode b)
    ∷ route "UPDATE" "/account/update" true (handle_account_update decode)
    ∷ route "POST" "/wallet/deposit" true (handle_deposit decode b)
    ∷ route "POST" "/wallet/withdraw" true (handle_withdraw decode b)
    ∷ route "POST" "/wallet/transfer" true (handle_transfer_funds decode b)
    ∷ route "GET" "/wallet/transactions" true (handle_list_transactions b)
    ∷ route "GET" "/wallet/balance" true (handle_get_balance b)
    ∷ route "GET" "/health/liveness" false handle_health_liveness
    ∷ route "GET" "/health/readiness" false handle_health_readiness
    ∷ []

-- A pattern for GET takes HEAD too.
abbrev pub takes : HttpRequest → Route → Bool
takes req r =
    (r.path == req.path)
    && ((r.method == req.method) || ((r.method == "GET") && (req.method == "HEAD")))

abbrev pub has_path : HttpRequest → Route → Bool
has_path req r = r.path == req.path

-- What the multiplexer answers where no route takes the request: a path that is known under other
-- methods only is not missing.
unfoldable pub refuse : Bool → Answer
refuse true = answered 405 (message "Method Not Allowed")
refuse false = answered 404 (message "404 page not found")

unfoldable pub run_route : SessionSettings → ℕ → List Route → Option Route → Handler
run_route session now known none req w = (refuse (ltb 0 (count_where (has_path req) known)), w)
run_route session now known (some r) req w =
    if r.protected then authorize_user session now r.run req w else r.run req w

-- The multiplexer, with the settings of the session tokens and the time. No two routes take the same
-- request.
unfoldable pub serve : SessionSettings → ℕ → BodyDecoder → Backend → Handler
serve session now decode b req w =
    let known = routes decode b in run_route session now known (find_where (takes req) known) req w
