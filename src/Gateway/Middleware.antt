-- ===== src/Gateway/Middleware.antt =====
-- api-gateway/internal/middlewares/middleware.go: who may call a protected route.
use Prim.Native.Char.{code}
use Prim.Native.String.{String, [], ◌∷◌}
use wallet_app.Base.{ℕ, Bool, false, Option, none, some, ◌==◌, eqb, if◌then◌else◌}
use wallet_app.Wallet.{World}
use wallet_app.Session.{Claims, SessionSettings, validate_access_token}
use wallet_app.Gateway.{HttpRequest, error_response, Answer, answered}
use wallet_app.Gateway.Controllers.{Handler}

-- `authorize` of the middleware, and `Authorize` of authenticator_service.go: is there no error?
unfoldable pub claims_match : String → Option Claims → Bool
claims_match user none = false
claims_match user (some claims) = claims.user_id == user

unfoldable pub authorize : SessionSettings → ℕ → String → String → Bool
authorize session now token user = claims_match user (validate_access_token session now token)

-- `strings.HasPrefix` and `strings.TrimPrefix` in one: what stands behind a prefix.
unfoldable pub behind : String → String → Option String
behind [] s = some s
behind (c ∷ prefix) [] = none
behind (c ∷ prefix) (d ∷ s) =
    let rest = behind prefix s in if eqb (code c) (code d) then rest else none

abbrev pub unauthorized : Answer
unauthorized = answered 401 (error_response "Unauthorized" "Unauthorized to access this route")

unfoldable pub with_token :
    SessionSettings → ℕ → Handler → Option String → HttpRequest → World → Answer × World
with_token session now handler none req w = (unauthorized, w)
with_token session now handler (some token) req w =
    if req.query "userId" == ""
    then (unauthorized, w)
    else if authorize session now token (req.query "userId")
    then handler req w
    else (unauthorized, w)

-- `AuthorizeUser`
unfoldable pub authorize_user : SessionSettings → ℕ → Handler → Handler
authorize_user session now handler req w =
    if req.authorization == ""
    then (unauthorized, w)
    else with_token session now handler (behind "Bearer " req.authorization) req w
