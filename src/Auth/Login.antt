-- ===== src/Auth/Login.antt =====
-- `LoginUser` of auth-service/internal/services/auth_service.go. Comparing a password with its hash
-- (bcrypt) and signing tokens (JWT) are not under the repository and are parameters (`Crypto`).
use wallet_app.Base.{ℕ, String, Bool, true, false, Option, none, some, if◌then◌else◌}
use wallet_app.Models.{UserModel, UserAuthModel}
use wallet_app.Errors.{Result, ok, err, invalid_credentials, already_logged_in, token_not_generated}
use wallet_app.Store.{Faults}
use wallet_app.Cache.{CacheFaults, Ttl}
use wallet_app.Wallet.{World}
use wallet_app.Auth.{find_by_username, get_token_by_user_id, insert_token}

-- `ComparePassword`, and the two tokens of `generateSessionTokens`, where signing works.
pub record Crypto : Type 0 where
  pub compare_password : String → String → Bool
  pub session_tokens : UserModel → Option (String × String)

-- The time, the calls that fail in each repository method, the lifetimes of the cache, and the id
-- of a new session.
pub record AuthEnv : Type 0 where
  pub now : ℕ
  pub ttl : Ttl
  pub find : Faults
  pub get_token : Faults
  pub insert : Faults
  pub cache_fails : CacheFaults
  pub session_id : String
  pub crypto : Crypto

unfoldable pub after_token :
    String → String → Result Bool × World → Result (String × String) × World
after_token user access (ok true, w) = (ok (access, user), w)
after_token user access (ok false, w) = (err already_logged_in, w)
after_token user access (err e, w) = (err e, w)

-- The token is made for the username, the id and the email of the user.
unfoldable pub login_with :
    AuthEnv → UserModel → Option (String × String) → World → Result (String × String) × World
login_with env u none w = (err token_not_generated, w)
login_with env u (some (access, refresh)) w =
    after_token u.id access
      (insert_token env.ttl env.now env.insert env.cache_fails env.session_id u.id refresh w)

unfoldable pub token_user : UserModel → UserModel
token_user u = record u { name = ""; password = ""; created_at = 0; updated_at = 0 }

unfoldable pub login_checked :
    AuthEnv → UserModel → Result (Option UserAuthModel) → World → Result (String × String) × World
login_checked env u (err e) w = (err e, w)
login_checked env u (ok none) w = login_with env u (env.crypto.session_tokens (token_user u)) w
login_checked env u (ok (some a)) w =
    if a.is_currently_logged_in
    then (err already_logged_in, w)
    else login_with env u (env.crypto.session_tokens (token_user u)) w

unfoldable pub login_found :
    AuthEnv → String → Result (Option UserModel) → World → Result (String × String) × World
login_found env password (err e) w = (err e, w)
login_found env password (ok none) w = (err invalid_credentials, w)
login_found env password (ok (some u)) w =
    if env.crypto.compare_password u.password password
    then login_checked env u (get_token_by_user_id env.get_token u.id w.db) w
    else (err invalid_credentials, w)

-- `LoginUser`: the access token and the id of the user.
unfoldable pub login_user : AuthEnv → String → String → World → Result (String × String) × World
login_user env username password w =
    login_found env password (find_by_username env.find username w.db) w
