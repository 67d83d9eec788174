-- ===== src/Auth/Register.antt =====
-- `RegisterUser` and `generateSessionTokens` of auth-service/internal/services/auth_service.go,
-- `HashPassword` of auth-service/internal/utils/psw.go, and the calls of
-- auth-service/internal/infra/grpc/grpc.go with auth-service/internal/mapping/mapper.go.
use wallet_app.Base.{ℕ, String, Option, none, some, ◌==◌, if◌then◌else◌}
use wallet_app.Models.{UserModel}
use wallet_app.Errors.{
  Result, ok, err, empty_password, hash_failed, token_not_generated, user_exists, not_implemented,
}
use wallet_app.Store.{Faults}
use wallet_app.Cache.{CacheFaults, Ttl}
use wallet_app.Wallet.{World}
use wallet_app.Auth.{find_by_user_id, insert_user}
use wallet_app.Auth.Login.{AuthEnv, login_user}
use wallet_app.Auth.Validation.{Unicode, validate_user}
use wallet_app.Session.{SessionSettings, generate_access_token, generate_refresh_token}
use wallet_app.Protocol.{RegisterUserRequest, LoginUserRequest, AuthenticateResponse}

-- bcrypt's `GenerateFromPassword`, which refuses some passwords.
abbrev pub Hasher : Type 0
Hasher = String → Option String

-- `HashPassword`
unfoldable pub hash_password : Hasher → String → Result String
hash_password hash password = if password == "" then err empty_password else hashed (hash password)
  where
    hashed : Option String → Result String
    hashed none = err hash_failed
    hashed (some h) = ok h

-- `generateSessionTokens`: the access token and the refresh token.
unfoldable pub with_refresh : String → Option String → Option (String × String)
with_refresh access none = none
with_refresh access (some refresh) = some (access, refresh)

unfoldable pub with_access : Option String → Option String → Option (String × String)
with_access none refresh = none
with_access (some access) refresh = with_refresh access refresh

unfoldable pub generate_session_tokens : SessionSettings → ℕ → UserModel → Option (String × String)
generate_session_tokens s now user =
    with_access (generate_access_token s now (some user)) (generate_refresh_token s now (some user))

-- The time, the calls that fail, the lifetimes, the tables, the library calls, and the id that
-- `uuid.NewString` makes.
pub record RegisterEnv : Type 0 where
  pub now : ℕ
  pub ttl : Ttl
  pub find : Faults
  pub insert : Faults
  pub cache_fails : CacheFaults
  pub unicode : Unicode
  pub hash : Hasher
  pub session : SessionSettings
  pub new_id : String

-- The answer: the id and the access token.
unfoldable pub registered : String → Result UserModel × World → Result AuthenticateResponse × World
registered access (ok inserted, w) = (ok (record { id = inserted.id; access_token = access }), w)
registered access (err e, w) = (err e, w)

unfoldable pub register_with :
    RegisterEnv → UserModel → Option (String × String) → World → Result AuthenticateResponse × World
register_with env user none w = (err token_not_generated, w)
register_with env user (some (access, refresh)) w = registered access (
    insert_user env.ttl env.now env.insert env.cache_fails user.name user.email user.username
      user.id user.password refresh w)

unfoldable pub register_hashed :
    RegisterEnv → UserModel → Result String → World → Result AuthenticateResponse × World
register_hashed env user (err e) w = (err e, w)
register_hashed env user (ok hashed) w =
    let hashed_user = record user { password = hashed } in
    register_with env hashed_user (generate_session_tokens env.session env.now hashed_user) w

unfoldable pub register_new :
    RegisterEnv
    → UserModel
    → Result (Option UserModel)
    → World
    → Result AuthenticateResponse × World
register_new env user (err e) w = (err e, w)
register_new env user (ok (some existing)) w = (err user_exists, w)
register_new env user (ok none) w =
    register_hashed env user (hash_password env.hash user.password) w

unfoldable pub register_valid :
    RegisterEnv → Result UserModel → World → Result AuthenticateResponse × World
register_valid env (err e) w = (err e, w)
register_valid env (ok user) w =
    register_new env (record user { id = env.new_id }) (find_by_user_id env.find env.new_id w.db) w

-- `RegisterUser`
unfoldable pub register_user : RegisterEnv → UserModel → World → Result AuthenticateResponse × World
register_user env user w = register_valid env (validate_user env.unicode user) w

-- `ToRegisterUserDomain`; Go's zero time is 0.
unfoldable pub to_register_user : RegisterUserRequest → UserModel
to_register_user req = record {
  id = req.id;
  name = req.name;
  username = req.username;
  email = req.email;
  password = req.password;
  created_at = 0;
  updated_at = 0;
}

-- `RegisterUser` of the gRPC handler.
unfoldable pub register :
    RegisterEnv → RegisterUserRequest → World → Result AuthenticateResponse × World
register env req w = register_user env (to_register_user req) w

unfoldable pub login_answer : Result (String × String) × World → Result AuthenticateResponse × World
login_answer (ok (access, user), w) = (ok (record { id = user; access_token = access }), w)
login_answer (err e, w) = (err e, w)

-- `LoginUser` of the gRPC handler.
unfoldable pub login : AuthEnv → LoginUserRequest → World → Result AuthenticateResponse × World
login env req w = login_answer (login_user env req.username req.password w)

-- `RefreshToken` of the gRPC handler.
unfoldable pub refresh_token : String → Result String
refresh_token token = err not_implemented
