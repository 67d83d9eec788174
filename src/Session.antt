-- ===== src/Session.antt =====
-- shared/pkg/session/session.go: the tokens that the services hand out and check. Signing and
-- parsing (golang-jwt) are not under the repository and are parameters (`Jwt`).
pub mod Tokens
use wallet_app.Base.{ℕ, ◌+◌, ◌*◌, String, Bool, true, false, Option, none, some, if◌then◌else◌}
use wallet_app.Models.{UserModel}

-- `AccessTokenClaims` and `refreshTokenClaims`, which have the same fields; times are whole seconds.
pub record Claims : Type 0 where
  pub user_id : String
  pub username : String
  pub email : String
  pub subject : String
  pub issued_at : ℕ
  pub expires_at : ℕ

-- The signing method of a token: an HMAC, or another one by its name.
pub data SigningMethod : Type 0 where
  hmac : SigningMethod
  other : String → SigningMethod

abbrev pub KeyFunc : Type 0
KeyFunc = SigningMethod → Option String

-- `SignedString` for HS256 with a key, and `ParseWithClaims` at a time: an error, or the claims and
-- whether the token is valid.
pub record Jwt : Type 0 where
  pub signed_string : String → Claims → Option String
  pub parse_with_claims : KeyFunc → ℕ → String → Option (Claims × Bool)

-- `jwtSecret`, and the lifetimes of the tokens: `ACCESS_TOKEN_TTL_MINUTES` in minutes, and
-- `REFRESH_TOKEN_TTL_MINUTES`, which is taken in hours.
pub record SessionSettings : Type 0 where
  pub jwt : Jwt
  pub jwt_secret : String
  pub access_ttl_minutes : ℕ
  pub refresh_ttl_minutes : ℕ

unfoldable pub claims_for : ℕ → ℕ → UserModel → Claims
claims_for now lifetime user = record {
  user_id = user.id;
  username = user.username;
  email = user.email;
  subject = user.id;
  issued_at = now;
  expires_at = now + lifetime;
}

-- `GenerateAccessToken`
unfoldable pub generate_access_token : SessionSettings → ℕ → Option UserModel → Option String
generate_access_token s now none = none
generate_access_token s now (some user) =
    s.jwt.signed_string s.jwt_secret (claims_for now (s.access_ttl_minutes * 60) user)

-- `GenerateRefreshToken`
unfoldable pub generate_refresh_token : SessionSettings → ℕ → Option UserModel → Option String
generate_refresh_token s now none = none
generate_refresh_token s now (some user) =
    s.jwt.signed_string s.jwt_secret (claims_for now (s.refresh_ttl_minutes * 3600) user)

-- The key of a token: a method that is no HMAC has none.
unfoldable pub key_of : String → KeyFunc
key_of secret hmac = some secret
key_of secret (other name) = none

unfoldable pub if_valid : Option (Claims × Bool) → Option Claims
if_valid none = none
if_valid (some (claims, valid)) = if valid then some claims else none

-- `ValidateAccessToken`
unfoldable pub validate_access_token : SessionSettings → ℕ → String → Option Claims
validate_access_token s now token =
    if_valid (s.jwt.parse_with_claims (key_of s.jwt_secret) now token)

-- `ValidateRefreshToken`
unfoldable pub validate_refresh_token : SessionSettings → ℕ → String → Option Claims
validate_refresh_token s now token =
    if_valid (s.jwt.parse_with_claims (key_of s.jwt_secret) now token)
