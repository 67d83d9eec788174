-- ===== src/Session/Tokens.antt =====
-- What a token proves: which tokens pass the checks, and for how long.
use wallet_app.Base.{
  ℕ, ◌+◌, ◌*◌, ◌≤◌, ◌<◌, ◌≡◌, refl, subst, String, Bool, true, false, Option, none, some, inl, inr,
  arith, ltb, Bool-cases, if◌then◌else◌,
}
use wallet_app.Models.{UserModel}
use wallet_app.Session.{
  Claims, SigningMethod, hmac, other, KeyFunc, Jwt, SessionSettings, claims_for,
  generate_access_token, generate_refresh_token, key_of, if_valid, validate_access_token,
}

-- What golang-jwt documents. A token that was signed with the key that the key function has for an
-- HMAC parses to its claims until they expire, and no more from then on. What parses under a key
-- function has a method for which the function has a key, and is signed by that key.
pub record JwtLaws (j : Jwt) (SignedBy : SigningMethod → String → Claims → String → Type 0)
    : Type 0 where
  pub accepts :
      (keys : KeyFunc) (secret token : String) (claims : Claims) (now : ℕ)
      → keys hmac ≡ some secret
      → j.signed_string secret claims ≡ some token
      → now < claims.expires_at
      → j.parse_with_claims keys now token ≡ some (claims, true)
  pub expires :
      (keys : KeyFunc) (secret token : String) (claims : Claims) (now : ℕ)
      → j.signed_string secret claims ≡ some token
      → claims.expires_at ≤ now
      → j.parse_with_claims keys now token ≡ none
  pub sound :
      (keys : KeyFunc) (token : String) (claims : Claims) (now : ℕ)
      → j.parse_with_claims keys now token ≡ some (claims, true)
      → (m : SigningMethod) × (key : String) × (keys m ≡ some key) × SignedBy m key claims token

-- A token whose parsing failed or which is not valid has no claims.
if_valid-some :
    (p : Option (Claims × Bool)) {claims : Claims}
    → if_valid p ≡ some claims
    → p ≡ some (claims, true)
unfolding if_valid
if_valid-some none h = cc
if_valid-some (some (c, true)) h = cc
if_valid-some (some (c, false)) h = cc

hmac_only :
    {secret : String} (P : SigningMethod → String → Type 0) (m : SigningMethod) {key : String}
    → key_of secret m ≡ some key
    → P m key
    → P hmac secret
unfolding key_of
hmac_only P hmac same h = subst (P hmac) (cc) h
hmac_only P (other name) same h = cc

module _ {SignedBy : SigningMethod → String → Claims → String → Type 0} (s : SessionSettings)
    (laws : JwtLaws s.jwt SignedBy) where
  -- An access token that was made for a user passes the check exactly until its lifetime is over,
  -- and then shows the claims of that user.
  pub access_token_lifetime :
      (now later : ℕ) (user : UserModel) (token : String)
      → generate_access_token s now (some user) ≡ some token
      → validate_access_token s later token ≡ (
          if ltb later (now + s.access_ttl_minutes * 60)
          then some (claims_for now (s.access_ttl_minutes * 60) user)
          else none)
  unfolding generate_access_token validate_access_token claims_for if_valid key_of
  access_token_lifetime now later user token made =
      elim (Bool-cases (ltb later (now + s.access_ttl_minutes * 60))) [
        | inl early ↦
            rw
              (
                early,
                laws.accepts (key_of s.jwt_secret) s.jwt_secret token _ later refl made
                    (ground arith),
              )
              refl
        | inr late ↦
            rw
              (
                late,
                laws.expires (key_of s.jwt_secret) s.jwt_secret token _ later made (ground arith),
              )
              refl
      ]

  -- A refresh token passes the check of access tokens until its own, longer, lifetime is over.
  pub refresh_token_grants_access :
      (now later : ℕ) (user : UserModel) (token : String)
      → generate_refresh_token s now (some user) ≡ some token
      → later < now + s.refresh_ttl_minutes * 3600
      → validate_access_token s later token
        ≡ some (claims_for now (s.refresh_ttl_minutes * 3600) user)
  unfolding generate_refresh_token validate_access_token claims_for if_valid key_of
  refresh_token_grants_access now later user token made early =
      rw (laws.accepts (key_of s.jwt_secret) s.jwt_secret token _ later refl made early) refl

  -- What passes the check is signed with an HMAC by the secret of the services.
  pub accepted_is_signed :
      (now : ℕ) (token : String) (claims : Claims)
      → validate_access_token s now token ≡ some claims
      → SignedBy hmac s.jwt_secret claims token
  unfolding validate_access_token
  accepted_is_signed now token claims passed =
      let (m, key, same, signed) =
        laws.sound (key_of s.jwt_secret) token claims now
          (if_valid-some (s.jwt.parse_with_claims (key_of s.jwt_secret) now token) passed) in
      hmac_only (λ m key. SignedBy m key claims token) m same signed
