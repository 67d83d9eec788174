-- ===== src/Tests/Sessions.antt =====
-- A signer that signs the claims of one user under one secret, which meets the laws of the library,
-- and the theorems on tokens with it.
use wallet_app.Base.{
  ℕ, ◌≡◌, refl, sym, ap, String, Bool, true, false, ◌&&◌, Option, none, some, inl, inr, arith, ltb,
  eqb, ◌==◌, eq_iff, Bool-cases, if◌then◌else◌,
}
use wallet_app.Models.{UserModel}
use wallet_app.Session.{
  Claims, SigningMethod, hmac, Jwt, SessionSettings, claims_for, generate_access_token,
  generate_refresh_token, validate_access_token,
}
use wallet_app.Session.Tokens.{JwtLaws, access_token_lifetime, refresh_token_grants_access}

unfoldable pub same_claims : Claims → Claims → Bool
same_claims c d =
    (c.user_id == d.user_id)
    && ((c.username == d.username)
        && ((c.email == d.email)
            && ((c.subject == d.subject)
                && (eqb c.issued_at d.issued_at && eqb c.expires_at d.expires_at))))

abbrev pub is_secret : Option String → Bool
is_secret none = false
is_secret (some key) = key == "secret"

abbrev pub signer : Claims → Jwt
signer only = record {
  signed_string = λ secret claims.
      if (secret == "secret") && same_claims claims only then some "a.b.c" else none;
  parse_with_claims = λ keys now token.
      if (token == "a.b.c") && (is_secret (keys hmac) && ltb now only.expires_at)
      then some (only, true)
      else none;
}

abbrev pub OnlySigned : Claims → SigningMethod → String → Claims → String → Type 0
OnlySigned only m key claims token = (m ≡ hmac) × (claims ≡ only)

both : (a b : Bool) → (a && b) ≡ true → (a ≡ true) × (b ≡ true)
both true true h = (refl, refl)
both true false h = (refl, cc h)
both false b h = (cc h, cc h)

if-some :
    {A : Type 0} (b : Bool) {x y : A} → (if b then some x else none) ≡ some y → (b ≡ true) × (x ≡ y)
if-some true h = (refl, cc h)
if-some false h = (cc h, cc h)

is_secret-true : (o : Option String) → is_secret o ≡ true → o ≡ some "secret"
is_secret-true none h = cc h
is_secret-true (some key) h = ap some ((eq_iff key "secret").0 h)

same_claims-eq : (c d : Claims) → same_claims c d ≡ true → c ≡ d
unfolding same_claims
same_claims-eq c d h =
    let (user, h₁) = both _ _ h in
    let (name, h₂) = both _ _ h₁ in
    let (email, h₃) = both _ _ h₂ in
    let (subject, h₄) = both _ _ h₃ in
    let (issued, expires) = both _ _ h₄ in
    λ i. record {
      user_id = (eq_iff c.user_id d.user_id).0 user i;
      username = (eq_iff c.username d.username).0 name i;
      email = (eq_iff c.email d.email).0 email i;
      subject = (eq_iff c.subject d.subject).0 subject i;
      issued_at = eqb-eq c.issued_at d.issued_at issued i;
      expires_at = eqb-eq c.expires_at d.expires_at expires i;
    }
  where
    eqb-eq : (m n : ℕ) → eqb m n ≡ true → m ≡ n
    eqb-eq m n same = ground arith

signed :
    (only : Claims) {secret token : String} {claims : Claims}
    → (signer only).signed_string secret claims ≡ some token
    → (secret ≡ "secret") × (claims ≡ only) × (token ≡ "a.b.c")
signed only {secret} {token} {claims} h =
    let (matching, same) = if-some ((secret == "secret") && same_claims claims only) h in
    let (key, claim) = both (secret == "secret") (same_claims claims only) matching in
    ((eq_iff secret "secret").0 key, same_claims-eq claims only claim, sym same)

pub signer-JwtLaws : (only : Claims) → JwtLaws (signer only) (OnlySigned only)
signer-JwtLaws only = record {
  accepts = λ keys secret token claims now known made early.
      let (key, claim, text) = signed only made in
      let in_time : ltb now only.expires_at ≡ true = rw (← claim) (ground arith) in
      rw (known, key, text, in_time) (ap (λ c. some (c, true)) (sym claim));
  expires = λ keys secret token claims now made late.
      let (key, claim, text) = signed only made in
      let too_late : ltb now only.expires_at ≡ false = rw (← claim) (ground arith) in
      rw (text, too_late)
        (elim (Bool-cases (is_secret (keys hmac))) [
          | inl known ↦ rw known refl
          | inr other ↦ rw other refl
        ]);
  sound = λ keys token claims now parsed.
      let (passed, same) =
        if-some ((token == "a.b.c") && (is_secret (keys hmac) && ltb now only.expires_at)) parsed in
      let (_, rest) = both (token == "a.b.c") _ passed in
      let (key, _) = both (is_secret (keys hmac)) _ rest in
      (hmac, "secret", is_secret-true (keys hmac) key, (refl, sym (ap (λ p. p.0) same)));
}

abbrev pub member : UserModel
member = record {
  id = "ann";
  name = "Ann";
  username = "ann_1";
  password = "hash";
  email = "ann@example.com";
  created_at = 0;
  updated_at = 0;
}

-- The settings under which the member's access token, or its refresh token, is signed at time 5.
abbrev pub settings : ℕ → SessionSettings
settings lifetime = record {
  jwt = signer (claims_for 5 lifetime member);
  jwt_secret = "secret";
  access_ttl_minutes = 15;
  refresh_ttl_minutes = 48;
}

access_token_lifetime_example : validate_access_token (settings 900) 905 "a.b.c" ≡ none
unfolding generate_access_token same_claims claims_for
access_token_lifetime_example =
    access_token_lifetime (settings 900) (signer-JwtLaws (claims_for 5 900 member)) 5 905 member
      "a.b.c" refl

refresh_token_grants_access_example :
    validate_access_token (settings 172800) 905 "a.b.c" ≡ some (claims_for 5 172800 member)
unfolding generate_refresh_token same_claims claims_for
refresh_token_grants_access_example =
    refresh_token_grants_access (settings 172800) (signer-JwtLaws (claims_for 5 172800 member)) 5
      905 member "a.b.c" refl (omega arith)
