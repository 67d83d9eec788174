-- ===== src/Gateway/Credentials.antt =====
-- What the answer to a registration is good for, and that the gateway passes it on.
use Prim.Native.String.{◌++◌, len}
use wallet_app.Base.{
  ℕ, ◌+◌, ◌*◌, ◌<◌, ◌≤◌, ◌≡◌, ◌≢◌, refl, sym, ap, ◌∙◌, String, true, false, ◌==◌, inl, inr, arith,
  ltb, eq_iff, not_equal, Bool-cases,
}
use wallet_app.Models.{UserModel}
use wallet_app.Errors.{ok}
use wallet_app.Wallet.{World}
use wallet_app.Auth.Validation.{
  Unicode, validate_user, check_user, normalise, with_password, validate_password, trim_space,
  trim_left, trim_right,
}
use wallet_app.Auth.Register.{RegisterEnv, register, to_register_user}
use wallet_app.Auth.Registration.{register_user-ok}
use wallet_app.Protocol.{RegisterUserRequest, AuthenticateResponse}
use wallet_app.Session.{Claims, SigningMethod, claims_for}
use wallet_app.Session.Tokens.{JwtLaws, access_token_lifetime}
use wallet_app.Gateway.{HttpRequest, returned, works, call}
use wallet_app.Gateway.Mapping.{to_register_user_proto, to_user_auth}
use wallet_app.Gateway.Services as Services
use wallet_app.Gateway.Services.{Backend, checked_credentials, then_return}
use wallet_app.Gateway.Authorization.{IsAuthorized}

yes_if_less : {m n : ℕ} → m < n → ltb m n ≡ true
yes_if_less h = ground arith

-- The access token of a registration authorises its user, under the id of the answer, until its
-- lifetime is over.
pub registered_token_authorizes :
    {SignedBy : SigningMethod → String → Claims → String → Type 0} (env : RegisterEnv)
    (laws : JwtLaws env.session.jwt SignedBy) (user : RegisterUserRequest) (w : World)
    {resp : AuthenticateResponse} {w' : World} (later : ℕ) (req : HttpRequest)
    → register env user w ≡ (ok resp, w')
    → later < env.now + env.session.access_ttl_minutes * 60
    → resp.id ≢ ""
    → req.authorization ≡ "Bearer " ++ resp.access_token
    → req.query "userId" ≡ resp.id
    → IsAuthorized env.session later req
unfolding register claims_for
registered_token_authorizes env laws user w {resp} later req registered early named header query =
    let (valid, _, (hash, _, stored_row)) =
      register_user-ok env (to_register_user user) w registered in
    let (token, id, _, _) = stored_row in
    let stored : UserModel = record valid { id = env.new_id; password = hash } in
    let life =
      access_token_lifetime env.session laws env.now later stored resp.access_token token in
    (
      resp.access_token,
      claims_for env.now (env.session.access_ttl_minutes * 60) stored,
      header,
      life ∙ rw (yes_if_less early) refl,
      sym id ∙ sym query,
      (λ empty. named (sym query ∙ empty)),
    )

-- A user that passes the checks has a username, and a password of 8 bytes.
check_user-ok :
    (u : Unicode) (user : UserModel) {valid : UserModel}
    → check_user u user ≡ ok valid
    → (user.username ≢ "") × (8 ≤ len user.password)
unfolding check_user with_password validate_password
check_user-ok u user h = (
  λ empty.
      let is_empty : (user.username == "") ≡ true = (eq_iff user.username "").1 empty in
      ground arith,
  ground arith,
)

trim_space-empty : (u : Unicode) {s : String} → trim_space u s ≢ "" → s ≢ ""
unfolding trim_space trim_left trim_right
trim_space-empty u kept empty = kept (rw empty refl)

validate_user-ok :
    (u : Unicode) (user : UserModel) {valid : UserModel}
    → validate_user u user ≡ ok valid
    → (user.username ≢ "") × (8 ≤ len user.password)
unfolding validate_user normalise
validate_user-ok u user h =
    let (named, long) = check_user-ok u (normalise u user) h in (trim_space-empty u named, long)

long_not_empty : (s : String) → 8 ≤ len s → (s == "") ≡ false
long_not_empty s long = elim (Bool-cases (s == "")) [
  | inl empty ↦
      let same : len s ≡ 0 = ap len ((eq_iff s "").0 empty) in absurd (omega (arith, same, long))
  | inr h ↦ h
]

not_short : (s : String) → 8 ≤ len s → ltb (len s) 6 ≡ false
not_short s long = ground arith

-- A registration that went through in the auth service, and whose answer came back, is not turned down
-- by the checks that the gateway makes afterwards.
pub registration_not_discarded :
    (b : Backend) (user : UserModel) (w : World) {resp : AuthenticateResponse} {w' : World}
    → b.auth ≡ works
    → register b.registers (to_register_user_proto user) w ≡ (ok resp, w')
    → Services.register_user b user w ≡ (returned (to_user_auth resp), w')
unfolding Services.register_user checked_credentials call register to_register_user
    to_register_user_proto
registration_not_discarded b user w connected done =
    let (valid, checked, _) = register_user-ok b.registers _ w done in
    let (named, long) = validate_user-ok b.registers.unicode _ checked in
    let is_named : (user.username == "") ≡ false = not_equal user.username "" named in
    rw (connected, is_named, long_not_empty user.password long, not_short user.password long, done)
      refl
