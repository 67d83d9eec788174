-- ===== src/Tests/Register.antt =====
-- The theorems on registration at a small input.

use wallet_app.Base.{◌≡◌, ◌↔◌, refl, false, some, String, arith, pos, count_where, find_where}
use wallet_app.Base.Regex.{matches, nullable, derivative, times, up_to}
use wallet_app.Models.{UserModel}
use wallet_app.Errors.{ok, username_required}
use wallet_app.Store.{no_faults, autocommit}
use wallet_app.Wallet.{transfer_handler}
use wallet_app.Wallet.Ownership.{transfer_handler_ignores_user}
use wallet_app.Auth.{insert_user, insert_user_row, after_insert_user, user_row, find_by_user_id}
use wallet_app.Auth.Validation.{Unicode, validate_user, check_user, is_between, is_char}
use wallet_app.Auth.Acceptance.{IsAcceptable, check_user-IsAcceptable}
use wallet_app.Auth.Register.{RegisterEnv, register, register_user, to_register_user, hash_password}
use wallet_app.Auth.Registration.{IsStored, register_user-ok, rejected_registration_changes_nothing}
use wallet_app.Protocol.{RegisterUserRequest, AuthenticateResponse}
use wallet_app.Session.{SessionSettings, claims_for, generate_access_token, generate_refresh_token}
use wallet_app.Gateway.{HttpRequest, works, returned}
use wallet_app.Gateway.Mapping.{to_user_auth}
use wallet_app.Gateway.Services as Services
use wallet_app.Gateway.Services.{Backend}
use wallet_app.Gateway.Authorization.{IsAuthorized}
use wallet_app.Gateway.Credentials.{registered_token_authorizes, registration_not_discarded}
use wallet_app.Tests.Samples.{fresh, world, calm, ttl}
use wallet_app.Tests.Sessions.{signer, signer-JwtLaws, same_claims, member}
use wallet_app.Tests.Gateway.{backend, apart}

abbrev ascii : Unicode
ascii = record {
  is_space = is_char 32;
  is_upper = is_between 65 90;
  is_lower = is_between 97 122;
  is_number = is_between 48 57;
  is_punct = is_char 95;
  is_symbol = λ _. false;
  to_lower = λ c. c;
}

-- Both tokens live for an hour.
abbrev hourly : SessionSettings
hourly = record {
  jwt = signer (claims_for 5 3600 member);
  jwt_secret = "secret";
  access_ttl_minutes = 60;
  refresh_ttl_minutes = 1;
}

abbrev desk : RegisterEnv
desk = record {
  now = 5;
  ttl = ttl;
  find = no_faults;
  insert = no_faults;
  cache_fails = λ _. false;
  unicode = ascii;
  hash = λ _. some "hash";
  session = hourly;
  new_id = "ann";
}

abbrev form : RegisterUserRequest
form = record {
  id = "";
  name = "Ann";
  username = " ann_1";
  email = "ann@example.com";
  password = "Secret_1";
}

abbrev answer : AuthenticateResponse
answer = record { id = "ann"; access_token = "a.b.c" }

abbrev balance_request : HttpRequest
balance_request = record {
  method = "GET";
  path = "/wallet/balance";
  authorization = "Bearer a.b.c";
  query = λ _. "ann";
  body = "";
}

registered_token_authorizes_example : IsAuthorized hourly 10 balance_request
unfolding register register_user wallet_app.Auth.Register.register_valid validate_user
    wallet_app.Auth.Validation.check_user wallet_app.Auth.Validation.normalise
    wallet_app.Auth.Validation.trim_space wallet_app.Auth.Validation.trim_right
    wallet_app.Auth.Validation.trim_left wallet_app.Auth.Validation.username_regex
    wallet_app.Auth.Validation.email_regex wallet_app.Auth.Validation.lower
    wallet_app.Auth.Validation.with_password wallet_app.Auth.Validation.see
    wallet_app.Auth.Validation.see_all wallet_app.Auth.Validation.validate_password matches nullable
    derivative times up_to to_register_user wallet_app.Auth.Register.register_hashed
    wallet_app.Auth.Register.register_new wallet_app.Auth.Register.register_with
    wallet_app.Auth.Register.registered wallet_app.Auth.Register.generate_session_tokens
    wallet_app.Auth.Register.with_access wallet_app.Auth.Register.with_refresh hash_password
    after_insert_user wallet_app.Auth.collides find_by_user_id insert_user insert_user_row user_row
    count_where find_where wallet_app.Cache.store_token claims_for generate_access_token
    generate_refresh_token autocommit same_claims
registered_token_authorizes_example =
    registered_token_authorizes desk (signer-JwtLaws (claims_for 5 3600 member)) form (world fresh)
      {resp = answer} {w' = (register desk form (world fresh)).1} 10 balance_request refl
      (omega arith) (apart "ann" "" refl) refl refl

register_user-ok_example :
    (valid : UserModel) × (validate_user ascii (to_register_user form) ≡ ok valid)
    × ((hash : String) × (hash_password (λ _. some "hash") valid.password ≡ ok hash)
        × IsStored desk
            (record valid { id = "ann" })
            hash
            (world fresh)
            answer
            (register desk form (world fresh)).1)
unfolding register register_user wallet_app.Auth.Register.register_valid validate_user
    wallet_app.Auth.Validation.check_user wallet_app.Auth.Validation.normalise
    wallet_app.Auth.Validation.trim_space wallet_app.Auth.Validation.trim_right
    wallet_app.Auth.Validation.trim_left wallet_app.Auth.Validation.username_regex
    wallet_app.Auth.Validation.email_regex wallet_app.Auth.Validation.lower
    wallet_app.Auth.Validation.with_password wallet_app.Auth.Validation.see
    wallet_app.Auth.Validation.see_all wallet_app.Auth.Validation.validate_password matches nullable
    derivative times up_to to_register_user wallet_app.Auth.Register.register_hashed
    wallet_app.Auth.Register.register_new wallet_app.Auth.Register.register_with
    wallet_app.Auth.Register.registered wallet_app.Auth.Register.generate_session_tokens
    wallet_app.Auth.Register.with_access wallet_app.Auth.Register.with_refresh hash_password
    after_insert_user wallet_app.Auth.collides find_by_user_id insert_user insert_user_row user_row
    count_where find_where wallet_app.Cache.store_token claims_for generate_access_token
    generate_refresh_token autocommit same_claims
register_user-ok_example =
    register_user-ok desk (to_register_user form) (world fresh) {resp = answer}
      {w' = (register desk form (world fresh)).1} refl

rejected_registration_changes_nothing_example :
    (register_user desk (to_register_user (record form { username = "" })) (world fresh)).1
    ≡ world fresh
unfolding register register_user wallet_app.Auth.Register.register_valid validate_user
    wallet_app.Auth.Validation.check_user wallet_app.Auth.Validation.normalise
    wallet_app.Auth.Validation.trim_space wallet_app.Auth.Validation.trim_right
    wallet_app.Auth.Validation.trim_left wallet_app.Auth.Validation.username_regex
    wallet_app.Auth.Validation.email_regex wallet_app.Auth.Validation.lower
    wallet_app.Auth.Validation.with_password wallet_app.Auth.Validation.see
    wallet_app.Auth.Validation.see_all wallet_app.Auth.Validation.validate_password matches nullable
    derivative times up_to to_register_user wallet_app.Auth.Register.register_hashed
    wallet_app.Auth.Register.register_new wallet_app.Auth.Register.register_with
    wallet_app.Auth.Register.registered wallet_app.Auth.Register.generate_session_tokens
    wallet_app.Auth.Register.with_access wallet_app.Auth.Register.with_refresh hash_password
    after_insert_user wallet_app.Auth.collides find_by_user_id insert_user insert_user_row user_row
    count_where find_where wallet_app.Cache.store_token claims_for generate_access_token
    generate_refresh_token autocommit same_claims
rejected_registration_changes_nothing_example =
    rejected_registration_changes_nothing desk (to_register_user (record form { username = "" }))
      (world fresh) {e = username_required} {w' = world fresh} refl

registration_not_discarded_example :
    let b : Backend = record backend { registers = desk } in
    let user : UserModel = record (to_register_user form) { id = "" } in
    Services.register_user b user (world fresh)
    ≡ (returned (to_user_auth answer), (register desk form (world fresh)).1)
unfolding register register_user wallet_app.Auth.Register.register_valid validate_user
    wallet_app.Auth.Validation.check_user wallet_app.Auth.Validation.normalise
    wallet_app.Auth.Validation.trim_space wallet_app.Auth.Validation.trim_right
    wallet_app.Auth.Validation.trim_left wallet_app.Auth.Validation.username_regex
    wallet_app.Auth.Validation.email_regex wallet_app.Auth.Validation.lower
    wallet_app.Auth.Validation.with_password wallet_app.Auth.Validation.see
    wallet_app.Auth.Validation.see_all wallet_app.Auth.Validation.validate_password matches nullable
    derivative times up_to to_register_user wallet_app.Auth.Register.register_hashed
    wallet_app.Auth.Register.register_new wallet_app.Auth.Register.register_with
    wallet_app.Auth.Register.registered wallet_app.Auth.Register.generate_session_tokens
    wallet_app.Auth.Register.with_access wallet_app.Auth.Register.with_refresh hash_password
    after_insert_user wallet_app.Auth.collides find_by_user_id insert_user insert_user_row user_row
    count_where find_where wallet_app.Cache.store_token claims_for generate_access_token
    generate_refresh_token autocommit same_claims wallet_app.Gateway.Mapping.to_register_user_proto
registration_not_discarded_example =
    registration_not_discarded (record backend { registers = desk }) (to_register_user form)
      (world fresh) {resp = answer} {w' = (register desk form (world fresh)).1} refl refl

transfer_handler_ignores_user_example :
    let (r, w₁) = transfer_handler calm "t1" "ann" "a" "b" "EUR" (pos 30) (world fresh) in
    let (r', w₂) = transfer_handler calm "t1" "bob" "a" "b" "EUR" (pos 30) (world fresh) in
    (r ≡ r') × (w₁.db ≡ w₂.db)
transfer_handler_ignores_user_example =
    transfer_handler_ignores_user calm "t1" "ann" "bob" "a" "b" "EUR" (pos 30) (world fresh)

abbrev strong : UserModel
strong = record member { password = "Secret_1" }

check_user-IsAcceptable_example : (check_user ascii strong ≡ ok strong) ↔ IsAcceptable ascii strong
check_user-IsAcceptable_example = check_user-IsAcceptable ascii strong
