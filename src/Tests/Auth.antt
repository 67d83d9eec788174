-- ===== src/Tests/Auth.antt =====
-- The theorems on sessions and retries at small inputs.
use wallet_app.Base.{
  ℕ, ◌≡◌, ◌≤◌, refl, true, false, some, [], ◌∷◌, ◌==◌, arith, ltb, length, All, count_where,
  find_where,
}
use wallet_app.Models.{UserModel}
use wallet_app.Errors.{Error, Result, ok, err, db_error, invalid_credentials}
use wallet_app.Store.{Db, no_faults}
use wallet_app.Wallet.{World}
use wallet_app.Auth.{insert_token}
use wallet_app.Auth.Login.{AuthEnv, login_user}
use wallet_app.Auth.Rejected.{rejected_login_changes_nothing}
use wallet_app.Auth.Sessions.{login_user_once}
use wallet_app.Retry.{default_config, with_backoff}
use wallet_app.Retry.Attempts.{with_backoff-waits}
use wallet_app.Tests.Samples.{fresh, world, ttl}

abbrev ann : UserModel
ann = record {
  id = "u1";
  name = "Ann";
  username = "ann";
  password = "hash of secret";
  email = "ann@example.com";
  created_at = 0;
  updated_at = 0;
}

abbrev members : World
members = world (record fresh { users = ann ∷ [] })

abbrev auth : AuthEnv
auth = record {
  now = 5;
  ttl = ttl;
  find = no_faults;
  get_token = no_faults;
  insert = no_faults;
  cache_fails = λ _. false;
  session_id = "s1";
  crypto = record {
    compare_password = λ hash password. password == "secret";
    session_tokens = λ _. some ("access", "refresh");
  };
}

login_user_once_example :
    (e : Error) × (login_user auth "ann" "secret" (login_user auth "ann" "secret" members).1
      ≡ (err e, (login_user auth "ann" "secret" members).1))
unfolding login_user wallet_app.Auth.Login.login_found wallet_app.Auth.Login.login_checked
    wallet_app.Auth.Login.login_with wallet_app.Auth.Login.after_token
    wallet_app.Auth.find_by_username wallet_app.Auth.get_token_by_user_id insert_token
    wallet_app.Auth.insert_token_row wallet_app.Auth.after_insert_token wallet_app.Store.autocommit
    find_where count_where
login_user_once_example =
    login_user_once auth auth "ann" "secret" "secret" members {r = ("access", "u1")}
      {w' = (login_user auth "ann" "secret" members).1} refl

rejected_login_changes_nothing_example : (login_user auth "ann" "guess" members).1 ≡ members
unfolding login_user wallet_app.Auth.Login.login_found wallet_app.Auth.find_by_username find_where
rejected_login_changes_nothing_example =
    rejected_login_changes_nothing auth "ann" "guess" members {e = invalid_credentials}
      {w' = members} refl

-- An operation that succeeds at its third attempt.
abbrev third_time : ℕ → Result (Unit {0})
third_time k = elim (ltb k 2) [ true ↦ err db_error | false ↦ ok tt ]

with_backoff-waits_example :
    let waits = (with_backoff default_config third_time (λ _. false)).1 in
    (length waits ≤ 3) × All (λ w. w ≤ 10000000000) waits
with_backoff-waits_example =
    with_backoff-waits default_config third_time (λ _. false) 3 10000000000 refl (omega arith)
      (omega arith)
