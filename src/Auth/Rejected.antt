-- ===== src/Auth/Rejected.antt =====
-- A login that fails.
use wallet_app.Base.{
  ℕ, ◌≡◌, ◌⊎◌, String, Bool, true, false, Option, none, some, arith, inl, inr, update_where-none,
  Bool-cases,
}
use wallet_app.Models.{UserModel, UserAuthModel}
use wallet_app.Errors.{Error, Result, ok, err}
use wallet_app.Store.{Faults, autocommit}
use wallet_app.Cache.{CacheFaults, Ttl}
use wallet_app.Wallet.{World}
use wallet_app.Auth.{insert_token, insert_token_row, after_insert_token, is_logged_out, renew}
use wallet_app.Auth.Login.{AuthEnv, after_token, login_user, login_found, login_checked, login_with}

-- A token that is not stored leaves everything as it was.
insert_token-error :
    (ttl : Ttl) (now : ℕ) (fails : Faults) (cache_fails : CacheFaults) (id user token : String)
    (w : World) {e : Error} {w' : World}
    → insert_token ttl now fails cache_fails id user token w ≡ (err e, w')
    → w' ≡ w
unfolding insert_token insert_token_row after_insert_token autocommit
insert_token-error ttl now fails cache_fails id user token w h = ground arith

insert_token-not_inserted :
    (ttl : Ttl) (now : ℕ) (fails : Faults) (cache_fails : CacheFaults) (id user token : String)
    (w : World) {w' : World}
    → insert_token ttl now fails cache_fails id user token w ≡ (ok false, w')
    → w' ≡ w
unfolding insert_token insert_token_row after_insert_token autocommit
insert_token-not_inserted ttl now fails cache_fails id user token w h =
    ground (arith, update_where-none (is_logged_out user) (renew now token) w.db.user_auth)

after_token-error :
    (user access : String) (p : Result Bool × World) {e : Error} {w' : World}
    → after_token user access p ≡ (err e, w')
    → (p ≡ (ok false, w')) ⊎ (p ≡ (err e, w'))
unfolding after_token
after_token-error user access (ok true, w) h = absurd (cc h)
after_token-error user access (ok false, w) h = inl (cc h)
after_token-error user access (err e, w) h = inr (cc h)

login_with-error :
    (env : AuthEnv) (u : UserModel) (tokens : Option (String × String)) (w : World) {e : Error}
    {w' : World}
    → login_with env u tokens w ≡ (err e, w')
    → w' ≡ w
unfolding login_with
login_with-error env u none w h = cc h
login_with-error env u (some (access, refresh)) w h = elim (after_token-error u.id access _ h) [
  | inl kept ↦
      insert_token-not_inserted env.ttl env.now env.insert env.cache_fails env.session_id u.id
        refresh w kept
  | inr failed ↦
      insert_token-error env.ttl env.now env.insert env.cache_fails env.session_id u.id refresh w
        failed
]

login_checked-error :
    (env : AuthEnv) (u : UserModel) (session : Result (Option UserAuthModel)) (w : World)
    {e : Error} {w' : World}
    → login_checked env u session w ≡ (err e, w')
    → w' ≡ w
unfolding login_checked
login_checked-error env u (err e) w h = cc h
login_checked-error env u (ok none) w h = login_with-error env u _ w h
login_checked-error env u (ok (some a)) w h = elim (Bool-cases a.is_currently_logged_in) [
  | inl on ↦ cc (rw on at h)
  | inr off ↦ login_with-error env u _ w (rw off at h)
]

login_found-error :
    (env : AuthEnv) (password : String) (found : Result (Option UserModel)) (w : World) {e : Error}
    {w' : World}
    → login_found env password found w ≡ (err e, w')
    → w' ≡ w
unfolding login_found
login_found-error env password (err e) w h = cc h
login_found-error env password (ok none) w h = cc h
login_found-error env password (ok (some u)) w h =
    elim (Bool-cases (env.crypto.compare_password u.password password)) [
      | inl same ↦ login_checked-error env u _ w (rw same at h)
      | inr other ↦ cc (rw other at h)
    ]

-- A login that fails leaves the database and the cache as they were.
pub rejected_login_changes_nothing :
    (env : AuthEnv) (username password : String) (w : World) {e : Error} {w' : World}
    → login_user env username password w ≡ (err e, w')
    → w' ≡ w
unfolding login_user
rejected_login_changes_nothing env username password w h = login_found-error env password _ w h
