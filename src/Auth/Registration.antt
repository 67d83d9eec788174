-- ===== src/Auth/Registration.antt =====
-- What a registration leaves behind, and what its token is good for.
use wallet_app.Base.{
  ℕ, ◌≡◌, refl, sym, ap, ◌∙◌, String, Option, none, some, [], ◌∷◌, ◌++◌, arith, count_where,
}
use wallet_app.Models.{UserModel}
use wallet_app.Errors.{Error, Result, ok, err}
use wallet_app.Store.{Faults, autocommit}
use wallet_app.Cache.{CacheFaults, Ttl}
use wallet_app.Wallet.{World}
use wallet_app.Auth.{insert_user, insert_user_row, after_insert_user, user_row, collides}
use wallet_app.Auth.Validation.{validate_user}
use wallet_app.Auth.Register.{
  hash_password, generate_session_tokens, with_access, with_refresh, RegisterEnv, registered,
  register_with, register_hashed, register_new, register_valid, register_user,
}
use wallet_app.Protocol.{AuthenticateResponse}
use wallet_app.Session.{generate_access_token}

-- Inserting a user either adds the row, which collides with none, or changes nothing.
insert_user-ok :
    (ttl : Ttl) (now : ℕ) (fails : Faults) (cache_fails : CacheFaults)
    (name email username id password token : String) (w : World) {u : UserModel} {w' : World}
    → insert_user ttl now fails cache_fails name email username id password token w ≡ (ok u, w')
    → let row = user_row now name email username id password in
      (u.id ≡ id)
      × (count_where (collides row) w.db.users ≡ 0)
      × (w'.db.users ≡ w.db.users ++ row ∷ [])
unfolding insert_user insert_user_row after_insert_user autocommit user_row
insert_user-ok ttl now fails cache_fails name email username id password token w h =
    (ground arith, ground arith, ground arith)

insert_user-err :
    (ttl : Ttl) (now : ℕ) (fails : Faults) (cache_fails : CacheFaults)
    (name email username id password token : String) (w : World) {e : Error} {w' : World}
    → insert_user ttl now fails cache_fails name email username id password token w ≡ (err e, w')
    → w' ≡ w
unfolding insert_user insert_user_row after_insert_user autocommit
insert_user-err ttl now fails cache_fails name email username id password token w h = ground arith

registered-ok :
    (access : String) (p : Result UserModel × World) {resp : AuthenticateResponse} {w' : World}
    → registered access p ≡ (ok resp, w')
    → (u : UserModel) × (p ≡ (ok u, w')) × (resp.access_token ≡ access) × (resp.id ≡ u.id)
unfolding registered
registered-ok access (ok u, w) {resp} h =
    let same : record { id = u.id; access_token = access } ≡ resp = cc h in
    (u, cc h, sym (ap (λ r. r.access_token) same), sym (ap (λ r. r.id) same))
registered-ok access (err e, w) h = absurd (cc h)

registered-err :
    (access : String) (p : Result UserModel × World) {e : Error} {w' : World}
    → registered access p ≡ (err e, w')
    → p ≡ (err e, w')
unfolding registered
registered-err access (ok u, w) h = cc h
registered-err access (err e, w) h = cc h

with_access-some :
    (a r : Option String) {access refresh : String}
    → with_access a r ≡ some (access, refresh)
    → a ≡ some access
unfolding with_access with_refresh
with_access-some none r h = cc h
with_access-some (some a) none h = cc h
with_access-some (some a) (some r) h = cc h

-- The row of a user that was stored under the id of the answer, with its access token.
abbrev pub IsStored :
    (env : RegisterEnv) (user : UserModel) (hash : String) (w : World) (resp : AuthenticateResponse)
    (w' : World)
    → Type 0
IsStored env user hash w resp w' =
    let row = user_row env.now user.name user.email user.username user.id hash in
    (generate_access_token env.session env.now (some (record user { password = hash }))
      ≡ some resp.access_token)
    × (resp.id ≡ user.id)
    × (count_where (collides row) w.db.users ≡ 0)
    × (w'.db.users ≡ w.db.users ++ row ∷ [])

register_with-ok :
    (env : RegisterEnv) (user : UserModel) (hash : String) (tokens : Option (String × String))
    (w : World) {resp : AuthenticateResponse} {w' : World}
    → generate_session_tokens env.session env.now (record user { password = hash }) ≡ tokens
    → register_with env (record user { password = hash }) tokens w ≡ (ok resp, w')
    → IsStored env user hash w resp w'
unfolding register_with generate_session_tokens
register_with-ok env user hash none w made done = absurd (cc done)
register_with-ok env user hash (some (access, refresh)) w made done =
    let (u, inserted, token, id) = registered-ok access _ done in
    let (same, free, users) =
      insert_user-ok env.ttl env.now env.insert env.cache_fails user.name user.email user.username
        user.id hash refresh w inserted in
    (with_access-some _ _ made ∙ ap some (sym token), id ∙ same, free, users)

register_hashed-ok :
    (env : RegisterEnv) (user : UserModel) (r : Result String) (w : World)
    {resp : AuthenticateResponse} {w' : World}
    → register_hashed env user r w ≡ (ok resp, w')
    → (hash : String) × (r ≡ ok hash) × IsStored env user hash w resp w'
unfolding register_hashed
register_hashed-ok env user (err e) w h = absurd (cc h)
register_hashed-ok env user (ok hash) w h = (hash, refl, register_with-ok env user hash _ w refl h)

register_new-ok :
    (env : RegisterEnv) (user : UserModel) (found : Result (Option UserModel)) (w : World)
    {resp : AuthenticateResponse} {w' : World}
    → register_new env user found w ≡ (ok resp, w')
    → (hash : String) × (hash_password env.hash user.password ≡ ok hash)
      × IsStored env user hash w resp w'
unfolding register_new
register_new-ok env user (err e) w h = absurd (cc h)
register_new-ok env user (ok (some existing)) w h = absurd (cc h)
register_new-ok env user (ok none) w h = register_hashed-ok env user _ w h

register_valid-ok :
    (env : RegisterEnv) (r : Result UserModel) (w : World) {resp : AuthenticateResponse}
    {w' : World}
    → register_valid env r w ≡ (ok resp, w')
    → (valid : UserModel) × (r ≡ ok valid)
      × ((hash : String) × (hash_password env.hash valid.password ≡ ok hash)
          × IsStored env (record valid { id = env.new_id }) hash w resp w')
unfolding register_valid
register_valid-ok env (err e) w h = absurd (cc h)
register_valid-ok env (ok valid) w h =
    (valid, refl, register_new-ok env (record valid { id = env.new_id }) _ w h)

-- A registration that succeeds has checked the user, stored it under the new id with the hash of its
-- password, where nobody had its id, username or email, and made the access token for it.
pub register_user-ok :
    (env : RegisterEnv) (user : UserModel) (w : World) {resp : AuthenticateResponse} {w' : World}
    → register_user env user w ≡ (ok resp, w')
    → (valid : UserModel) × (validate_user env.unicode user ≡ ok valid)
      × ((hash : String) × (hash_password env.hash valid.password ≡ ok hash)
          × IsStored env (record valid { id = env.new_id }) hash w resp w')
unfolding register_user
register_user-ok env user w h = register_valid-ok env (validate_user env.unicode user) w h

register_with-err :
    (env : RegisterEnv) (user : UserModel) (tokens : Option (String × String)) (w : World)
    {e : Error} {w' : World}
    → register_with env user tokens w ≡ (err e, w')
    → w' ≡ w
unfolding register_with
register_with-err env user none w h = cc h
register_with-err env user (some (access, refresh)) w h =
    insert_user-err env.ttl env.now env.insert env.cache_fails user.name user.email user.username
      user.id user.password refresh w (registered-err access _ h)

register_hashed-err :
    (env : RegisterEnv) (user : UserModel) (r : Result String) (w : World) {e : Error} {w' : World}
    → register_hashed env user r w ≡ (err e, w')
    → w' ≡ w
unfolding register_hashed
register_hashed-err env user (err e) w h = cc h
register_hashed-err env user (ok hash) w h = register_with-err env _ _ w h

register_new-err :
    (env : RegisterEnv) (user : UserModel) (found : Result (Option UserModel)) (w : World)
    {e : Error} {w' : World}
    → register_new env user found w ≡ (err e, w')
    → w' ≡ w
unfolding register_new
register_new-err env user (err e) w h = cc h
register_new-err env user (ok (some existing)) w h = cc h
register_new-err env user (ok none) w h = register_hashed-err env user _ w h

register_valid-err :
    (env : RegisterEnv) (r : Result UserModel) (w : World) {e : Error} {w' : World}
    → register_valid env r w ≡ (err e, w')
    → w' ≡ w
unfolding register_valid
register_valid-err env (err e) w h = cc h
register_valid-err env (ok valid) w h = register_new-err env _ _ w h

-- A registration that fails leaves the database and the cache as they were.
pub rejected_registration_changes_nothing :
    (env : RegisterEnv) (user : UserModel) (w : World) {e : Error} {w' : World}
    → register_user env user w ≡ (err e, w')
    → w' ≡ w
unfolding register_user
rejected_registration_changes_nothing env user w h =
    register_valid-err env (validate_user env.unicode user) w h
