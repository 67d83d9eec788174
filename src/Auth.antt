-- ===== src/Auth.antt =====
-- auth-service/internal/repository/auth-repository.go: users, and the session row that each may have.
pub mod Login
pub mod Sessions
pub mod Rejected
pub mod Validation
pub mod Register
pub mod Registration
pub mod Formats
pub mod Passwords
pub mod Acceptance
use wallet_app.Base.{
  ℕ, String, Bool, true, false, not, ◌&&◌, ◌||◌, Option, none, some, List, [], ◌∷◌, ◌++◌, ◌==◌, eqb,
  count_where, find_where, select_where, update_where, if◌then◌else◌,
}
use wallet_app.Models.{UserModel, UserAuthModel}
use wallet_app.Errors.{
  Error, Result, ok, err, db_error, no_rows, unique_violation, foreign_key_violation,
  invalid_credentials, already_logged_in, token_not_generated,
}
use wallet_app.Store.{
  Db, Faults, Tx, pure, gets, modify, guard, or_raise, try_call, autocommit, read_row, insert_row,
  update_row, ◌>>=◌, ◌>>◌,
}
use wallet_app.Cache.{CacheFaults, Ttl, store_token}
use wallet_app.Wallet.{World, on_db, on_cache}

abbrev pub has_user : String → UserModel → Bool
has_user id u = u.id == id

abbrev pub has_username : String → UserModel → Bool
has_username name u = u.username == name

-- `FindByUserId`, which does not select the password: no row is no error.
unfoldable pub find_by_user_id : Faults → String → Db → Result (Option UserModel)
find_by_user_id fails id db =
    if fails read_row then err db_error else ok (shown (find_where (has_user id) db.users))
  where
    shown : Option UserModel → Option UserModel
    shown none = none
    shown (some u) = some (record u { password = "" })

-- `FindByUsername`
unfoldable pub find_by_username : Faults → String → Db → Result (Option UserModel)
find_by_username fails name db =
    if fails read_row then err db_error else ok (find_where (has_username name) db.users)

unfoldable pub user_row : ℕ → String → String → String → String → String → UserModel
user_row now name email username id password = record {
  id = id;
  name = name;
  username = username;
  password = password;
  email = email;
  created_at = now;
  updated_at = now;
}

-- The columns id, username and email are unique.
unfoldable pub collides : UserModel → UserModel → Bool
collides u v = v.id == u.id || (v.username == u.username || v.email == u.email)

-- The RETURNING list has no password and no times.
unfoldable pub insert_user_row : Faults → UserModel → Tx UserModel
insert_user_row fails u = do
  try_call fails insert_row
  taken ← gets (λ db. count_where (collides u) db.users)
  guard (eqb taken 0) unique_violation
  modify (λ db. record db { users = db.users ++ u ∷ [] })
  pure (record u { password = ""; created_at = 0; updated_at = 0 })

unfoldable pub after_insert_user :
    Ttl → ℕ → CacheFaults → String → String → Result UserModel → World → Result UserModel × World
after_insert_user ttl now cache_fails id token (err e) w = (err e, w)
after_insert_user ttl now cache_fails id token (ok u) w =
    (ok u, (on_cache (store_token ttl now cache_fails id token) w).1)

-- `InsertUser`. What the cache answers is not looked at.
unfoldable pub insert_user :
    Ttl
    → ℕ
    → Faults
    → CacheFaults
    → String
    → String
    → String
    → String
    → String
    → String
    → World
    → Result UserModel × World
insert_user ttl now fails cache_fails name email username id password token w =
    let (r, w') =
      on_db (autocommit (insert_user_row fails (user_row now name email username id password))) w in
    after_insert_user ttl now cache_fails id token r w'

abbrev pub set_names : String → String → String → UserModel → UserModel
set_names name email username u = record u { name = name; email = email; username = username }

unfoldable pub clashes : String → String → String → UserModel → Bool
clashes id email username v = not (v.id == id) && (v.username == username || v.email == email)

-- `UpdateUser`: nil and no error where a row was changed.
unfoldable pub update_user :
    Faults → String → String → String → String → Db → Result (Option UserModel) × Db
update_user fails name email username id = autocommit (do
  try_call fails update_row
  rows ← gets (λ db. count_where (has_user id) db.users)
  guard (not (eqb rows 0)) no_rows
  clash ← gets (λ db. count_where (clashes id email username) db.users)
  guard (eqb clash 0) unique_violation
  modify (λ db. record db {
    users = update_where (has_user id) (set_names name email username) db.users;
  })
  pure none)

abbrev pub has_session : String → UserAuthModel → Bool
has_session user a = a.user_id == user

-- `GetTokenByUserId`
unfoldable pub get_token_by_user_id : Faults → String → Db → Result (Option UserAuthModel)
get_token_by_user_id fails user db =
    if fails read_row then err db_error else ok (find_where (has_session user) db.user_auth)

unfoldable pub session_row : ℕ → String → String → String → UserAuthModel
session_row now id user token = record {
  id = id;
  refresh_token = token;
  user_id = user;
  is_currently_logged_in = true;
  created_at = now;
  updated_at = now;
}

abbrev pub is_logged_out : String → UserAuthModel → Bool
is_logged_out user a = a.user_id == user && not a.is_currently_logged_in

abbrev pub renew : ℕ → String → UserAuthModel → UserAuthModel
renew now token a = record a {
  refresh_token = token;
  created_at = now;
  is_currently_logged_in = true;
}

-- INSERT … ON CONFLICT (user_id) DO UPDATE … WHERE is_currently_logged_in = false RETURNING id: was
-- a row inserted or renewed?
unfoldable pub insert_token_row : ℕ → Faults → String → String → String → Tx Bool
insert_token_row now fails id user token = do
  try_call fails insert_row
  known ← gets (λ db. count_where (has_user user) db.users)
  sessions ← gets (λ db. count_where (has_session user) db.user_auth)
  if eqb sessions 0
      then (do
        ids ← gets (λ db. count_where (λ a. a.id == id) db.user_auth)
        guard (eqb ids 0) unique_violation
        guard (not (eqb known 0)) foreign_key_violation
        modify (λ db. record db { user_auth = db.user_auth ++ session_row now id user token ∷ [] })
        pure true)
      else (do
        ended ← gets (λ db. count_where (is_logged_out user) db.user_auth)
        modify (λ db. record db {
          user_auth = update_where (is_logged_out user) (renew now token) db.user_auth;
        })
        pure (not (eqb ended 0)))

unfoldable pub after_insert_token :
    Ttl → ℕ → CacheFaults → String → String → Result Bool → World → Result Bool × World
after_insert_token ttl now cache_fails user token (ok true) w =
    (ok true, (on_cache (store_token ttl now cache_fails user token) w).1)
after_insert_token ttl now cache_fails user token (ok false) w = (ok false, w)
after_insert_token ttl now cache_fails user token (err e) w = (err e, w)

-- `InsertToken`, under an id that `uuid.NewString` makes. An error of the cache is only logged.
unfoldable pub insert_token :
    Ttl → ℕ → Faults → CacheFaults → String → String → String → World → Result Bool × World
insert_token ttl now fails cache_fails id user token w =
    let (r, w') = on_db (autocommit (insert_token_row now fails id user token)) w in
    after_insert_token ttl now cache_fails user token r w'

-- `DeleteToken`
unfoldable pub delete_token : Faults → String → Db → Result (Unit {0}) × Db
delete_token fails user = autocommit (do
  try_call fails update_row
  modify
      (λ db. record db { user_auth = select_where (λ a. not (has_session user a)) db.user_auth }))
