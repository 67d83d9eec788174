-- ===== src/Auth/Sessions.antt =====
-- A user is logged in at most once.
use wallet_app.Base.{
  ℕ, ◌≤◌, ◌<◌, ◌≡◌, refl, subst, String, Bool, true, false, Option, none, some, List, [], ◌∷◌, ◌++◌,
  ◌==◌, arith, inl, inr, eqb, count_where, find_where, update_where, count_where-append,
  count_where-update, find_where-some, find_where-holds, find_where-last, All, eq_iff, All-anything,
  All-update, All-find, Bool-cases, Option-cases, if◌then◌else◌,
}
use text.Mathlib.TextPositions.{eq_refl}
use wallet_app.Models.{UserModel, UserAuthModel}
use wallet_app.Errors.{Error, Result, ok, err, already_logged_in, db_error, invalid_credentials}
use wallet_app.Store.{Db, Faults, autocommit, read_row}
use wallet_app.Cache.{CacheFaults, Ttl}
use wallet_app.Wallet.{World}
use wallet_app.Auth.{
  insert_token, insert_token_row, after_insert_token, find_by_username, get_token_by_user_id,
  has_session, has_username, is_logged_out, renew, session_row,
}
use wallet_app.Auth.Login.{AuthEnv, after_token, login_user, login_found, login_checked, login_with}

-- The session rows after a row is inserted, or the rows that are logged out are renewed.
abbrev pub new_sessions : ℕ → String → String → String → List UserAuthModel → List UserAuthModel
new_sessions now id user token os =
    if eqb (count_where (has_session user) os) 0
    then os ++ session_row now id user token ∷ []
    else update_where (is_logged_out user) (renew now token) os

still_logged_in :
    (user : String) (a : UserAuthModel)
    → is_logged_out user a ≡ false
    → has_session user a ≡ true
    → a.is_currently_logged_in ≡ true
still_logged_in user a kept mine = ground arith

-- The session that is found for the user after it is logged in.
new_session-logged_in :
    (now : ℕ) (id user token : String) (os : List UserAuthModel)
    → (a : UserAuthModel) × (find_where (has_session user) (new_sessions now id user token os)
        ≡ some a)
      × (a.is_currently_logged_in ≡ true)
unfolding session_row
new_session-logged_in now id user token os =
    elim (Bool-cases (eqb (count_where (has_session user) os) 0)) [
      | inl new ↦ (
        session_row now id user token,
        rw new (
            find_where-last (has_session user) os (session_row now id user token) (ground arith)
              (eq_refl user)),
        refl,
      )
      | inr old ↦
          let table = update_where (is_logged_out user) (renew now token) os in
          let some_row : 0 < count_where (has_session user) table = ground (
            arith,
            count_where-update (is_logged_out user) (has_session user) (renew now token)
                (λ a _. refl) os,
          ) in
          let (a, found) = find_where-some (has_session user) table some_row in
          let renewed : All
              (λ (a : UserAuthModel). has_session user a ≡ true → a.is_currently_logged_in ≡ true)
              table =
            All-update (is_logged_out user) (renew now token) (λ a _ _ _. refl)
              (λ a _ kept mine. still_logged_in user a kept mine) os (All-anything os) in
          (
            a,
            rw old found,
            All-find _ (has_session user) table renewed found
                (find_where-holds (has_session user) table found),
          )
    ]

-- A token that is stored, or was there, leaves the users alone and the session rows as above.
insert_token-ok :
    (ttl : Ttl) (now : ℕ) (fails : Faults) (cache_fails : CacheFaults) (id user token : String)
    (w : World) {b : Bool} {w' : World}
    → insert_token ttl now fails cache_fails id user token w ≡ (ok b, w')
    → (w'.db.users ≡ w.db.users) × (w'.db.user_auth ≡ new_sessions now id user token w.db.user_auth)
unfolding insert_token insert_token_row after_insert_token autocommit
insert_token-ok ttl now fails cache_fails id user token w h =
    elim (Bool-cases (eqb (count_where (has_session user) w.db.user_auth) 0)) [
      | inl new ↦ (ground arith, ground arith)
      | inr old ↦ (ground arith, ground arith)
    ]

after_token-ok :
    (user access : String) (p : Result Bool × World) {r : String × String} {w' : World}
    → after_token user access p ≡ (ok r, w')
    → (p ≡ (ok true, w'))
unfolding after_token
after_token-ok user access (ok true, w) h = cc h
after_token-ok user access (ok false, w) h = absurd (cc h)
after_token-ok user access (err e, w) h = absurd (cc h)

-- What a login that succeeds has found and done.
abbrev HasLoggedIn : AuthEnv → String → World → World → Type 0
HasLoggedIn env username w w' =
    (u : UserModel) × (token : String) × (find_where (has_username username) w.db.users ≡ some u)
    × (insert_token env.ttl env.now env.insert env.cache_fails env.session_id u.id token w
        ≡ (ok true, w'))

login_with-ok :
    (env : AuthEnv) (u : UserModel) (tokens : Option (String × String)) (w : World)
    {r : String × String} {w' : World}
    → login_with env u tokens w ≡ (ok r, w')
    → (token : String) × (insert_token env.ttl env.now env.insert env.cache_fails env.session_id
          u.id token w
        ≡ (ok true, w'))
unfolding login_with
login_with-ok env u none w h = absurd (cc h)
login_with-ok env u (some (access, refresh)) w h = (refresh, after_token-ok u.id access _ h)

login_checked-ok :
    (env : AuthEnv) (u : UserModel) (session : Result (Option UserAuthModel)) (w : World)
    {r : String × String} {w' : World}
    → login_checked env u session w ≡ (ok r, w')
    → (token : String) × (insert_token env.ttl env.now env.insert env.cache_fails env.session_id
          u.id token w
        ≡ (ok true, w'))
unfolding login_checked
login_checked-ok env u (err e) w h = absurd (cc h)
login_checked-ok env u (ok none) w h = login_with-ok env u _ w h
login_checked-ok env u (ok (some a)) w h = elim (Bool-cases a.is_currently_logged_in) [
  | inl on ↦ absurd (cc (rw on at h))
  | inr off ↦ login_with-ok env u _ w (rw off at h)
]

login_user-ok :
    (env : AuthEnv) (username password : String) (w : World) {r : String × String} {w' : World}
    → login_user env username password w ≡ (ok r, w')
    → HasLoggedIn env username w w'
unfolding login_user login_found find_by_username
login_user-ok env username password w h = elim (Bool-cases (env.find read_row)) [
  | inl down ↦ absurd (cc (rw down at h))
  | inr up ↦ elim (Option-cases (find_where (has_username username) w.db.users)) [
    | inl unknown ↦ absurd (cc (rw (up, unknown) at h))
    | inr (u, known) ↦ elim (Bool-cases (env.crypto.compare_password u.password password)) [
      | inl same ↦
          let (token, inserted) = login_checked-ok env u _ w (rw (up, known, same) at h) in
          (u, token, known, inserted)
      | inr other ↦ absurd (cc (rw (up, known, other) at h))
    ]
  ]
]

-- A login of a user who has an open session fails and changes nothing.
open_session_refused :
    (env : AuthEnv) (username password : String) (w : World) (u : UserModel) (a : UserAuthModel)
    → find_where (has_username username) w.db.users ≡ some u
    → find_where (has_session u.id) w.db.user_auth ≡ some a
    → a.is_currently_logged_in ≡ true
    → (e : Error) × (login_user env username password w ≡ (err e, w))
unfolding login_user login_found login_checked find_by_username get_token_by_user_id
open_session_refused env username password w u a known session on =
    elim (Bool-cases (env.find read_row)) [
      | inl down ↦ (db_error, rw down)
      | inr up ↦ elim (Bool-cases (env.crypto.compare_password u.password password)) [
        | inr other ↦ (invalid_credentials, rw (up, known, other))
        | inl same ↦ elim (Bool-cases (env.get_token read_row)) [
          | inl down ↦ (db_error, rw (up, known, same, down))
          | inr readable ↦ (already_logged_in, rw (up, known, same, readable, session, on))
        ]
      ]
    ]

-- After a login that succeeds, the next login under the same username fails and changes nothing,
-- whatever the password and the environment.
pub login_user_once :
    (env next : AuthEnv) (username password other : String) (w : World) {r : String × String}
    {w' : World}
    → login_user env username password w ≡ (ok r, w')
    → (e : Error) × (login_user next username other w' ≡ (err e, w'))
login_user_once env next username password other w {r} {w'} h =
    let (u, token, known, inserted) = login_user-ok env username password w h in
    let (users, sessions) =
      insert_token-ok env.ttl env.now env.insert env.cache_fails env.session_id u.id token w
        inserted in
    let (a, found, on) = new_session-logged_in env.now env.session_id u.id token w.db.user_auth in
    open_session_refused next username other w' u a (rw users known) (rw sessions found) on

-- At most one session row for each user.
abbrev pub OneSession : Db → Type 0
OneSession db = (user : String) → count_where (has_session user) db.user_auth ≤ 1

new_sessions-count :
    (now : ℕ) (id user token other : String) (os : List UserAuthModel)
    → count_where (has_session other) os ≤ 1
    → count_where (has_session other) (new_sessions now id user token os) ≤ 1
unfolding count_where session_row
new_sessions-count now id user token other os one =
    elim (Bool-cases (eqb (count_where (has_session user) os) 0)) [
      | inr old ↦
          rw
            (
              old,
              count_where-update (is_logged_out user) (has_session other) (renew now token)
                  (λ a _. refl) os,
            )
            one
      | inl new ↦ elim (Bool-cases (user == other)) [
        | inl same ↦
            let e : user ≡ other = (eq_iff user other).0 same in
            let none_yet : count_where (has_session other) os ≡ 0 =
              subst (λ u. count_where (has_session u) os ≡ 0) e (ground arith) in
            rw
              (
                new,
                count_where-append (has_session other) os (session_row now id user token ∷ []),
                same,
                none_yet,
              )
              (omega arith)
        | inr apart ↦
            rw
              (
                new,
                count_where-append (has_session other) os (session_row now id user token ∷ []),
                apart,
              )
              (omega (arith, one))
      ]
    ]

-- Storing a token keeps at most one session row for each user.
pub insert_token-OneSession :
    (ttl : Ttl) (now : ℕ) (fails : Faults) (cache_fails : CacheFaults) (id user token : String)
    (w : World) {b : Bool} {w' : World}
    → OneSession w.db
    → insert_token ttl now fails cache_fails id user token w ≡ (ok b, w')
    → OneSession w'.db
insert_token-OneSession ttl now fails cache_fails id user token w one h other =
    let (_, sessions) = insert_token-ok ttl now fails cache_fails id user token w h in
    rw sessions (new_sessions-count now id user token other w.db.user_auth (one other))
