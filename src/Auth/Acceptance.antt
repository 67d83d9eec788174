-- ===== src/Auth/Acceptance.antt =====
-- Which users the validation accepts, said without regular expressions and loops.

use Prim.Native.String.{count}
use text.Mathlib.TextLemmas.{length-append}
use wallet_app.Base.{
  ◌≡◌, ◌≢◌, ◌↔◌, refl, sym, ap, ◌∙◌, false, ◌==◌, inl, inr, arith, eq_iff, not_equal, Bool-cases,
}
use wallet_app.Base.Regex.{matches}
use wallet_app.Models.{UserModel}
use wallet_app.Errors.{Result, ok, err}
use wallet_app.Auth.Validation.{Unicode, username_regex, email_regex, with_password, check_user}
use wallet_app.Auth.Formats.{
  IsUsername, IsEmail, username_regex_sound, username_regex_complete, email_regex_sound,
  email_regex_complete,
}
use wallet_app.Auth.Passwords.{IsPassword, validate_password_sound, validate_password_complete}

-- Which users the checks accept.
abbrev pub IsAcceptable : Unicode → UserModel → Type 0
IsAcceptable u user =
    (user.name ≢ "") × IsUsername user.username × IsEmail user.email × IsPassword u user.password

with_password-ok :
    (user : UserModel) (r : Result (Unit {0})) → with_password user r ≡ ok user → r ≡ ok tt
unfolding with_password
with_password-ok user (ok _) h = refl
with_password-ok user (err e) h = cc h

check_user_sound :
    (u : Unicode) (user : UserModel) → check_user u user ≡ ok user → IsAcceptable u user
unfolding check_user
check_user_sound u user h = elim (Bool-cases (user.name == "")) [
  | inl unnamed ↦ absurd (cc (rw unnamed at h))
  | inr named ↦ elim (Bool-cases (user.username == "")) [
    | inl missing ↦ absurd (cc (rw (named, missing) at h))
    | inr there ↦ elim (Bool-cases (matches username_regex user.username)) [
      | inr odd ↦ absurd (cc (rw (named, there, odd) at h))
      | inl fine ↦ elim (Bool-cases (user.email == "")) [
        | inl no_email ↦ absurd (cc (rw (named, there, fine, no_email) at h))
        | inr email ↦ elim (Bool-cases (matches email_regex user.email)) [
          | inr odd ↦ absurd (cc (rw (named, there, fine, email, odd) at h))
          | inl sound ↦ (
            λ empty. absurd (cc (named, (eq_iff user.name "").1 empty)),
            username_regex_sound user.username fine,
            email_regex_sound user.email sound,
            validate_password_sound u user.password
                (with_password-ok user _ (rw (named, there, fine, email, sound) at h)),
          )
        ]
      ]
    ]
  ]
]

check_user_complete :
    (u : Unicode) (user : UserModel) → IsAcceptable u user → check_user u user ≡ ok user
unfolding check_user with_password
check_user_complete u user (named, username, email, password) =
    let not_unnamed : (user.name == "") ≡ false = not_equal user.name "" named in
    let username_ok = username_regex_complete user.username username in
    let email_ok = email_regex_complete user.email email in
    let username_there : (user.username == "") ≡ false =
      not_equal user.username "" (λ empty. absurd (omega (arith, ap count empty, username.1))) in
    let email_there : (user.email == "") ≡ false = not_equal user.email "" (λ empty.
      let (local, host, domain, same, local_ok, _, _) = email in
      absurd (omega (arith, ap count (sym same ∙ empty), length-append local _, local_ok.1))) in
    rw
      (
        not_unnamed,
        username_there,
        username_ok,
        email_there,
        email_ok,
        validate_password_complete u user.password password,
      )
      refl

-- The checks accept a user, as it is, if and only if it has a name, a username of 3 to 20 letters,
-- digits and underscores, an email address with a local part, a host and a domain, and a password of
-- 8 bytes with a character of each class.
pub check_user-IsAcceptable :
    (u : Unicode) (user : UserModel) → (check_user u user ≡ ok user) ↔ IsAcceptable u user
check_user-IsAcceptable u user = (check_user_sound u user, check_user_complete u user)
