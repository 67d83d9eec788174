-- ===== src/Auth/Validation.antt =====
-- auth-service/internal/utils/validations.go. The tables of Go's package unicode are a parameter
-- (`Unicode`).
use Prim.Native.Char.{Char, code}
use Prim.Native.String.{String, [], ◌∷◌, len}
use wallet_app.Base.{ℕ, Bool, true, false, not, ◌&&◌, ◌||◌, ◌==◌, leb, ltb, eqb, if◌then◌else◌}
use wallet_app.Base.Regex.{Regex, one, seq, star, times, up_to, plus, matches}
use wallet_app.Models.{UserModel}
use wallet_app.Errors.{
  Result, ok, err, name_required, username_required, username_invalid, email_required,
  email_invalid, password_too_short, password_weak,
}

pub record Unicode : Type 0 where
  pub is_space : Char → Bool
  pub is_upper : Char → Bool
  pub is_lower : Char → Bool
  pub is_number : Char → Bool
  pub is_punct : Char → Bool
  pub is_symbol : Char → Bool
  pub to_lower : Char → Char

abbrev pub is_between : ℕ → ℕ → Char → Bool
is_between low high c = leb low (code c) && leb (code c) high

-- [a-zA-Z] and [a-zA-Z0-9]
abbrev pub is_letter : Char → Bool
is_letter c = is_between 97 122 c || is_between 65 90 c

abbrev pub is_alphanumeric : Char → Bool
is_alphanumeric c = is_letter c || is_between 48 57 c

abbrev pub is_char : ℕ → Char → Bool
is_char n c = eqb (code c) n

-- [a-zA-Z0-9_]
abbrev pub is_word : Char → Bool
is_word c = is_alphanumeric c || is_char 95 c

-- [a-zA-Z0-9._%+\-]
abbrev pub is_local : Char → Bool
is_local c = is_word c || (is_char 46 c || (is_char 37 c || (is_char 43 c || is_char 45 c)))

-- [a-zA-Z0-9.\-]
abbrev pub is_host : Char → Bool
is_host c = is_alphanumeric c || (is_char 46 c || is_char 45 c)

-- `usernameRegex`: ^[a-zA-Z0-9_]{3,20}$
unfoldable pub username_regex : Regex
username_regex = seq (times 3 (one is_word)) (up_to 17 (one is_word))

-- `emailRegex`: ^[a-zA-Z0-9._%+\-]+@[a-zA-Z0-9.\-]+\.[a-zA-Z]{2,}$
unfoldable pub email_regex : Regex
email_regex = seq (plus (one is_local)) (
    seq (one (is_char 64)) (
      seq (plus (one is_host))
        (seq (one (is_char 46)) (seq (times 2 (one is_letter)) (star (one is_letter))))))

-- `strings.TrimSpace`
unfoldable pub trim_left : Unicode → String → String
trim_left u [] = []
trim_left u (c ∷ s) = let rest = trim_left u s in if u.is_space c then rest else c ∷ s

unfoldable pub trim_right : Unicode → String → String
trim_right u [] = []
trim_right u (c ∷ s) =
    let rest = trim_right u s in if u.is_space c && (rest == "") then [] else c ∷ rest

unfoldable pub trim_space : Unicode → String → String
trim_space u s = trim_right u (trim_left u s)

-- `strings.ToLower`
unfoldable pub lower : Unicode → String → String
lower u [] = []
lower u (c ∷ s) = u.to_lower c ∷ lower u s

-- What the loop of `validatePassword` has seen: a character counts for the first class that it is in.
pub record Seen : Type 0 where
  pub has_upper : Bool
  pub has_lower : Bool
  pub has_number : Bool
  pub has_special : Bool

abbrev pub nothing_seen : Seen
nothing_seen = record {
  has_upper = false;
  has_lower = false;
  has_number = false;
  has_special = false;
}

unfoldable pub see : Unicode → Char → Seen → Seen
see u c seen =
    if u.is_upper c
    then record seen { has_upper = true }
    else if u.is_lower c
    then record seen { has_lower = true }
    else if u.is_number c
    then record seen { has_number = true }
    else if u.is_punct c || u.is_symbol c
    then record seen { has_special = true }
    else seen

unfoldable pub see_all : Unicode → String → Seen → Seen
see_all u [] seen = seen
see_all u (c ∷ s) seen = see_all u s (see u c seen)

abbrev pub all_seen : Seen → Bool
all_seen seen = seen.has_upper && (seen.has_lower && (seen.has_number && seen.has_special))

-- `validatePassword`. The length counts bytes.
unfoldable pub validate_password : Unicode → String → Result (Unit {0})
validate_password u password =
    if ltb (len password) 8
    then err password_too_short
    else if all_seen (see_all u password nothing_seen)
    then ok tt
    else err password_weak

-- The fields after the first three lines of `ValidateUser`.
unfoldable pub normalise : Unicode → UserModel → UserModel
normalise u user = record user {
  name = trim_space u user.name;
  username = trim_space u user.username;
  email = trim_space u (lower u user.email);
}

unfoldable pub with_password : UserModel → Result (Unit {0}) → Result UserModel
with_password user (ok _) = ok user
with_password user (err e) = err e

unfoldable pub check_user : Unicode → UserModel → Result UserModel
check_user u user =
    if user.name == ""
    then err name_required
    else if user.username == ""
    then err username_required
    else if not (matches username_regex user.username)
    then err username_invalid
    else if user.email == ""
    then err email_required
    else if not (matches email_regex user.email)
    then err email_invalid
    else with_password user (validate_password u user.password)

-- `ValidateUser`: the user with its fields trimmed, or the first error.
unfoldable pub validate_user : Unicode → UserModel → Result UserModel
validate_user u user = check_user u (normalise u user)
