-- ===== src/Environment.antt =====
-- shared/env/env.go: settings from the environment, which is an argument.
use wallet_app.Base.{String, Bool, true, false, ◌||◌, Option, none, some, ◌==◌, ℤ, if◌then◌else◌}
use wallet_app.Base.Decimal.{syntax, range, value, parse_int}

abbrev pub Lookup : Type 0
Lookup = String → Option String

-- `GetString`
unfoldable pub or_else : {A : Type 0} → A → Option A → A
or_else fallback none = fallback
or_else fallback (some a) = a

unfoldable pub get_string : Lookup → String → String → String
get_string lookup key fallback = or_else fallback (lookup key)

unfoldable pub read_with : {A : Type 0} → (String → Option A) → A → Option String → A
read_with read fallback none = fallback
read_with read fallback (some text) = or_else fallback (read text)

-- A number of 64 bits, or the fallback beside an error of `strconv.Atoi`.
unfoldable pub read_int : String → Option ℤ
read_int text = elim (parse_int 64 text) [ syntax ↦ none | range n ↦ none | value n ↦ some n ]

-- `GetInt`
unfoldable pub get_int : Lookup → String → ℤ → ℤ
get_int lookup key fallback = read_with read_int fallback (lookup key)

-- `strconv.ParseBool`
unfoldable pub read_bool : String → Option Bool
read_bool text =
    if (text == "1")
      || ((text == "t")
          || ((text == "T") || ((text == "TRUE") || ((text == "true") || (text == "True")))))
    then some true
    else if (text == "0")
        || ((text == "f")
            || ((text == "F") || ((text == "FALSE") || ((text == "false") || (text == "False")))))
    then some false
    else none

-- `GetBool`
unfoldable pub get_bool : Lookup → String → Bool → Bool
get_bool lookup key fallback = read_with read_bool fallback (lookup key)
