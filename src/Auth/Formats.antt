-- ===== src/Auth/Formats.antt =====
-- Which usernames and email addresses the expressions of the validation match.
use Prim.Native.Char.{Char, char, code}
use text.Mathlib.TextEquality.{Char-path}
use Prim.Native.String.{String, [], ◌∷◌, ◌++◌, count}
use text.Mathlib.TextLemmas.{length-append}
use wallet_app.Base.{◌+◌, ◌≤◌, ◌≡◌, refl, sym, ap, ◌∙◌, subst, true, arith}
use wallet_app.Base.Regex.{one, seq, star, times, matches}
use wallet_app.Base.Regex.Language.{Describes, matches-Describes}
use wallet_app.Base.Regex.Classes.{
  AllChars, AllChars-append, times-AllChars, up_to-AllChars, star-AllChars, plus-AllChars, split_at,
}
use wallet_app.Auth.Validation.{
  is_word, is_local, is_host, is_letter, is_char, username_regex, email_regex,
}

-- 3 to 20 letters, digits and underscores.
abbrev pub IsUsername : String → Type 0
IsUsername s = AllChars is_word s × (3 ≤ count s) × (count s ≤ 20)

-- A local part, an at sign, a host, a dot, and a domain of 2 letters or more.
abbrev pub IsEmail : String → Type 0
IsEmail s =
    (local : String) × (host : String) × (domain : String) × (s
      ≡ local ++ ("@" ++ (host ++ ("." ++ domain))))
    × (AllChars is_local local × (1 ≤ count local))
    × (AllChars is_host host × (1 ≤ count host))
    × (AllChars is_letter domain × (2 ≤ count domain))

pub username_regex_sound : (s : String) → matches username_regex s ≡ true → IsUsername s
unfolding username_regex
username_regex_sound s h =
    let (a, b, same, first, rest) = (matches-Describes username_regex s).0 h in
    let (all_a, size_a) = (times-AllChars is_word 3 a).0 first in
    let (all_b, size_b) = (up_to-AllChars is_word 17 b).0 rest in
    let size : count s ≡ count a + count b = ap count same ∙ length-append a b in
    (
      subst (AllChars is_word) (sym same) (AllChars-append is_word a b all_a all_b),
      omega (arith, size, size_a, size_b),
      omega (arith, size, size_a, size_b),
    )

pub username_regex_complete : (s : String) → IsUsername s → matches username_regex s ≡ true
unfolding username_regex
username_regex_complete s (all, long, short) =
    let (a, b, same, first, rest) = split_at is_word 3 s all long in
    (matches-Describes username_regex s).1 (
      a,
      b,
      same,
      (times-AllChars is_word 3 a).1 first,
      (up_to-AllChars is_word 17 b).1 (rest.0, omega (arith, rest.1, short)),
    )

is_char-one : (c : Char) (s : String) → Describes (one (is_char (code c))) s → s ≡ c ∷ []
is_char-one c s (d, single, holds) =
    single ∙ ap (λ x. x ∷ []) (Char-path d c (ground (arith, holds)))

domain_sound :
    (s : String)
    → Describes (seq (times 2 (one is_letter)) (star (one is_letter))) s
    → AllChars is_letter s × (2 ≤ count s)
domain_sound s (a, b, same, first, rest) =
    let (all_a, size_a) = (times-AllChars is_letter 2 a).0 first in
    let all_b = (star-AllChars is_letter b).0 rest in
    let size : count s ≡ count a + count b = ap count same ∙ length-append a b in
    (
      subst (AllChars is_letter) (sym same) (AllChars-append is_letter a b all_a all_b),
      omega (arith, size, size_a),
    )

domain_complete :
    (s : String)
    → AllChars is_letter s
    → 2 ≤ count s
    → Describes (seq (times 2 (one is_letter)) (star (one is_letter))) s
domain_complete s all size =
    let (a, b, same, first, rest) = split_at is_letter 2 s all size in
    (a, b, same, (times-AllChars is_letter 2 a).1 first, (star-AllChars is_letter b).1 rest.0)

pub email_regex_sound : (s : String) → matches email_regex s ≡ true → IsEmail s
unfolding email_regex
email_regex_sound s h =
    let (local, r₁, same₁, local_ok, rest₁) = (matches-Describes email_regex s).0 h in
    let (at_sign, r₂, same₂, at_ok, rest₂) = rest₁ in
    let (host, r₃, same₃, host_ok, rest₃) = rest₂ in
    let (dot, domain, same₄, dot_ok, domain_ok) = rest₃ in
    let is_at : at_sign ≡ "@" = is_char-one (char 64 tt) at_sign at_ok in
    let is_dot : dot ≡ "." = is_char-one (char 46 tt) dot dot_ok in
    (
      local,
      host,
      domain,
      cc (same₁, same₂, same₃, same₄, is_at, is_dot),
      (plus-AllChars is_local local).0 local_ok,
      (plus-AllChars is_host host).0 host_ok,
      domain_sound domain domain_ok,
    )

pub email_regex_complete : (s : String) → IsEmail s → matches email_regex s ≡ true
unfolding email_regex
email_regex_complete s (local, host, domain, same, local_ok, host_ok, domain_ok) =
    (matches-Describes email_regex s).1 (
      local,
      "@" ++ (host ++ ("." ++ domain)),
      same,
      (plus-AllChars is_local local).1 local_ok,
      (
        "@",
        host ++ ("." ++ domain),
        refl,
        (char 64 tt, refl, refl),
        (
          host,
          "." ++ domain,
          refl,
          (plus-AllChars is_host host).1 host_ok,
          (
            ".",
            domain,
            refl,
            (char 46 tt, refl, refl),
            domain_complete domain domain_ok.0 domain_ok.1,
          ),
        ),
      ),
    )
