-- ===== src/Auth/Passwords.antt =====
-- Which passwords the validation accepts, said without its loop.
use Prim.Native.Char.{Char}
use Prim.Native.String.{String, [], ◌∷◌, len}
use wallet_app.Base.{
  ◌≤◌, ◌≡◌, refl, sym, ap, ◌∙◌, Bool, true, false, not, ◌&&◌, ◌||◌, inl, inr, arith, ltb,
  Bool-cases,
}
use wallet_app.Errors.{ok}
use wallet_app.Auth.Validation.{
  Unicode, Seen, nothing_seen, see, see_all, all_seen, validate_password,
}

-- Is there a character of a class?
unfoldable pub any : (Char → Bool) → String → Bool
any p [] = false
any p (c ∷ s) = p c || any p s

-- The classes of the password, in the order in which the loop asks for them.
abbrev pub counts_lower : Unicode → Char → Bool
counts_lower u c = not (u.is_upper c) && u.is_lower c

abbrev pub counts_number : Unicode → Char → Bool
counts_number u c = not (u.is_upper c) && (not (u.is_lower c) && u.is_number c)

abbrev pub counts_special : Unicode → Char → Bool
counts_special u c =
    not (u.is_upper c)
    && (not (u.is_lower c) && (not (u.is_number c) && (u.is_punct c || u.is_symbol c)))

abbrev AreSeen : Unicode → String → Seen → Seen → Type 0
AreSeen u s before after =
    (after.has_upper ≡ (before.has_upper || any u.is_upper s))
    × (after.has_lower ≡ (before.has_lower || any (counts_lower u) s))
    × (after.has_number ≡ (before.has_number || any (counts_number u) s))
    × (after.has_special ≡ (before.has_special || any (counts_special u) s))

-- What one character adds.
see-once :
    (u : Unicode) (c : Char) (seen : Seen)
    → ((see u c seen).has_upper ≡ (seen.has_upper || u.is_upper c))
      × ((see u c seen).has_lower ≡ (seen.has_lower || counts_lower u c))
      × ((see u c seen).has_number ≡ (seen.has_number || counts_number u c))
      × ((see u c seen).has_special ≡ (seen.has_special || counts_special u c))
unfolding see
see-once u c seen = (ground arith, ground arith, ground arith, ground arith)

or_assoc : (a b c : Bool) → ((a || b) || c) ≡ (a || (b || c))
or_assoc true b c = refl
or_assoc false b c = refl

or_false : (a : Bool) → a ≡ (a || false)
or_false true = refl
or_false false = refl

see_all-AreSeen : (u : Unicode) (s : String) (seen : Seen) → AreSeen u s seen (see_all u s seen)
unfolding see_all any
see_all-AreSeen u [] seen = (or_false _, or_false _, or_false _, or_false _)
see_all-AreSeen u (c ∷ s) seen =
    let (upper, lower, number, special) = see_all-AreSeen u s (see u c seen) in
    let (upper', lower', number', special') = see-once u c seen in
    (
      upper
          ∙ ap (λ x. x || any u.is_upper s) upper'
          ∙ or_assoc seen.has_upper (u.is_upper c) (any u.is_upper s),
      lower
          ∙ ap (λ x. x || any (counts_lower u) s) lower'
          ∙ or_assoc seen.has_lower (counts_lower u c) (any (counts_lower u) s),
      number
          ∙ ap (λ x. x || any (counts_number u) s) number'
          ∙ or_assoc seen.has_number (counts_number u c) (any (counts_number u) s),
      special
          ∙ ap (λ x. x || any (counts_special u) s) special'
          ∙ or_assoc seen.has_special (counts_special u c) (any (counts_special u) s),
    )

-- 8 bytes or more, with a character of each class.
abbrev pub IsPassword : Unicode → String → Type 0
IsPassword u s =
    (8 ≤ len s)
    × (any u.is_upper s ≡ true)
    × (any (counts_lower u) s ≡ true)
    × (any (counts_number u) s ≡ true)
    × (any (counts_special u) s ≡ true)

all_true :
    (a b c d : Bool)
    → (a && (b && (c && d))) ≡ true
    → (a ≡ true) × (b ≡ true) × (c ≡ true) × (d ≡ true)
all_true a b c d h = (ground arith, ground arith, ground arith, ground arith)

pub validate_password_sound :
    (u : Unicode) (s : String) → validate_password u s ≡ ok tt → IsPassword u s
unfolding validate_password
validate_password_sound u s h = elim (Bool-cases (ltb (len s) 8)) [
  | inl short ↦ absurd (cc (rw short at h))
  | inr long ↦ elim (Bool-cases (all_seen (see_all u s nothing_seen))) [
    | inl all ↦
        let seen = see_all u s nothing_seen in
        let (upper, lower, number, special) =
          all_true seen.has_upper seen.has_lower seen.has_number seen.has_special all in
        let (upper', lower', number', special') = see_all-AreSeen u s nothing_seen in
        (
          ground arith,
          sym upper' ∙ upper,
          sym lower' ∙ lower,
          sym number' ∙ number,
          sym special' ∙ special,
        )
    | inr missing ↦ absurd (cc (rw (long, missing) at h))
  ]
]

pub validate_password_complete :
    (u : Unicode) (s : String) → IsPassword u s → validate_password u s ≡ ok tt
unfolding validate_password
validate_password_complete u s (long, upper, lower, number, special) =
    let (upper', lower', number', special') = see_all-AreSeen u s nothing_seen in
    let is_long : ltb (len s) 8 ≡ false = ground arith in
    rw (is_long, upper' ∙ upper, lower' ∙ lower, number' ∙ number, special' ∙ special) refl
