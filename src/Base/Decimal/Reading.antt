-- ===== src/Base/Decimal/Reading.antt =====
-- What is printed is read back, and what is read fits its width.
use Prim.Native.Char.{code}
use Prim.Native.Nat.{ℕ, zero, suc, ◌+◌, ◌-◌, ◌/◌, ◌%◌, ◌^◌, ◌≤◌, ◌<◌}
use Prim.Native.String.{String, [], ◌∷◌}
use mathlib.Core.Path.{◌≡◌, refl, sym, ap, ◌∙◌}
use mathlib.Core.Logic.{inl, inr}
use mathlib.Core.Bool.{Bool, true, false}
use native.Mathlib.Omega.{arith}
use wallet_app.Base.Tests.{eqb, Bool-cases}
use wallet_app.Base.Int.{ℤ, pos, negsuc, ◌-ℤ◌, ◌≤ℤ◌, in_int64}
use wallet_app.Base.Decimal.{
  Parsed, syntax, range, value, digit_char, digits, format_ℕ, itoa, scan, parse_uint, signed,
  parse_int, or_zero, atoi, residue, wrap, int8, int32,
}

code-digit_char : (d : ℕ) → d < 10 → code (digit_char d) ≡ 48 + d
code-digit_char zero h = refl
code-digit_char (suc zero) h = refl
code-digit_char (suc (suc zero)) h = refl
code-digit_char (suc (suc (suc zero))) h = refl
code-digit_char (suc (suc (suc (suc zero)))) h = refl
code-digit_char (suc (suc (suc (suc (suc zero))))) h = refl
code-digit_char (suc (suc (suc (suc (suc (suc zero)))))) h = refl
code-digit_char (suc (suc (suc (suc (suc (suc (suc zero))))))) h = refl
code-digit_char (suc (suc (suc (suc (suc (suc (suc (suc zero)))))))) h = refl
code-digit_char (suc (suc (suc (suc (suc (suc (suc (suc (suc zero))))))))) h = refl
code-digit_char (suc (suc (suc (suc (suc (suc (suc (suc (suc (suc d)))))))))) h =
    absurd (omega arith)

scan-digit :
    (most n : ℕ) (out : String)
    → n ≤ most
    → scan most (digit_char (n % 10) ∷ out) (n / 10) ≡ scan most out n
unfolding scan
scan-digit most n out h =
    let c : code (digit_char (n % 10)) ≡ 48 + n % 10 = code-digit_char (n % 10) (omega arith) in
    ground (arith, c)

scan-digits :
    (fuel most n : ℕ) (out : String)
    → n < 10 ^ fuel
    → n ≤ most
    → scan most (digits fuel n out) 0 ≡ scan most out n
unfolding digits
scan-digits zero most n out small h = ap (scan most out) (omega arith)
scan-digits (suc fuel) most n out small h = elim (Bool-cases (eqb n 0)) [
  | inl none_left ↦ rw none_left (ap (scan most out) (ground arith))
  | inr more ↦ rw (more) (
      scan-digits fuel most (n / 10) (digit_char (n % 10) ∷ out) (omega arith) (omega arith)
      ∙ scan-digit most n out h)
]

scan-format_ℕ : (most n : ℕ) → n < 10 ^ 20 → n ≤ most → scan most (format_ℕ n) 0 ≡ value n
unfolding format_ℕ scan
scan-format_ℕ most n small h = elim (Bool-cases (eqb n 0)) [
  | inl nought ↦ rw nought (unfold scan in ground arith)
  | inr more ↦ rw more (scan-digits 20 most n [] small h)
]

abbrev StartsWithDigit : String → Type 0
StartsWithDigit [] = ⊥
StartsWithDigit (c ∷ s) = (48 ≤ code c)

digits-StartsWithDigit :
    (fuel n : ℕ) (out : String) → StartsWithDigit out → StartsWithDigit (digits fuel n out)
unfolding digits
digits-StartsWithDigit zero n out h = h
digits-StartsWithDigit (suc fuel) n out h = elim (Bool-cases (eqb n 0)) [
  | inl none_left ↦ rw none_left h
  | inr more ↦ rw more (
      digits-StartsWithDigit fuel (n / 10) (digit_char (n % 10) ∷ out)
        (omega (arith, code-digit_char (n % 10))))
]

format_ℕ-StartsWithDigit : (n : ℕ) → StartsWithDigit (format_ℕ n)
unfolding format_ℕ
format_ℕ-StartsWithDigit n = elim (Bool-cases (eqb n 0)) [
  | inl nought ↦ rw nought (omega arith)
  | inr more ↦ rw more (
      unfold digits in
      rw more (
        digits-StartsWithDigit 19 (n / 10) (digit_char (n % 10) ∷ [])
          (omega (arith, code-digit_char (n % 10)))))
]

parse_uint-scan : (most : ℕ) (s : String) → StartsWithDigit s → parse_uint most s ≡ scan most s 0
unfolding parse_uint
parse_uint-scan most [] h = absurd h
parse_uint-scan most (c ∷ s) h = refl

-- A text that starts with a digit has no sign.
parse_int-unsigned :
    (bits : ℕ) (s : String)
    → StartsWithDigit s
    → parse_int bits s ≡ signed bits false (scan (2 ^ bits - 1) s 0)
unfolding parse_int parse_uint
parse_int-unsigned bits [] h = absurd h
parse_int-unsigned bits (c ∷ s) h = ground arith

-- What `Itoa` prints of an int64, `Atoi` reads.
pub atoi-itoa : (n : ℤ) → in_int64 n ≡ true → atoi (itoa n) ≡ n
unfolding atoi itoa in_int64 signed or_zero parse_int ◌-ℤ◌
atoi-itoa (pos n) fits =
    let small : n ≤ 2 ^ 63 - 1 = ground arith in
    rw
      (
        parse_int-unsigned 64 (format_ℕ n) (format_ℕ-StartsWithDigit n),
        scan-format_ℕ (2 ^ 64 - 1) n (omega arith) (omega arith),
      )
      (ground arith)
atoi-itoa (negsuc n) fits =
    let small : n ≤ 2 ^ 63 - 1 = ground arith in
    rw
      (
        parse_uint-scan (2 ^ 64 - 1) (format_ℕ (suc n)) (format_ℕ-StartsWithDigit (suc n)),
        scan-format_ℕ (2 ^ 64 - 1) (suc n) (omega arith) (omega arith),
      )
      (ground arith)

pub wrap8 : (n : ℤ) → negsuc 127 ≤ℤ n → n ≤ℤ pos 127 → int8 n ≡ n
unfolding wrap residue
wrap8 (pos n) low high = ground arith
wrap8 (negsuc n) low high = ground arith

pub wrap32 : (n : ℤ) → negsuc (2 ^ 31 - 1) ≤ℤ n → n ≤ℤ pos (2 ^ 31 - 1) → int32 n ≡ n
unfolding wrap residue
wrap32 (pos n) low high = ground arith
wrap32 (negsuc n) low high = ground arith

signed-fits :
    (bits : ℕ) (negative : Bool) (p : Parsed ℕ) {n : ℤ}
    → 1 ≤ bits
    → signed bits negative p ≡ value n
    → (negsuc (2 ^ (bits - 1) - 1) ≤ℤ n) × (n ≤ℤ pos (2 ^ (bits - 1) - 1))
unfolding signed ◌-ℤ◌
signed-fits bits negative syntax wide h = cc
signed-fits bits true (range u) wide h = cc
signed-fits bits false (range u) wide h = cc
signed-fits bits true (value u) wide h = ground arith
signed-fits bits false (value u) wide h = ground arith

-- A number that was read of a width fits the width.
pub parse_int-fits :
    (bits : ℕ) (s : String) {n : ℤ}
    → 1 ≤ bits
    → parse_int bits s ≡ value n
    → (negsuc (2 ^ (bits - 1) - 1) ≤ℤ n) × (n ≤ℤ pos (2 ^ (bits - 1) - 1))
unfolding parse_int
parse_int-fits bits [] wide h = cc
parse_int-fits bits (c ∷ s) wide h = elim (Bool-cases (eqb (code c) 45)) [
  | inl minus ↦
      let sign : parse_int bits (c ∷ s) ≡ signed bits true (parse_uint (2 ^ bits - 1) s) =
        rw minus refl in
      signed-fits bits true (parse_uint (2 ^ bits - 1) s) wide (sym sign ∙ h)
  | inr no_minus ↦ elim (Bool-cases (eqb (code c) 43)) [
    | inl plus ↦
        let sign : parse_int bits (c ∷ s) ≡ signed bits false (parse_uint (2 ^ bits - 1) s) =
          rw (no_minus, plus) refl in
        signed-fits bits false (parse_uint (2 ^ bits - 1) s) wide (sym sign ∙ h)
    | inr no_plus ↦
        let sign : parse_int bits (c ∷ s) ≡ signed bits false (parse_uint (2 ^ bits - 1) (c ∷ s)) =
          rw (no_minus, no_plus) refl in
        signed-fits bits false (parse_uint (2 ^ bits - 1) (c ∷ s)) wide (sym sign ∙ h)
  ]
]
