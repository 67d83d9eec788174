-- ===== src/Base/Decimal.antt =====
-- `strconv` and the conversions between Go's integer types: printing an integer, reading one of a
-- given width, and cutting one down to a width.
pub mod Reading
use Prim.Native.Char.{Char, char, code}
use Prim.Native.Nat.{ℕ, zero, suc, ◌+◌, ◌-◌, ◌*◌, ◌/◌, ◌%◌, ◌^◌, ◌≤◌, ◌<◌}
use Prim.Native.String.{String, [], ◌∷◌}
use mathlib.Core.Bool.{Bool, true, false, ◌&&◌}
use wallet_app.Base.Tests.{ltb, leb, eqb, if◌then◌else◌}
use wallet_app.Base.Int.{ℤ, pos, negsuc, neg, ◌-ℤ◌}

-- A value, or one of the two errors of `strconv`. A number out of range comes with the nearest one
-- that is in range.
pub data Parsed (A : Type 0) : Type 0 where
  syntax : Parsed A
  range value : A → Parsed A

abbrev pub digit_char : ℕ → Char
digit_char zero = char 48 tt
digit_char (suc zero) = char 49 tt
digit_char (suc (suc zero)) = char 50 tt
digit_char (suc (suc (suc zero))) = char 51 tt
digit_char (suc (suc (suc (suc zero)))) = char 52 tt
digit_char (suc (suc (suc (suc (suc zero))))) = char 53 tt
digit_char (suc (suc (suc (suc (suc (suc zero)))))) = char 54 tt
digit_char (suc (suc (suc (suc (suc (suc (suc zero))))))) = char 55 tt
digit_char (suc (suc (suc (suc (suc (suc (suc (suc zero)))))))) = char 56 tt
digit_char _ = char 57 tt

abbrev pub is_digit : Char → Bool
is_digit c = leb 48 (code c) && leb (code c) 57

-- The digits of a number below 10 ^ fuel, in front of a text.
unfoldable pub digits : ℕ → ℕ → String → String
digits zero n out = out
digits (suc fuel) n out =
    let rest = digits fuel (n / 10) (digit_char (n % 10) ∷ out) in if eqb n 0 then out else rest

unfoldable pub format_ℕ : ℕ → String
format_ℕ n = if eqb n 0 then "0" else digits 20 n []

-- `strconv.Itoa`. An int has at most 19 digits.
unfoldable pub itoa : ℤ → String
itoa (pos n) = format_ℕ n
itoa (negsuc n) = char 45 tt ∷ format_ℕ (suc n)

-- `strconv.ParseUint` from its first digit on, up to the greatest number of its width. It stops at
-- the first character that is no digit and at the first number that is too great.
unfoldable pub scan : ℕ → String → ℕ → Parsed ℕ
scan most [] n = value n
scan most (c ∷ s) n =
    let m = n * 10 + (code c - 48) in
    let rest = scan most s m in
    if is_digit c then if ltb most m then range most else rest else syntax

unfoldable pub parse_uint : ℕ → String → Parsed ℕ
parse_uint most [] = syntax
parse_uint most (c ∷ s) = scan most (c ∷ s) 0

-- The sign is applied, and the width of the signed type is checked.
unfoldable pub signed : ℕ → Bool → Parsed ℕ → Parsed ℤ
signed bits negative syntax = syntax
signed bits false (range u) = range (pos (2 ^ (bits - 1) - 1))
signed bits true (range u) = range (negsuc (2 ^ (bits - 1) - 1))
signed bits false (value u) =
    if leb (2 ^ (bits - 1)) u then range (pos (2 ^ (bits - 1) - 1)) else value (pos u)
signed bits true (value u) =
    if ltb (2 ^ (bits - 1)) u then range (negsuc (2 ^ (bits - 1) - 1)) else value (neg (pos u))

-- `strconv.ParseInt(s, 10, bits)`
unfoldable pub parse_int : ℕ → String → Parsed ℤ
parse_int bits [] = syntax
parse_int bits (c ∷ s) =
    if eqb (code c) 45
    then signed bits true (parse_uint (2 ^ bits - 1) s)
    else if eqb (code c) 43
    then signed bits false (parse_uint (2 ^ bits - 1) s)
    else signed bits false (parse_uint (2 ^ bits - 1) (c ∷ s))

-- The number that `strconv.Atoi` returns beside its error.
unfoldable pub or_zero : Parsed ℤ → ℤ
or_zero syntax = pos 0
or_zero (range n) = n
or_zero (value n) = n

unfoldable pub atoi : String → ℤ
atoi s = or_zero (parse_int 64 s)

-- An integer in two's complement of some width, as `int8` and `int32` make it.
unfoldable pub residue : ℕ → ℤ → ℕ
residue m (pos n) = n % m
residue m (negsuc n) = m - 1 - n % m

unfoldable pub wrap : ℕ → ℤ → ℤ
wrap bits n =
    let u = residue (2 ^ bits) n in
    if ltb u (2 ^ (bits - 1)) then pos u else negsuc (2 ^ bits - 1 - u)

abbrev pub int8 : ℤ → ℤ
int8 = wrap 8

abbrev pub int32 : ℤ → ℤ
int32 = wrap 32
