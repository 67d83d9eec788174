-- ===== src/Base/Float.antt =====
-- Go's float64 on the integers: the value that encoding/json stores for a number that it decodes into
-- an `interface{}`.
use Prim.Native.Nat.{ℕ, zero, suc, ◌+◌, ◌*◌, ◌/◌, ◌%◌, ◌<◌, ◌≤◌, ◌^◌}
use mathlib.Core.Path.{◌≡◌}
use mathlib.Core.Logic.{◌≢◌}
use mathlib.Core.Bool.{true, ◌&&◌, ◌||◌}
use native.Mathlib.Omega.{arith}
use wallet_app.Base.Tests.{ltb, eqb, if◌then◌else◌}
use wallet_app.Base.Int.{ℤ, in_int64, pos, negsuc, pos_part, neg_part, neg, ◌-ℤ◌}

-- The factor by which a number exceeds 53 bits, looked for among the first powers of 2.
unfoldable pub unit_of : ℕ → ℕ → ℕ
unit_of zero n = 1
unit_of (suc fuel) n = let rest = unit_of fuel (n / 2) in if ltb n (2 ^ 53) then 1 else 2 * rest

-- The multiple of a unit that is nearest, and of two that are the even one.
unfoldable pub round_to : ℕ → ℕ → ℕ
round_to zero n = n
round_to (suc k) n =
    let unit = suc k in
    let down = n / unit in
    let left = n % unit in
    if ltb (2 * left) unit || (eqb (2 * left) unit && eqb (down % 2) 0)
    then down * unit
    else (down + 1) * unit

-- The significand has 53 bits; 11 more are enough for an int64.
unfoldable pub round_53 : ℕ → ℕ
round_53 n = round_to (unit_of 11 n) n

unfoldable pub float64 : ℤ → ℤ
float64 (pos n) = pos (round_53 n)
float64 (negsuc n) = neg (pos (round_53 (suc n)))

round_53-small : (n : ℕ) → n < 2 ^ 53 → round_53 n ≡ n
unfolding round_53 unit_of round_to
round_53-small n small = ground arith

-- A number of at most 53 bits and a sign.
abbrev pub HasBits53 : ℤ → Type 0
HasBits53 n = (pos_part n < 2 ^ 53) × (neg_part n < 2 ^ 53)

pub float64-small : (n : ℤ) → HasBits53 n → float64 n ≡ n
unfolding float64 ◌-ℤ◌
float64-small (pos n) (small, _) = ground (arith, round_53-small n small)
float64-small (negsuc n) (_, small) = ground (arith, round_53-small (suc n) small)

-- An odd number of 54 bits is not.
round_53-odd : (n : ℕ) → 2 ^ 53 ≤ n → n < 2 ^ 54 → n % 2 ≡ 1 → round_53 n ≢ n
unfolding round_53 unit_of round_to
round_53-odd n big small odd h = ground arith

pub float64-odd : (n : ℕ) → 2 ^ 53 ≤ n → n < 2 ^ 54 → n % 2 ≡ 1 → float64 (pos n) ≢ pos n
unfolding float64
float64-odd n big small odd h = ground (arith, round_53-odd n big small odd)

round_53-most : (n : ℕ) → n < 2 ^ 54 → round_53 n ≤ 2 ^ 54
unfolding round_53 unit_of round_to
round_53-most n small = ground arith

pub float64-int64 : (n : ℕ) → n < 2 ^ 54 → in_int64 (float64 (pos n)) ≡ true
unfolding float64 in_int64
float64-int64 n small = ground (arith, round_53-most n small)
