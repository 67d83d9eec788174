-- ===== src/Base/Regex.antt =====
-- Regular expressions that must match a whole text, and a matcher by derivatives.
pub mod Language
pub mod Classes
use Prim.Native.Char.{Char}
use Prim.Native.Nat.{ℕ, zero, suc}
use Prim.Native.String.{String, [], ◌∷◌}
use mathlib.Core.Bool.{Bool, true, false, ◌&&◌, ◌||◌}
use wallet_app.Base.Tests.{if◌then◌else◌}

pub data Regex : Type 0 where
  nothing empty : Regex
  one : (Char → Bool) → Regex
  seq alt : Regex → Regex → Regex
  star : Regex → Regex

-- Does it match the empty text?
unfoldable pub nullable : Regex → Bool
nullable nothing = false
nullable empty = true
nullable (one p) = false
nullable (seq r s) = nullable r && nullable s
nullable (alt r s) = nullable r || nullable s
nullable (star r) = true

-- What is left to match behind a first character.
unfoldable pub derivative : Char → Regex → Regex
derivative c nothing = nothing
derivative c empty = nothing
derivative c (one p) = if p c then empty else nothing
derivative c (seq r s) =
    let first = seq (derivative c r) s in
    let second = derivative c s in if nullable r then alt first second else first
derivative c (alt r s) = alt (derivative c r) (derivative c s)
derivative c (star r) = seq (derivative c r) (star r)

unfoldable pub matches : Regex → String → Bool
matches r [] = nullable r
matches r (c ∷ s) = matches (derivative c r) s

-- `r{n}`, `r{0,n}` and `r+`
unfoldable pub times : ℕ → Regex → Regex
times zero r = empty
times (suc n) r = seq r (times n r)

unfoldable pub up_to : ℕ → Regex → Regex
up_to zero r = empty
up_to (suc n) r = alt empty (seq r (up_to n r))

abbrev pub plus : Regex → Regex
plus r = seq r (star r)
