-- ===== src/Base/Text.antt =====
-- Go strings: concatenation and the byte order.
use Prim.Native.Nat.{Ordering}
use Prim.Native.String.{String, compare, ◌++◌, [], ◌∷◌, count}
use Prim.Native.Char.{Char}
use mathlib.Core.Path.{◌≡◌, refl, ap}
use mathlib.Core.Logic.{◌≢◌, inl, inr}
use mathlib.Core.Bool.{Bool, true, false}
use native.Mathlib.Omega.{arith}
use text.Mathlib.Text.{◌==◌}
use text.Mathlib.TextEquality.{eq_iff}
use text.Mathlib.TextLemmas.{nil-append, cons-append, length-cons, length-append}
use text.Mathlib.TextPositions.{eq_refl}
use wallet_app.Base.Tests.{if◌then◌else◌, Bool-cases}

-- `s < t`
unfoldable pub ltb_text : String → String → Bool
ltb_text s t = elim (compare s t) [ Ordering.lt ↦ true | _ ↦ false ]

-- `s + t`
abbrev pub concat : String → String → String
concat s t = s ++ t

-- `strings.TrimSuffix(s, suffix)`: what stands before the suffix, or `s` where it does not end so.
unfoldable pub trim_suffix : String → String → String
trim_suffix [] suffix = []
trim_suffix (c ∷ s) suffix =
    let rest = trim_suffix s suffix in if (c ∷ s) == suffix then [] else c ∷ rest

-- A text that is longer than another is not equal to it.
longer_differs : (c : Char) (s t : String) → ((c ∷ (s ++ t)) == t) ≡ false
longer_differs c s t = elim (Bool-cases ((c ∷ (s ++ t)) == t)) [
  | inr e ↦ e
  | inl e ↦
      let same : count (c ∷ (s ++ t)) ≡ count t = ap count ((eq_iff (c ∷ (s ++ t)) t).0 e) in
      absurd (omega (arith, same, length-cons c (s ++ t), length-append s t))
]

pub trim_suffix-append : (s suffix : String) → trim_suffix (s ++ suffix) suffix ≡ s
unfolding trim_suffix
trim_suffix-append [] [] = refl
trim_suffix-append [] (c ∷ t) = rw (nil-append (c ∷ t), eq_refl (c ∷ t))
trim_suffix-append (c ∷ s) t = rw (cons-append c s t, longer_differs c s t, trim_suffix-append s t)

pub not_equal : (s t : String) → s ≢ t → (s == t) ≡ false
not_equal s t differ = elim (Bool-cases (s == t)) [
  | inl same ↦ absurd (differ ((eq_iff s t).0 same))
  | inr h ↦ h
]
