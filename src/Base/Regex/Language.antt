-- ===== src/Base/Regex/Language.antt =====
-- The texts that a regular expression describes, and that the matcher accepts these and no others.
use Prim.Native.Char.{Char}
use Prim.Native.String.{String, [], ◌∷◌, ◌++◌}
use mathlib.Core.Path.{◌≡◌, refl, sym, ap, ◌∙◌, subst}
use mathlib.Core.Logic.{◌⊎◌, inl, inr, ◌↔◌}
use mathlib.Core.Bool.{Bool, true, false, ◌&&◌, ◌||◌}
use text.Mathlib.TextLemmas.{
  nil-append, cons-append, cons-ne-nil, head-eq_of_cons-eq, tail-eq_of_cons-eq,
}
use wallet_app.Base.Tests.{Bool-cases}
use wallet_app.Base.Regex.{
  Regex, nothing, empty, one, seq, alt, star, nullable, derivative, matches,
}

-- A text that falls into pieces of a language, none of which is empty.
pub data Pieces (P : String → Type 0) : String → Type 0 where
  none_left : Pieces P []
  piece : (c : Char) (a b s : String) → P (c ∷ a) → Pieces P b → s ≡ a ++ b → Pieces P (c ∷ s)

abbrev pub Describes : Regex → String → Type 0
Describes nothing s = ⊥
Describes empty s = s ≡ []
Describes (one p) s = (c : Char) × (s ≡ c ∷ []) × (p c ≡ true)
Describes (seq r t) s = (a : String) × (b : String) × (s ≡ a ++ b) × Describes r a × Describes t b
Describes (alt r t) s = Describes r s ⊎ Describes t s
Describes (star r) s = Pieces (Describes r) s

and-true : (a b : Bool) → (a && b) ≡ true → (a ≡ true) × (b ≡ true)
and-true true true h = (refl, refl)
and-true true false h = (refl, cc h)
and-true false b h = (cc h, cc h)

nullable-Describes : (r : Regex) → nullable r ≡ true → Describes r []
unfolding nullable
nullable-Describes nothing h = cc h
nullable-Describes empty h = refl
nullable-Describes (one p) h = cc h
nullable-Describes (seq r t) h =
    let (left, right) = and-true (nullable r) (nullable t) h in
    ([], [], refl, nullable-Describes r left, nullable-Describes t right)
nullable-Describes (alt r t) h = elim (Bool-cases (nullable r)) [
  | inl left ↦ inl (nullable-Describes r left)
  | inr not_left ↦ inr (nullable-Describes t (rw not_left at h))
]
nullable-Describes (star r) h = Pieces.none_left

append-empty : (a b : String) → a ++ b ≡ [] → (a ≡ []) × (b ≡ [])
append-empty [] b h = (refl, sym (nil-append b) ∙ h)
append-empty (c ∷ a) b h = absurd (cons-ne-nil c (a ++ b) (sym (cons-append c a b) ∙ h))

or_true : (a b : Bool) → b ≡ true → (a || b) ≡ true
or_true true b h = refl
or_true false b h = h

Describes-nullable : (r : Regex) {s : String} → s ≡ [] → Describes r s → nullable r ≡ true
unfolding nullable
Describes-nullable nothing nil h = absurd h
Describes-nullable empty nil h = refl
Describes-nullable (one p) nil (c, same, _) = absurd (cons-ne-nil c [] (sym same ∙ nil))
Describes-nullable (seq r t) nil (a, b, same, left, right) =
    let (no_a, no_b) = append-empty a b (sym same ∙ nil) in
    rw (Describes-nullable r no_a left) (Describes-nullable t no_b right)
Describes-nullable (alt r t) nil (inl left) = rw (Describes-nullable r nil left) refl
Describes-nullable (alt r t) nil (inr right) =
    or_true (nullable r) (nullable t) (Describes-nullable t nil right)
Describes-nullable (star r) nil h = refl

derivative-Describes :
    (c : Char) (r : Regex) (s : String) → Describes (derivative c r) s → Describes r (c ∷ s)
unfolding derivative
derivative-Describes c nothing s h = h
derivative-Describes c empty s h = absurd h
derivative-Describes c (one p) s h = elim (Bool-cases (p c)) [
  | inl holds ↦ (c, ap (λ x. c ∷ x) (rw holds at h), holds)
  | inr fails ↦ absurd (rw fails at h)
]
derivative-Describes c (seq r t) s h = elim (Bool-cases (nullable r)) [
  | inl holds ↦ elim (rw holds at h) [
    | inl (a, b, same, left, right) ↦ (
      c ∷ a,
      b,
      ap (λ x. c ∷ x) same ∙ sym (cons-append c a b),
      derivative-Describes c r a left,
      right,
    )
    | inr right ↦ (
      [],
      c ∷ s,
      sym (nil-append (c ∷ s)),
      nullable-Describes r holds,
      derivative-Describes c t s right,
    )
  ]
  | inr fails ↦
      let (a, b, same, left, right) = rw fails at h in
      (
        c ∷ a,
        b,
        ap (λ x. c ∷ x) same ∙ sym (cons-append c a b),
        derivative-Describes c r a left,
        right,
      )
]
derivative-Describes c (alt r t) s (inl h) = inl (derivative-Describes c r s h)
derivative-Describes c (alt r t) s (inr h) = inr (derivative-Describes c t s h)
derivative-Describes c (star r) s (a, b, same, h, rest) =
    Pieces.piece c a b s (derivative-Describes c r a h) rest same

Describes-derivative :
    (c : Char) (r : Regex) (s : String) → Describes r (c ∷ s) → Describes (derivative c r) s
unfolding derivative
Describes-derivative c nothing s h = h
Describes-derivative c empty s h = cons-ne-nil c s h
Describes-derivative c (one p) s (d, same, holds) =
    let holds_c : p c ≡ true = ap p (head-eq_of_cons-eq same) ∙ holds in
    rw holds_c (tail-eq_of_cons-eq same)
Describes-derivative c (seq r t) s ([], b, same, left, right) =
    let rest : Describes t (c ∷ s) = subst (Describes t) (sym (same ∙ nil-append b)) right in
    rw (Describes-nullable r refl left) (inr (Describes-derivative c t s rest))
Describes-derivative c (seq r t) s (d ∷ a, b, same, left, right) =
    let cut : c ∷ s ≡ d ∷ (a ++ b) = same ∙ cons-append d a b in
    let first : Describes r (c ∷ a) =
      subst (λ x. Describes r (x ∷ a)) (sym (head-eq_of_cons-eq cut)) left in
    let left' = Describes-derivative c r a first in
    elim (Bool-cases (nullable r)) [
      | inl holds ↦ rw holds (inl (a, b, tail-eq_of_cons-eq cut, left', right))
      | inr fails ↦ rw fails (a, b, tail-eq_of_cons-eq cut, left', right)
    ]
Describes-derivative c (alt r t) s (inl h) = inl (Describes-derivative c r s h)
Describes-derivative c (alt r t) s (inr h) = inr (Describes-derivative c t s h)
Describes-derivative c (star r) s (Pieces.piece _ a b _ h rest same) =
    (a, b, same, Describes-derivative c r a h, rest)

-- The matcher accepts the texts that the expression describes, and no others.
pub matches-Describes : (r : Regex) (s : String) → (matches r s ≡ true) ↔ Describes r s
unfolding matches
matches-Describes r [] = (nullable-Describes r, Describes-nullable r refl)
matches-Describes r (c ∷ s) =
    let (sound, complete) = matches-Describes (derivative c r) s in
    ((λ h. derivative-Describes c r s (sound h)), (λ h. complete (Describes-derivative c r s h)))
