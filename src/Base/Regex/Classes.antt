-- ===== src/Base/Regex/Classes.antt =====
-- What the expressions over a class of characters describe.
use Prim.Native.Char.{Char}
use Prim.Native.Nat.{ℕ, zero, suc, ◌+◌, ◌≤◌}
use Prim.Native.String.{String, [], ◌∷◌, ◌++◌, count}
use mathlib.Core.Path.{◌≡◌, refl, sym, ap, ◌∙◌, subst}
use mathlib.Core.Logic.{inl, inr, ◌↔◌}
use mathlib.Core.Bool.{Bool, true}
use native.Mathlib.Omega.{arith}
use text.Mathlib.TextLemmas.{
  nil-append, cons-append, length-nil, length-cons, head-eq_of_cons-eq, tail-eq_of_cons-eq,
}
use wallet_app.Base.Regex.{one, star, times, up_to, plus}
use wallet_app.Base.Regex.Language.{Pieces, Describes}

abbrev pub AllChars : (Char → Bool) → String → Type 0
AllChars p [] = Unit
AllChars p (c ∷ s) = (p c ≡ true) × AllChars p s

pub AllChars-append :
    (p : Char → Bool) (a b : String) → AllChars p a → AllChars p b → AllChars p (a ++ b)
AllChars-append p [] b _ hb = subst (AllChars p) (sym (nil-append b)) hb
AllChars-append p (c ∷ a) b (hc, ha) hb =
    subst (AllChars p) (sym (cons-append c a b)) (hc, AllChars-append p a b ha hb)

-- A text that starts with a character of the class, and one made so.
behind_one : (c : Char) (s : String) → (c ∷ []) ++ s ≡ c ∷ s
behind_one c s = cons-append c [] s ∙ ap (λ x. c ∷ x) (nil-append s)

one_more :
    (p : Char → Bool) (s a b : String)
    → s ≡ a ++ b
    → Describes (one p) a
    → AllChars p b
    → AllChars p s × (count s ≡ suc (count b))
one_more p s a b same (c, single, holds) rest =
    let cut : s ≡ c ∷ b = same ∙ ap (λ x. x ++ b) single ∙ behind_one c b in
    (subst (AllChars p) (sym cut) (holds, rest), ap count cut ∙ length-cons c b)

no_characters : (s : String) → count s ≡ 0 → s ≡ []
no_characters [] h = refl
no_characters (c ∷ s) h = absurd (omega (arith, h, length-cons c s))

times_sound :
    (p : Char → Bool) (n : ℕ) (s : String)
    → Describes (times n (one p)) s
    → AllChars p s × (count s ≡ n)
unfolding times
times_sound p zero s nil = (subst (AllChars p) (sym nil) tt, ap count nil ∙ length-nil)
times_sound p (suc n) s (a, b, same, first, rest) =
    let (all_b, size_b) = times_sound p n b rest in
    let (all_s, size_s) = one_more p s a b same first all_b in (all_s, size_s ∙ ap suc size_b)

times_complete :
    (p : Char → Bool) (n : ℕ) (s : String)
    → AllChars p s
    → count s ≡ n
    → Describes (times n (one p)) s
unfolding times
times_complete p zero s all size = no_characters s size
times_complete p (suc n) [] all size = absurd (omega (arith, size, length-nil))
times_complete p (suc n) (c ∷ s) (holds, rest) size = (
  c ∷ [],
  s,
  sym (behind_one c s),
  (c, refl, holds),
  times_complete p n s rest (omega (arith, size, length-cons c s)),
)

pub times-AllChars :
    (p : Char → Bool) (n : ℕ) (s : String)
    → Describes (times n (one p)) s ↔ (AllChars p s × (count s ≡ n))
times-AllChars p n s = ((λ h. times_sound p n s h), (λ h. times_complete p n s h.0 h.1))

up_to_sound :
    (p : Char → Bool) (n : ℕ) (s : String)
    → Describes (up_to n (one p)) s
    → AllChars p s × (count s ≤ n)
unfolding up_to
up_to_sound p zero s nil =
    (subst (AllChars p) (sym nil) tt, omega (arith, ap count nil, length-nil))
up_to_sound p (suc n) s (inl nil) =
    (subst (AllChars p) (sym nil) tt, omega (arith, ap count nil, length-nil))
up_to_sound p (suc n) s (inr (a, b, same, first, rest)) =
    let (all_b, size_b) = up_to_sound p n b rest in
    let (all_s, size_s) = one_more p s a b same first all_b in
    (all_s, omega (arith, size_s, size_b))

up_to_complete :
    (p : Char → Bool) (n : ℕ) (s : String)
    → AllChars p s
    → count s ≤ n
    → Describes (up_to n (one p)) s
unfolding up_to
up_to_complete p zero s all size = no_characters s (omega (arith, size))
up_to_complete p (suc n) [] all size = inl refl
up_to_complete p (suc n) (c ∷ s) (holds, rest) size = inr (
  c ∷ [],
  s,
  sym (behind_one c s),
  (c, refl, holds),
  up_to_complete p n s rest (omega (arith, size, length-cons c s)),
)

pub up_to-AllChars :
    (p : Char → Bool) (n : ℕ) (s : String)
    → Describes (up_to n (one p)) s ↔ (AllChars p s × (count s ≤ n))
up_to-AllChars p n s = ((λ h. up_to_sound p n s h), (λ h. up_to_complete p n s h.0 h.1))

star_sound : (p : Char → Bool) (s : String) → Describes (star (one p)) s → AllChars p s
star_sound p [] h = tt
star_sound p (c ∷ s) (Pieces.piece _ a b _ (d, single, holds) rest same) =
    let cut : s ≡ b = same ∙ ap (λ x. x ++ b) (tail-eq_of_cons-eq single) ∙ nil-append b in
    (ap p (head-eq_of_cons-eq single) ∙ holds, subst (AllChars p) (sym cut) (star_sound p b rest))

star_complete : (p : Char → Bool) (s : String) → AllChars p s → Describes (star (one p)) s
star_complete p [] all = Pieces.none_left
star_complete p (c ∷ s) (holds, rest) =
    Pieces.piece c [] s s (c, refl, holds) (star_complete p s rest) (sym (nil-append s))

pub star-AllChars : (p : Char → Bool) (s : String) → Describes (star (one p)) s ↔ AllChars p s
star-AllChars p s = (star_sound p s, star_complete p s)

plus_sound :
    (p : Char → Bool) (s : String) → Describes (plus (one p)) s → AllChars p s × (1 ≤ count s)
plus_sound p s (a, b, same, first, rest) =
    let (all_s, size_s) = one_more p s a b same first (star_sound p b rest) in
    (all_s, omega (arith, size_s))

plus_complete :
    (p : Char → Bool) (s : String) → AllChars p s → 1 ≤ count s → Describes (plus (one p)) s
plus_complete p [] all size = absurd (omega (arith, size, length-nil))
plus_complete p (c ∷ s) (holds, rest) size =
    (c ∷ [], s, sym (behind_one c s), (c, refl, holds), star_complete p s rest)

pub plus-AllChars :
    (p : Char → Bool) (s : String) → Describes (plus (one p)) s ↔ (AllChars p s × (1 ≤ count s))
plus-AllChars p s = ((λ h. plus_sound p s h), (λ h. plus_complete p s h.0 h.1))

-- A text with enough characters of a class falls into the first few and the others.
pub split_at :
    (p : Char → Bool) (n : ℕ) (s : String)
    → AllChars p s
    → n ≤ count s
    → (a : String) × (b : String) × (s ≡ a ++ b)
      × (AllChars p a × (count a ≡ n))
      × (AllChars p b × (count b + n ≡ count s))
split_at p zero s all size = ([], s, sym (nil-append s), (tt, length-nil), (all, omega arith))
split_at p (suc n) [] all size = absurd (omega (arith, size, length-nil))
split_at p (suc n) (c ∷ s) (holds, rest) size =
    let (a, b, same, (all_a, size_a), (all_b, size_b)) =
      split_at p n s rest (omega (arith, size, length-cons c s)) in
    (
      c ∷ a,
      b,
      ap (λ x. c ∷ x) same ∙ sym (cons-append c a b),
      ((holds, all_a), length-cons c a ∙ ap suc size_a),
      (all_b, omega (arith, size_b, length-cons c s)),
    )
