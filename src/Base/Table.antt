-- ===== src/Base/Table.antt =====
-- SQL tables as lists of rows: selection, counting, conditional update, and predicates on all rows.
use Prim.Native.Nat.{ℕ, zero, suc, ◌<◌, ◌≤◌, ◌+◌}
use mathlib.Core.Path.{◌≡◌, refl, subst}
use mathlib.Core.Logic.{◌↔◌, inl, inr}
use mathlib.Core.Bool.{Bool, true, false}
use mathlib.Core.Option.{Option, none, some}
use mathlib.Core.List.{List, [], ◌∷◌, ◌++◌}
use native.Mathlib.Omega.{arith}
use wallet_app.Base.Tests.{if◌then◌else◌, Bool-cases}

module _ {ℓ} {A : Type ℓ} where
  abbrev pub length : List A → ℕ
  length [] = 0
  length (x ∷ xs) = suc (length xs)

  -- SELECT … WHERE p, of which the driver's QueryRow takes the first row.
  unfoldable pub find_where : (A → Bool) → List A → Option A
  find_where p [] = none
  find_where p (x ∷ xs) = if p x then some x else find_where p xs

  -- The number of rows that a WHERE clause selects: the driver's RowsAffected.
  unfoldable pub count_where : (A → Bool) → List A → ℕ
  count_where p [] = 0
  count_where p (x ∷ xs) = let n = count_where p xs in if p x then suc n else n

  -- UPDATE … SET f WHERE p.
  unfoldable pub update_where : (A → Bool) → (A → A) → List A → List A
  update_where p f [] = []
  update_where p f (x ∷ xs) = (if p x then f x else x) ∷ update_where p f xs

  -- SELECT … WHERE p, all rows.
  unfoldable pub select_where : (A → Bool) → List A → List A
  select_where p [] = []
  select_where p (x ∷ xs) = let rest = select_where p xs in if p x then x ∷ rest else rest

  -- LIMIT n
  unfoldable pub take : ℕ → List A → List A
  take zero xs = []
  take (suc n) [] = []
  take (suc n) (x ∷ xs) = x ∷ take n xs

  -- OFFSET n
  unfoldable pub drop : ℕ → List A → List A
  drop zero xs = xs
  drop (suc n) [] = []
  drop (suc n) (x ∷ xs) = drop n xs

  abbrev pub All {κ} : (A → Type κ) → List A → Type κ
  All P [] = Unit
  All P (x ∷ xs) = P x × All P xs

  -- An update that selects no row changes nothing.
  pub update_where-none :
      (p : A → Bool) (f : A → A) (xs : List A) → count_where p xs ≡ 0 → update_where p f xs ≡ xs
  unfolding count_where update_where
  update_where-none p f [] h = refl
  update_where-none p f (x ∷ xs) h = ground (arith, update_where-none p f xs)

  pub find_where-none : (p : A → Bool) (xs : List A) → count_where p xs ≡ 0 → find_where p xs ≡ none
  unfolding count_where find_where
  find_where-none p [] h = refl
  find_where-none p (x ∷ xs) h = ground (arith, find_where-none p xs)

  -- A row is found where one is counted.
  pub find_where-some :
      (p : A → Bool) (xs : List A) → 0 < count_where p xs → (x : A) × (find_where p xs ≡ some x)
  unfolding count_where find_where
  find_where-some p [] h = elim h [ ]
  find_where-some p (x ∷ xs) h = elim (Bool-cases (p x)) [
    | inl here ↦ (x, ground arith)
    | inr later ↦
        let found = find_where-some p xs (ground arith) in (found.0, ground (arith, found.1))
  ]

  pub find_where-holds :
      (p : A → Bool) (xs : List A) {x : A} → find_where p xs ≡ some x → p x ≡ true
  unfolding find_where
  find_where-holds p [] h = cc
  find_where-holds p (y ∷ xs) {x} h = ground (arith, find_where-holds p xs {x = x})

  pub count_where-update :
      (p q : A → Bool) (f : A → A)
      → ((x : A) → p x ≡ true → q (f x) ≡ q x)
      → (xs : List A) → count_where q (update_where p f xs) ≡ count_where q xs
  unfolding count_where update_where
  count_where-update p q f keep [] = refl
  count_where-update p q f keep (x ∷ xs) = ground (arith, keep x, count_where-update p q f keep xs)

  -- An update keeps or establishes a predicate row by row.
  pub All-update {κ μ} :
      {P : A → Type κ} {Q : A → Type μ} (p : A → Bool) (f : A → A)
      → ((x : A) → P x → p x ≡ true → Q (f x))
      → ((x : A) → P x → p x ≡ false → Q x)
      → (xs : List A) → All P xs
      → All Q (update_where p f xs)
  unfolding update_where
  All-update p f hit miss [] h = tt
  All-update {P} {Q} p f hit miss (x ∷ xs) h = (
    elim (Bool-cases (p x)) [ inl e ↦ rw e (hit x h.0 e) | inr e ↦ rw e (miss x h.0 e) ],
    All-update p f hit miss xs h.1,
  )

  pub All-map {κ μ} :
      {P : A → Type κ} {Q : A → Type μ}
      → ((x : A) → P x → Q x)
      → (xs : List A) → All P xs
      → All Q xs
  All-map f [] h = tt
  All-map f (x ∷ xs) h = (f x h.0, All-map f xs h.1)

  pub All-append {κ} : (P : A → Type κ) (xs ys : List A) → All P xs → All P ys → All P (xs ++ ys)
  All-append P [] ys h k = k
  All-append P (x ∷ xs) ys h k = (h.0, All-append P xs ys h.1 k)

  pub count_where-zero_iff :
      (p : A → Bool) (xs : List A) → (count_where p xs ≡ 0) ↔ All (λ x. p x ≡ false) xs
  unfolding count_where
  count_where-zero_iff p [] = ((λ _. tt), (λ _. refl))
  count_where-zero_iff p (x ∷ xs) = (
    (λ h. (ground arith, (count_where-zero_iff p xs).0 (ground arith))),
    (λ h. ground (arith, h.0, (count_where-zero_iff p xs).1 h.1)),
  )

  pub count_where-le :
      (p q : A → Bool)
      → ((x : A) → p x ≡ true → q x ≡ true)
      → (xs : List A) → count_where p xs ≤ count_where q xs
  unfolding count_where
  count_where-le p q imp [] = omega arith
  count_where-le p q imp (x ∷ xs) = ground (arith, imp x, count_where-le p q imp xs)

  pub count_where-append :
      (p : A → Bool) (xs ys : List A)
      → count_where p (xs ++ ys) ≡ count_where p xs + count_where p ys
  unfolding count_where
  count_where-append p [] ys = omega arith
  count_where-append p (x ∷ xs) ys = ground (arith, count_where-append p xs ys)

  pub All-find {κ} :
      (P : A → Type κ) (p : A → Bool) (xs : List A) {x : A}
      → All P xs
      → find_where p xs ≡ some x
      → P x
  unfolding find_where
  All-find P p [] h e = absurd (cc e)
  All-find P p (y ∷ xs) {x} h e = elim (Bool-cases (p y)) [
    | inl here ↦ let same : y ≡ x = ground arith in subst P same h.0
    | inr later ↦ All-find P p xs h.1 (rw later at e)
  ]

  pub length-take : (n : ℕ) (xs : List A) → length (take n xs) ≤ n
  unfolding take
  length-take zero xs = omega arith
  length-take (suc n) [] = omega arith
  length-take (suc n) (x ∷ xs) = omega (arith, length-take n xs)

  -- A row that is put at the end is found where no row before it is.
  pub find_where-last :
      (p : A → Bool) (xs : List A) (x : A)
      → count_where p xs ≡ 0
      → p x ≡ true
      → find_where p (xs ++ x ∷ []) ≡ some x
  unfolding count_where find_where
  find_where-last p [] x none_before here = ground arith
  find_where-last p (y ∷ xs) x none_before here = ground (arith, find_where-last p xs x)

  pub All-anything : (xs : List A) → All (λ _. Unit {0}) xs
  All-anything [] = tt
  All-anything (x ∷ xs) = (tt, All-anything xs)
