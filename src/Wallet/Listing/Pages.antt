-- ===== src/Wallet/Listing/Pages.antt =====
-- Following the page tokens from the first page shows every transaction of the account once.
use wallet_app.Base.{
  ◌<◌, ◌^◌, ℕ, ◌+◌, ◌*◌, ◌≤◌, zero, suc, ◌≡◌, refl, ap, String, Bool, false, Option, none, some,
  List, [], ◌∷◌, ◌++◌, ◌==◌, arith, inl, inr, ℤ, pos, eqb, length, take, drop, Bool-cases,
}
use wallet_app.Base.Decimal.{int32}
use wallet_app.Base.Decimal.Reading.{wrap32}
use wallet_app.Models.{TransactionModel}
use wallet_app.Errors.{Result, ok, err}
use wallet_app.Store.{Db, Faults, select_rows}
use wallet_app.Wallet.Listing.{
  ListTransactionsResponse, list_transactions, list_rows, to_response, effective_size,
  effective_page, history,
}

module _ {ℓ} {A : Type ℓ} where
  take-drop : (n : ℕ) (xs : List A) → take n xs ++ drop n xs ≡ xs
  unfolding take drop
  take-drop zero xs = refl
  take-drop (suc n) [] = refl
  take-drop (suc n) (x ∷ xs) = ap (λ ys. x ∷ ys) (take-drop n xs)

  drop-add : (n m : ℕ) (xs : List A) → drop (n + m) xs ≡ drop m (drop n xs)
  unfolding drop
  drop-add zero m xs = let e : 0 + m ≡ m = omega arith in rw e
  drop-add (suc n) zero [] = let e : suc n + 0 ≡ suc n = omega arith in rw e
  drop-add (suc n) (suc m) [] = let e : suc n + suc m ≡ suc (n + suc m) = omega arith in rw e
  drop-add (suc n) m (x ∷ xs) =
      let e : suc n + m ≡ suc (n + m) = omega arith in rw e (drop-add n m xs)

  -- A page that is not full is the last.
  take-short : (n : ℕ) (xs : List A) → eqb (length (take n xs)) n ≡ false → take n xs ≡ xs
  unfolding take
  take-short zero xs h = absurd (ground arith)
  take-short (suc n) [] h = refl
  take-short (suc n) (x ∷ xs) h = ap (λ ys. x ∷ ys) (take-short n xs (ground arith))

  length-take-drop : (n : ℕ) (xs : List A) → length (take n xs) + length (drop n xs) ≡ length xs
  unfolding take drop
  length-take-drop zero xs = omega arith
  length-take-drop (suc n) [] = omega arith
  length-take-drop (suc n) (x ∷ xs) = omega (arith, length-take-drop n xs)

-- What the service answers with where the database answers.
page_of :
    (fails : Faults) (account : String) (page : ℕ) (size : ℤ) (db : Db)
    → fails select_rows ≡ false
    → (account == "") ≡ false
    → page < 2 ^ 31
    → let n = effective_size size in
      list_transactions fails account (pos page) size db
      ≡ to_response page n (ok (take n (drop (page * n) (history account db))))
unfolding list_transactions list_rows effective_page
page_of fails account page size db up named small =
    let same : int32 (pos page) ≡ pos page =
      wrap32 (pos page) (omega arith) (omega (arith, small)) in
    ground (arith, same)

unfoldable pub join :
    List TransactionModel → Option (List TransactionModel) → Option (List TransactionModel)
join ts none = none
join ts (some rest) = some (ts ++ rest)

unfoldable pub collect :
    (ℕ → Option (List TransactionModel))
    → Result ListTransactionsResponse
    → Option (List TransactionModel)
collect next (err e) = none
collect next (ok r) = elim r.next_page_token [
  | none ↦ some r.transactions
  | some page ↦ join r.transactions (next page)
]

-- A client that follows the tokens, for at most `fuel` pages.
unfoldable pub walk : Faults → String → ℤ → Db → (fuel page : ℕ) → Option (List TransactionModel)
walk fails account size db zero page = none
walk fails account size db (suc fuel) page =
    collect (λ next. walk fails account size db fuel next)
      (list_transactions fails account (pos page) size db)

size_positive : (size : ℤ) → 1 ≤ effective_size size
unfolding effective_size
size_positive size = ground arith

module _ (fails : Faults) (account : String) (size : ℤ) (db : Db) (up : fails select_rows ≡ false)
    (named : (account == "") ≡ false) where
  abbrev rest : ℕ → List TransactionModel
  rest page = drop (page * effective_size size) (history account db)

  abbrev is_full : ℕ → Bool
  is_full page = eqb (length (take (effective_size size) (rest page))) (effective_size size)

  -- A page that is not full is the last that is fetched.
  walk-last :
      (fuel page : ℕ)
      → page < 2 ^ 31
      → is_full page ≡ false
      → walk fails account size db (suc fuel) page ≡ some (rest page)
  unfolding walk collect to_response
  walk-last fuel page small last =
      rw (page_of fails account page size db up named small, last)
        (ap some (take-short (effective_size size) (rest page) last))

  rest-next : (page : ℕ) → rest (page + 1) ≡ drop (effective_size size) (rest page)
  rest-next page =
      let n = effective_size size in
      let e : (page + 1) * n ≡ page * n + n = ground arith in
      rw e (drop-add (page * n) n (history account db))

  walk-drop :
      (fuel page : ℕ)
      → length (rest page) ≤ fuel
      → page + length (rest page) < 2 ^ 31
      → walk fails account size db (suc fuel) page ≡ some (rest page)
  unfolding walk collect join to_response
  walk-drop zero page enough room = elim (Bool-cases (is_full page)) [
    | inr last ↦ walk-last zero page (omega (arith, room)) last
    | inl full ↦
        let n = effective_size size in
        let bound : n ≤ 0 = ground (arith, length-take-drop n (rest page), enough) in
        absurd (omega (arith, size_positive size, bound))
  ]
  walk-drop (suc fuel) page enough room = elim (Bool-cases (is_full page)) [
    | inr last ↦ walk-last (suc fuel) page (omega (arith, room)) last
    | inl full ↦
        let n = effective_size size in
        let shorter : length (rest (page + 1)) ≤ fuel =
          rw (rest-next page)
            (ground (arith, length-take-drop n (rest page), size_positive size)) in
        let room' : page + 1 + length (rest (page + 1)) < 2 ^ 31 =
          rw (rest-next page)
            (ground (arith, length-take-drop n (rest page), size_positive size)) in
        rw
          (
            page_of fails account page size db up named (omega (arith, room)),
            full,
            walk-drop fuel (page + 1) shorter room',
            rest-next page,
          )
          (ap some (take-drop n (rest page)))
  ]

  -- Where the database answers, the account id is not empty, and the account has fewer transactions
  -- than an int32 counts, a client that starts at page 0 and follows the tokens is shown the history
  -- of the account, whole and in its order, and comes to a last page after at most one page more than
  -- there are transactions.
  pub walk-history :
      length (history account db) < 2 ^ 31
      → walk fails account size db (suc (length (history account db))) 0 ≡ some (history account db)
  unfolding drop
  walk-history small =
      let start : 0 * effective_size size ≡ 0 = ground arith in
      let whole : rest 0 ≡ history account db = rw start in
      rw (
        walk-drop (length (history account db)) 0 (rw whole (omega arith))
            (rw whole (omega (arith, small))),
        whole,
      )
