-- ===== src/Wallet/Accounts/Limits.antt =====
-- At most three accounts of one currency for a user, and a new account in a valid ledger.
use wallet_app.Base.{
  ℕ, ◌≤◌, ◌<◌, ◌≡◌, refl, String, Bool, false, ◌&&◌, List, [], ◌∷◌, ◌++◌, ◌==◌, eq_iff, arith, pos,
  count_where, count_where-append, select_where, All, All-append, Bool-cases, ap, sym, ◌⊎◌, inl,
  inr,
}
use wallet_app.Models.{AccountModel, TransactionRow}
use wallet_app.Errors.{ok}
use wallet_app.Store.{Db, Faults, autocommit}
use wallet_app.Ledger.{has_id, ledger_balance, counts_for}
use wallet_app.Ledger.Balance.{touches}
use wallet_app.Repository.Invariant.{IsValid}
use wallet_app.Wallet.Accounts.{
  of_user, in_currency, new_account, insert_account, find_accounts_by_user_id,
  can_open_new_accounts, open_with, open_account,
}

-- The accounts of a user in a currency.
abbrev pub holds : String → String → AccountModel → Bool
holds user currency a = of_user user a && in_currency currency a

pub count_where-select :
    (user currency : String) (accounts : List AccountModel)
    → count_where (in_currency currency) (select_where (of_user user) accounts)
      ≡ count_where (holds user currency) accounts
unfolding count_where select_where
count_where-select user currency [] = refl
count_where-select user currency (a ∷ accounts) =
    ground (arith, count_where-select user currency accounts)

abbrev append_account : AccountModel → Db → Db
append_account a db = record db { accounts = db.accounts ++ a ∷ [] }

-- Opening changes nothing, or appends the new account where fewer than three are open and the id is
-- not taken.
open_account-cases :
    (now : ℕ) (finds inserts : Faults) (id user currency : String) (seen db : Db)
    → ((open_account now finds inserts id user currency seen db).1 ≡ db)
      ⊎ ((open_account now finds inserts id user currency seen db ≡ (
        ok (new_account now id user currency),
        append_account (new_account now id user currency) db,
      ))
          × (count_where (holds user currency) seen.accounts < 3)
          × (count_where (has_id id) db.accounts ≡ 0))
unfolding open_account open_with insert_account can_open_new_accounts find_accounts_by_user_id
    autocommit
open_account-cases now finds inserts id user currency seen db =
    ground (arith, count_where-select user currency seen.accounts)

-- No user has more than three accounts of one currency.
abbrev pub AtMostThree : Db → Type 0
AtMostThree db = (user currency : String) → count_where (holds user currency) db.accounts ≤ 3

append-AtMostThree :
    (now : ℕ) (id user currency : String) (accounts : List AccountModel) (u c : String)
    → count_where (holds u c) accounts ≤ 3
    → count_where (holds user currency) accounts < 3
    → count_where (holds u c) (accounts ++ new_account now id user currency ∷ []) ≤ 3
unfolding count_where new_account
append-AtMostThree now id user currency accounts u c most room =
    rw (count_where-append (holds u c) accounts (new_account now id user currency ∷ []))
      (elim (Bool-cases (user == u && currency == c)) [
        | inl both ↦
            let same_user : user ≡ u = ground (arith, eq_iff user u) in
            let same_currency : currency ≡ c = ground (arith, eq_iff currency c) in
            rw both (
              omega (
                arith,
                ap (λ i. count_where (holds i currency) accounts) same_user,
                ap (λ i. count_where (holds u i) accounts) same_currency,
              ))
        | inr other ↦ rw other (omega arith)
      ])

-- Opening an account never gives a user a fourth account of one currency, whatever calls fail, where
-- no account of the same user and currency is inserted between its two statements.
pub open_account-AtMostThree :
    (now : ℕ) (finds inserts : Faults) (id user currency : String) (seen db : Db)
    → AtMostThree db
    → count_where (holds user currency) seen.accounts
      ≡ count_where (holds user currency) db.accounts
    → AtMostThree (open_account now finds inserts id user currency seen db).1
open_account-AtMostThree now finds inserts id user currency seen db most alone u c =
    elim (open_account-cases now finds inserts id user currency seen db) [
      | inl same ↦ rw same (most u c)
      | inr (opened, room, _) ↦ rw opened (
          append-AtMostThree now id user currency db.accounts u c (most u c)
            (omega (arith, room, alone)))
    ]

ledger_balance-unused :
    (account : String) (rows : List TransactionRow)
    → All (λ r. touches account r ≡ false) rows
    → ledger_balance account rows ≡ pos 0
unfolding ledger_balance counts_for
ledger_balance-unused account [] h = refl
ledger_balance-unused account (r ∷ rows) h =
    ground (arith, h.0, ledger_balance-unused account rows h.1)

append_account-one :
    (now : ℕ) (id user currency other : String) (accounts : List AccountModel)
    → count_where (has_id other) accounts ≤ 1
    → count_where (has_id id) accounts ≡ 0
    → count_where (has_id other) (accounts ++ new_account now id user currency ∷ []) ≤ 1
unfolding count_where new_account
append_account-one now id user currency other accounts one fresh =
    rw (count_where-append (has_id other) accounts (new_account now id user currency ∷ []))
      (elim (Bool-cases (id == other)) [
        | inl e ↦
            rw e (omega (arith, ap (λ i. count_where (has_id i) accounts) ((eq_iff id other).0 e)))
        | inr e ↦ rw e (omega arith)
      ])

-- Opening an account under a new id, which no transaction mentions, keeps the ledger's invariant.
pub open_account-IsValid :
    (now : ℕ) (finds inserts : Faults) (id user currency : String) (seen db : Db)
    → IsValid db
    → All (λ r. touches id r ≡ false) db.transactions
    → IsValid (open_account now finds inserts id user currency seen db).1
open_account-IsValid now finds inserts id user currency seen db valid unused =
    elim (open_account-cases now finds inserts id user currency seen db) [
      | inl same ↦ rw same valid
      | inr (opened, _, fresh) ↦ rw opened (record {
        one_transaction = valid.one_transaction;
        one_account = λ other.
            append_account-one now id user currency other db.accounts (valid.one_account other)
              fresh;
        rows_allowed = valid.rows_allowed;
        reconciled =
            All-append _ db.accounts _ valid.reconciled
              (unfold new_account in (sym (ledger_balance-unused id db.transactions unused), tt));
        nonneg = All-append _ db.accounts _ valid.nonneg (unfold new_account in (omega arith, tt));
      })
    ]

pub open_account-transactions :
    (now : ℕ) (finds inserts : Faults) (id user currency : String) (seen db : Db)
    → (open_account now finds inserts id user currency seen db).1.transactions ≡ db.transactions
open_account-transactions now finds inserts id user currency seen db =
    elim (open_account-cases now finds inserts id user currency seen db) [
      | inl same ↦ rw same
      | inr (opened, _, _) ↦ rw opened
    ]
