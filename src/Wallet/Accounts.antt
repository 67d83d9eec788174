-- ===== src/Wallet/Accounts.antt =====
-- Opening an account and reading a balance: `OpenAccount` and `GetBalance` of the wallet service, with
-- `InsertAccount`, `FindAccountsByUserId` and `GetOrStoreAccountBalance` of its repository.
pub mod Limits
pub mod Balances
use wallet_app.Base.{
  ℕ, ◌+◌, suc, String, Bool, true, false, not, ◌&&◌, Option, none, some, List, [], ◌∷◌, ◌++◌, ◌==◌,
  ℤ, pos, ltb, eqb, count_where, select_where, find_where, if◌then◌else◌,
}
use wallet_app.Models.{AccountModel, UserModel}
use wallet_app.Errors.{
  Result, ok, err, user_id_required, currency_required, account_id_required, too_many_accounts,
  not_account_owner, foreign_key_violation, unique_violation,
}
use wallet_app.Store.{
  Db, Faults, Tx, pure, gets, modify, guard, try_call, autocommit, select_rows, insert_row, ◌>>=◌,
  ◌>>◌,
}
use wallet_app.Cache.{Cache, CacheFaults, Ttl, get_or_store_account_balance}
use wallet_app.Ledger.{has_id}
use wallet_app.Wallet.{World, on_db, check_user_account_compatibility}

abbrev pub has_user_id : String → UserModel → Bool
has_user_id user u = u.id == user

abbrev pub of_user : String → AccountModel → Bool
of_user user a = a.user_id == user

abbrev pub in_currency : String → AccountModel → Bool
in_currency currency a = a.currency == currency

-- The new row: the balance is the column's default.
unfoldable pub new_account : ℕ → String → String → String → AccountModel
new_account now id user currency = record {
  id = id;
  user_id = user;
  created_at = now;
  updated_at = now;
  balance = pos 0;
  currency = currency;
}

-- `InsertAccount`, under an id that `uuid.NewString` makes: the key is unique, the user exists.
unfoldable pub insert_account :
    ℕ → Faults → String → String → String → Db → Result AccountModel × Db
insert_account now fails id user currency = autocommit (do
  try_call fails insert_row
  taken ← gets (λ db. count_where (has_id id) db.accounts)
  guard (eqb taken 0) unique_violation
  users ← gets (λ db. count_where (has_user_id user) db.users)
  guard (not (eqb users 0)) foreign_key_violation
  modify (λ db. record db { accounts = db.accounts ++ new_account now id user currency ∷ [] })
  pure (new_account now id user currency))

-- `FindAccountsByUserId`
unfoldable pub find_accounts_by_user_id : Faults → String → Tx (List AccountModel)
find_accounts_by_user_id fails user = do
  try_call fails select_rows
  gets (λ db. select_where (of_user user) db.accounts)

-- `canOpenNewAccounts`
unfoldable pub can_open_new_accounts : List AccountModel → String → Bool
can_open_new_accounts opened currency = ltb (count_where (in_currency currency) opened) 3

-- What `OpenAccount` does with the accounts that it has found.
unfoldable pub open_with :
    ℕ
    → Faults
    → String
    → String
    → String
    → Result (List AccountModel)
    → Db
    → Result AccountModel × Db
open_with now fails id user currency (err e) db = (err e, db)
open_with now fails id user currency (ok opened) db =
    if can_open_new_accounts opened currency
    then insert_account now fails id user currency db
    else (err too_many_accounts, db)

-- `OpenAccount`. Its two statements are no transaction: the first reads the accounts of a database
-- `seen`, and the second inserts into the database that other requests have made of it. The domain
-- account that it returns has the model's fields.
unfoldable pub open_account :
    ℕ → Faults → Faults → String → String → String → (seen : Db) → Db → Result AccountModel × Db
open_account now finds inserts id user currency seen db =
    if user == ""
    then (err user_id_required, db)
    else if currency == ""
    then (err currency_required, db)
    else let (found, _) = autocommit (find_accounts_by_user_id finds user) seen in
      open_with now inserts id user currency found db

-- `GetOrStoreAccountBalance` of the repository: an error of the cache is logged, and the stored
-- balance stands.
unfoldable pub or_given : ℤ → Result ℤ × Cache → ℤ × Cache
or_given amount (ok n, c) = (n, c)
or_given amount (err e, c) = (amount, c)

unfoldable pub balance_of_found :
    Ttl → ℕ → CacheFaults → String → Option AccountModel → World → Result AccountModel × World
balance_of_found ttl now fails account none w = (err not_account_owner, w)
balance_of_found ttl now fails account (some a) w =
    let (balance, cache') =
      or_given a.balance (get_or_store_account_balance ttl now fails account a.balance w.cache) in
    (ok (record a { balance = balance }), record w { cache = cache' })

-- `GetBalance`
unfoldable pub get_balance :
    Ttl → ℕ → Faults → CacheFaults → String → String → World → Result AccountModel × World
get_balance ttl now finds fails user account w =
    if account == ""
    then (err account_id_required, w)
    else balance_of_found ttl now fails account
        (check_user_account_compatibility finds user account w.db) w
