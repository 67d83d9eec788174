-- ===== src/Wallet/Accounts/Balances.antt =====
-- What `GetBalance` returns, and to whom.
use wallet_app.Base.{
  ℕ, ◌+◌, ◌≡◌, String, false, none, some, ◌==◌, eq_iff, arith, find_where, ltb, if◌then◌else◌,
  Option-cases, inl, inr,
}
use text.Mathlib.TextPositions.{eq_refl}
use wallet_app.Models.{AccountModel}
use wallet_app.Errors.{ok}
use wallet_app.Store.{Db, Faults, autocommit}
use wallet_app.Ledger.{has_id}
use wallet_app.Cache.{
  CacheFaults, Ttl, number, balance_key, read, get_or_store_account_balance, set, get,
}
use wallet_app.Wallet.{World, check_user_account_compatibility, find_account_by_id}
use wallet_app.Wallet.Accounts.{get_balance, balance_of_found, or_given}

-- An account that passes `checkUserAccountCompatibility` is stored under the id, and is the user's.
pub check-some :
    (finds : Faults) (user account : String) (db : Db) {s : AccountModel}
    → check_user_account_compatibility finds user account db ≡ some s
    → (find_where (has_id account) db.accounts ≡ some s) × (s.user_id ≡ user)
unfolding check_user_account_compatibility find_account_by_id autocommit
check-some finds user account db {s} h = ground (arith, eq_iff s.user_id user)

-- A balance is returned only for an account that is stored under the id and belongs to the user.
pub get_balance_owner :
    (ttl : Ttl) (now : ℕ) (finds : Faults) (fails : CacheFaults) (user account : String) (w : World)
    {a : AccountModel}
    → (get_balance ttl now finds fails user account w).0 ≡ ok a
    → (a.user_id ≡ user)
      × (stored : AccountModel) × (find_where (has_id account) w.db.accounts ≡ some stored)
      × (a ≡ record stored { balance = a.balance })
unfolding get_balance balance_of_found
get_balance_owner ttl now finds fails user account w {a} h =
    elim (Option-cases (check_user_account_compatibility finds user account w.db)) [
      | inl stranger ↦ absurd (ground arith)
      | inr (s, owner) ↦
          let (found, of_user) = check-some finds user account w.db owner in
          (ground arith, s, found, ground arith)
    ]

-- Where nothing is cached, an owner reads the stored balance, and reads it again until the entry
-- expires.
pub get_balance_stored :
    (ttl : Ttl) (now later : ℕ) (finds : Faults) (fails : CacheFaults) (user account : String)
    (w : World) {stored : AccountModel}
    → (account == "") ≡ false
    → check_user_account_compatibility finds user account w.db ≡ some stored
    → fails (get (balance_key account)) ≡ false
    → fails (set (balance_key account)) ≡ false
    → read now (balance_key account) w.cache ≡ none
    → let (result, w') = get_balance ttl now finds fails user account w in
      (result ≡ ok stored)
      × (w'.db ≡ w.db)
      × (read later (balance_key account) w'.cache
          ≡ (if ltb later (now + ttl.balance_ttl) then some (number stored.balance) else none))
unfolding get_balance balance_of_found or_given get_or_store_account_balance
get_balance_stored ttl now later finds fails user account w named owner quiet quiet' cached =
    (ground arith, ground arith, ground (arith, eq_refl account))
