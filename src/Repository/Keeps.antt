-- ===== src/Repository/Keeps.antt =====
-- Every transaction method of the wallet repository keeps the ledger's invariant, whatever calls of
-- the driver fail.
use wallet_app.Base.{
  ℕ, ◌≡◌, ◌⊎◌, inl, inr, String, true, false, ◌==◌, eq_iff, List, arith, ℤ, leb_ℤ, pos, Bool-cases,
  All, ltb_text, All-map,
}
use wallet_app.Models.{TransactionRow}
use wallet_app.Errors.{Error, ok, account_not_found, insufficient_balance}
use wallet_app.Store.{Db, Faults, Tx, transact, transact-cases}
use wallet_app.Ledger.{is_pending_row, complete_rows}
use wallet_app.Repository.{
  lock_order, reconcile_one, reconcile_two, complete_then, transfer_funds, deposit_funds,
  withdraw_funds,
}
use wallet_app.Repository.Inversion.{complete_then-ok, reconcile_one-ok, reconcile_two-ok}
use wallet_app.Repository.Invariant.{
  IsValid, OnlyTouches, complete_rows-none, settle_one-IsValid, settle_two-IsValid,
}

-- The pending row under this id, if there is one, is between these accounts.
abbrev pub IsBetween : String → String → String → List TransactionRow → Type 0
IsBetween id from to rows =
    All (λ r. is_pending_row id r ≡ true → (r.from_account ≡ from) × (r.to_account ≡ to)) rows

only_between :
    (id from to : String) (rows : List TransactionRow)
    → IsBetween id from to rows
    → OnlyTouches (λ a. ((a == from) ≡ false) × ((a == to) ≡ false)) id rows
only_between id from to rows h account other =
    All-map
      (λ r between pending. ground (
        arith,
        between pending,
        eq_iff r.from_account account,
        eq_iff account from,
        eq_iff account to,
        eq_iff r.to_account account,
      ))
      rows h

only_swapped :
    (first second id : String) (rows : List TransactionRow)
    → OnlyTouches (λ a. ((a == second) ≡ false) × ((a == first) ≡ false)) id rows
    → OnlyTouches (λ a. ((a == first) ≡ false) × ((a == second) ≡ false)) id rows
only_swapped first second id rows h account (a, b) = h account (b, a)

only_one :
    (account id : String) (rows : List TransactionRow)
    → IsBetween id account account rows
    → OnlyTouches (λ a. (a == account) ≡ false) id rows
only_one account id rows h other e = only_between id account account rows h other (e, e)

-- A transaction whose body keeps the invariant keeps it, for a failed one leaves the database.
pub transact-IsValid :
    {A : Type 0} (fails : Faults) (body : Tx A) (db : Db)
    → IsValid db
    → ((a : A) (db' : Db) → body db ≡ ok (a, db') → IsValid db')
    → IsValid (transact fails body db).1
transact-IsValid fails body db valid keep = elim (transact-cases fails body db) [
  | inl (e, failed) ↦ rw failed valid
  | inr (a, db', ran, done) ↦ rw done (keep a db' ran)
]

complete_then-IsValid :
    (now : ℕ) (fails : Faults) (id : String) (reconcile : Tx (Unit {0})) (db : Db)
    → IsValid db
    → ((db' : Db) → reconcile (complete_rows now id db) ≡ ok (tt, db') → IsValid db')
    → IsValid (transact fails (complete_then now fails id reconcile) db).1
complete_then-IsValid now fails id reconcile db valid keep =
    transact-IsValid fails (complete_then now fails id reconcile) db valid λ m db' ran.
      elim ((complete_then-ok now fails id reconcile db ran).1) [
        | inl (other, same) ↦ rw (same, complete_rows-none now id db valid other) valid
        | inr (one, reconciled) ↦ keep db' reconciled
      ]

single-IsValid :
    (now : ℕ) (fails : Faults) (id account : String) (e : Error) (db : Db)
    → IsValid db
    → IsBetween id account account db.transactions
    → IsValid (transact fails (complete_then now fails id (reconcile_one now fails account e)) db).1
single-IsValid now fails id account e db valid between =
    complete_then-IsValid now fails id (reconcile_one now fails account e) db valid λ db' ran.
      let (stored, funded) = reconcile_one-ok now fails account e (complete_rows now id db) ran in
      rw stored (
        settle_one-IsValid now id db valid account (only_one account id db.transactions between)
          funded)

-- A deposit keeps the invariant: the pending row under its id, if any, is on its account.
pub deposit_funds-IsValid :
    (now : ℕ) (fails : Faults) (id account currency : String) (amount : ℤ) (db : Db)
    → IsValid db
    → IsBetween id account account db.transactions
    → IsValid (deposit_funds now fails id account currency amount db).1
unfolding deposit_funds
deposit_funds-IsValid now fails id account currency amount db valid between =
    single-IsValid now fails id account account_not_found db valid between

-- So does a withdrawal.
pub withdraw_funds-IsValid :
    (now : ℕ) (fails : Faults) (id account : String) (amount : ℤ) (db : Db)
    → IsValid db
    → IsBetween id account account db.transactions
    → IsValid (withdraw_funds now fails id account amount db).1
unfolding withdraw_funds
withdraw_funds-IsValid now fails id account amount db valid between =
    single-IsValid now fails id account insufficient_balance db valid between

pub two-IsValid :
    (now : ℕ) (fails : Faults) (id first second : String) (db : Db)
    → IsValid db
    → OnlyTouches (λ a. ((a == first) ≡ false) × ((a == second) ≡ false)) id db.transactions
    → IsValid
        (transact fails (complete_then now fails id (reconcile_two now fails first second)) db).1
two-IsValid now fails id first second db valid only =
    complete_then-IsValid now fails id (reconcile_two now fails first second) db valid λ db' ran.
      let (stored, funded, funded') =
        reconcile_two-ok now fails first second (complete_rows now id db) ran in
      rw stored (settle_two-IsValid now id db valid first second only funded funded')

pub lock_order-cases :
    (from to : String) → (lock_order from to ≡ (from, to)) ⊎ (lock_order from to ≡ (to, from))
unfolding lock_order
lock_order-cases from to = elim (Bool-cases (ltb_text to from)) [
  | inl e ↦ inr (rw e)
  | inr e ↦ inl (rw e)
]

-- So does a transfer, in whichever order the two accounts are locked and reconciled.
pub transfer_funds-IsValid :
    (now : ℕ) (fails : Faults) (id from to currency : String) (amount : ℤ) (db : Db)
    → IsValid db
    → IsBetween id from to db.transactions
    → IsValid (transfer_funds now fails id from to currency amount db).1
unfolding transfer_funds
transfer_funds-IsValid now fails id from to currency amount db valid between =
    let only = only_between id from to db.transactions between in
    elim (Bool-cases (leb_ℤ amount (pos 0))) [
      | inl refused ↦ rw refused valid
      | inr positive ↦ rw positive (elim (lock_order-cases from to) [
        | inl e ↦ rw e (two-IsValid now fails id from to db valid only)
        | inr e ↦ rw e (
            two-IsValid now fails id to from db valid
              (only_swapped to from id db.transactions only))
      ])
    ]
