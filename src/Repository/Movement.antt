-- ===== src/Repository/Movement.antt =====
-- How much money a completed transaction moves, when it is refused, and when it goes through.
use wallet_app.Base.{
  ℕ, ◌≡◌, ◌⊎◌, inl, inr, String, true, ◌==◌, eq_iff, some, arith, ℤ, pos, neg, ◌+ℤ◌, ◌≤ℤ◌, ◌<ℤ◌,
  leb_ℤ, int_laws, count_where, find_where, find_where-holds, All-find, Bool-cases, if◌then◌else◌,
  ap, sym, ◌∙◌,
}
use mathlib.Core.Path.{subst}
use wallet_app.Models.{AccountModel, TransactionRow, TransactionModel, transfer}
use wallet_app.Errors.{Error, ok, err, amount_not_positive}
use wallet_app.Store.{Db, Faults, Tx, transact, transact-cases}
use wallet_app.Ledger.{ledger_balance, has_id, is_pending_row, complete_rows, signed_amount}
use wallet_app.Ledger.Balance.{effect, ledger_balance_complete}
use wallet_app.Repository.{row_allowed, reconcile_one, reconcile_two, complete_then, transfer_funds}
use wallet_app.Repository.Inversion.{IsFunded, complete_then-ok, reconcile_one-ok, reconcile_two-ok}
use wallet_app.Repository.Invariant.{IsValid, IsReconciled}
use wallet_app.Repository.Keeps.{IsBetween, lock_order-cases, transfer_funds-IsValid}

-- In a valid database the stored balance of an account is the ledger's.
pub balance-eq-ledger :
    (account : String) (db : Db) {a : AccountModel}
    → IsValid db
    → find_where (has_id account) db.accounts ≡ some a
    → a.balance ≡ ledger_balance account db.transactions
balance-eq-ledger account db {a} valid found =
    All-find (IsReconciled db.transactions) (has_id account) db.accounts valid.reconciled found
    ∙ ap (λ i. ledger_balance i db.transactions)
        ((eq_iff a.id account).0 (find_where-holds (has_id account) db.accounts found))

-- The effect of a transfer row on each account.
pub effect-transfer :
    (account : String) (r : TransactionRow)
    → r.transaction_type ≡ transfer
    → effect account r ≡ (
        if r.to_account == account
        then r.amount
        else if r.from_account == account
        then neg r.amount
        else pos 0)
unfolding signed_amount
effect-transfer account r kind = ground arith

module _ (now : ℕ) (id : String) (db : Db) (valid : IsValid db) {r : TransactionRow}
    (one : count_where (is_pending_row id) db.transactions ≡ 1)
    (found : find_where (is_pending_row id) db.transactions ≡ some r) where
  -- The ledger after the pending row is completed, from the balance that is stored before.
  pub completed-ledger :
      (account : String) {a : AccountModel}
      → find_where (has_id account) db.accounts ≡ some a
      → ledger_balance account (complete_rows now id db).transactions
        ≡ a.balance +ℤ effect account r
  completed-ledger account known =
      ledger_balance_complete now id account db.transactions one found
      ∙ ap (λ b. b +ℤ effect account r) (sym (balance-eq-ledger account db valid known))

  -- A valid database in which just that row was completed.
  pub completed-balance :
      (account : String) (db' : Db) {a a' : AccountModel}
      → IsValid db'
      → db'.transactions ≡ (complete_rows now id db).transactions
      → find_where (has_id account) db.accounts ≡ some a
      → find_where (has_id account) db'.accounts ≡ some a'
      → a'.balance ≡ a.balance +ℤ effect account r
  completed-balance account db' valid' same known known' =
      balance-eq-ledger account db' valid' known'
      ∙ ap (ledger_balance account) same
      ∙ completed-ledger account known

-- The two accounts of a transfer body, whatever the order: what it leaves and what it requires.
module _ (now : ℕ) (fails : Faults) (id : String) (db : Db) where
  pub two-outcome :
      (first second : String) {t : TransactionModel}
      → count_where (is_pending_row id) db.transactions ≡ 1
      → (transact fails (complete_then now fails id (reconcile_two now fails first second)) db).0
        ≡ ok t
      → ((transact fails
            (complete_then now fails id (reconcile_two now fails first second))
            db).1.transactions
          ≡ (complete_rows now id db).transactions)
        × IsFunded first (complete_rows now id db)
        × IsFunded second (complete_rows now id db)
  two-outcome first second one h =
      elim (transact-cases fails (complete_then now fails id (reconcile_two now fails first second))
        db) [
          | inl (e, failed) ↦ absurd (cc (ap (λ p. p.0) failed))
          | inr (a, db', ran, done) ↦ elim ((complete_then-ok now fails id _ db ran).1) [
            | inl (other, _) ↦ absurd (other one)
            | inr (_, reconciled) ↦
                let (stored, funded, funded') =
                  reconcile_two-ok now fails first second (complete_rows now id db) reconciled in
                (rw done (rw stored), funded, funded')
          ]
        ]

  pub one-outcome :
      (account : String) (e : Error) {t : TransactionModel}
      → count_where (is_pending_row id) db.transactions ≡ 1
      → (transact fails (complete_then now fails id (reconcile_one now fails account e)) db).0
        ≡ ok t
      → ((transact fails
            (complete_then now fails id (reconcile_one now fails account e))
            db).1.transactions
          ≡ (complete_rows now id db).transactions)
        × IsFunded account (complete_rows now id db)
  one-outcome account e one h =
      elim (transact-cases fails (complete_then now fails id (reconcile_one now fails account e))
        db) [
          | inl (_, failed) ↦ absurd (cc (ap (λ p. p.0) failed))
          | inr (a, db', ran, done) ↦ elim ((complete_then-ok now fails id _ db ran).1) [
            | inl (other, _) ↦ absurd (other one)
            | inr (_, reconciled) ↦
                let (stored, funded) =
                  reconcile_one-ok now fails account e (complete_rows now id db) reconciled in
                (rw done (rw stored), funded)
          ]
        ]

  pub transfer-outcome :
      (from to currency : String) (amount : ℤ) {t : TransactionModel}
      → count_where (is_pending_row id) db.transactions ≡ 1
      → (transfer_funds now fails id from to currency amount db).0 ≡ ok t
      → ((transfer_funds now fails id from to currency amount db).1.transactions
          ≡ (complete_rows now id db).transactions)
        × IsFunded from (complete_rows now id db)
        × IsFunded to (complete_rows now id db)
  unfolding transfer_funds
  transfer-outcome from to currency amount {t} one = elim (Bool-cases (leb_ℤ amount (pos 0))) [
    | inl refused ↦ rw refused (λ h. absurd (cc h))
    | inr positive ↦ rw positive (elim (lock_order-cases from to) [
      | inl e ↦ rw e (two-outcome from to one)
      | inr e ↦
          rw e
            λ h. let (same, funded, funded') = two-outcome to from one h in (same, funded', funded)
    ])
  ]

-- A transfer that succeeds on its one pending row takes the row's amount from the source account,
-- adds it to the destination account, and leaves every other balance as it was.
pub transfer_moves_funds :
    (now : ℕ) (fails : Faults) (id from to currency account : String) (amount : ℤ) (db : Db)
    {r : TransactionRow} {t : TransactionModel} {a a' : AccountModel}
    → IsValid db
    → IsBetween id from to db.transactions
    → count_where (is_pending_row id) db.transactions ≡ 1
    → find_where (is_pending_row id) db.transactions ≡ some r
    → r.transaction_type ≡ transfer
    → (transfer_funds now fails id from to currency amount db).0 ≡ ok t
    → find_where (has_id account) db.accounts ≡ some a
    → find_where
        (has_id account)
        (transfer_funds now fails id from to currency amount db).1.accounts
      ≡ some a'
    → a'.balance
      ≡ a.balance
        +ℤ (if to == account then r.amount else if from == account then neg r.amount else pos 0)
transfer_moves_funds now fails id from to currency account amount db {r} {a = a} valid between one
      found kind done known known' =
    let valid' = transfer_funds-IsValid now fails id from to currency amount db valid between in
    let outcome = transfer-outcome now fails id db from to currency amount one done in
    let ends =
      All-find _ (is_pending_row id) db.transactions between found
        (find_where-holds (is_pending_row id) db.transactions found) in
    completed-balance now id db valid one found account
      (transfer_funds now fails id from to currency amount db).1 valid' outcome.0 known known'
    ∙ ap (λ x. a.balance +ℤ x) (effect-transfer account r kind ∙ rw (ends.0, ends.1))

-- Every method returns a row, or an error and the database as it was.
pub transact_atomic :
    {A : Type 0} (fails : Faults) (body : Tx A) (db : Db)
    → ((a : A) × ((transact fails body db).0 ≡ ok a))
      ⊎ ((e : Error) × (transact fails body db ≡ (err e, db)))
transact_atomic fails body db = elim (transact-cases fails body db) [
  | inl failed ↦ inr failed
  | inr (a, db', ran, done) ↦ inl (a, ap (λ p. p.0) done)
]

pub transfer_funds-atomic :
    (now : ℕ) (fails : Faults) (id from to currency : String) (amount : ℤ) (db : Db)
    → ((t : TransactionModel) × ((transfer_funds now fails id from to currency amount db).0 ≡ ok t))
      ⊎ ((e : Error) × (transfer_funds now fails id from to currency amount db ≡ (err e, db)))
unfolding transfer_funds
transfer_funds-atomic now fails id from to currency amount db =
    elim (Bool-cases (leb_ℤ amount (pos 0))) [
      | inl refused ↦ inr (amount_not_positive, rw refused)
      | inr positive ↦ rw positive (transact_atomic fails _ db)
    ]

source_sign :
    (from : String) (r : TransactionRow)
    → row_allowed r ≡ true
    → r.transaction_type ≡ transfer
    → r.from_account ≡ from
    → (if r.to_account == from
        then r.amount
        else if r.from_account == from
        then neg r.amount
        else pos 0)
      ≡ neg r.amount
unfolding row_allowed
source_sign from r allowed kind e = ground (
  arith,
  eq_iff r.to_account from,
  eq_iff r.from_account from,
  eq_iff r.from_account r.to_account,
)

-- What completing a transfer would leave its source with.
pub source_after :
    (now : ℕ) (id from to : String) (db : Db) {r : TransactionRow} {a : AccountModel}
    → IsValid db
    → IsBetween id from to db.transactions
    → count_where (is_pending_row id) db.transactions ≡ 1
    → find_where (is_pending_row id) db.transactions ≡ some r
    → r.transaction_type ≡ transfer
    → find_where (has_id from) db.accounts ≡ some a
    → ledger_balance from (complete_rows now id db).transactions ≡ a.balance +ℤ neg r.amount
source_after now id from to db {r} {a} valid between one found kind known =
    let ends =
      All-find _ (is_pending_row id) db.transactions between found
        (find_where-holds (is_pending_row id) db.transactions found) in
    let allowed = All-find _ (is_pending_row id) db.transactions valid.rows_allowed found in
    completed-ledger now id db valid one found from known
    ∙ ap (λ x. a.balance +ℤ x)
        (effect-transfer from r kind ∙ source_sign from r allowed kind ends.0)

-- In a valid database, a transfer whose one pending row is of more than the source account holds is
-- refused with an error, and the database is unchanged.
pub transfer_overdraft :
    (now : ℕ) (fails : Faults) (id from to currency : String) (amount : ℤ) (db : Db)
    {r : TransactionRow} {a : AccountModel}
    → IsValid db
    → IsBetween id from to db.transactions
    → count_where (is_pending_row id) db.transactions ≡ 1
    → find_where (is_pending_row id) db.transactions ≡ some r
    → r.transaction_type ≡ transfer
    → find_where (has_id from) db.accounts ≡ some a
    → a.balance <ℤ r.amount
    → (e : Error) × (transfer_funds now fails id from to currency amount db ≡ (err e, db))
transfer_overdraft now fails id from to currency amount db {r} {a} valid between one found kind
      known short =
    elim (transfer_funds-atomic now fails id from to currency amount db) [
      | inr failed ↦ failed
      | inl (t, done) ↦
          let (_, funded, _) = transfer-outcome now fails id db from to currency amount one done in
          absurd (
            omega (
              int_laws,
              subst (λ x. pos 0 ≤ℤ x)
                  (source_after now id from to db valid between one found kind known) funded.0,
            ))
    ]
