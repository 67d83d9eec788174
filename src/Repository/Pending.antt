-- ===== src/Repository/Pending.antt =====
-- `CreatePendingTransaction` and the status update of the wallet repository.
use wallet_app.Base.{
  ℕ, ◌+◌, ◌≤◌, ◌≡◌, refl, ◌⊎◌, ◌≢◌, inl, inr, String, true, false, ◌==◌, eq_iff, ◌++◌, [], ◌∷◌,
  List, arith, ℤ, Bool-cases, All, All-append, All-map, All-update, count_where, count_where-append,
  count_where-update, update_where, ap, sym, ◌∙◌, if◌then◌else◌,
}
use wallet_app.Models.{TransactionRow, TransactionType, TransactionStatus, is_completed}
use wallet_app.Errors.{ok}
use wallet_app.Store.{Db, Faults, >>=-ok}
use wallet_app.Ledger.{ledger_balance, counts_for, signed_amount}
use wallet_app.Repository.{
  has_transaction_id, row_allowed, insert_pending, lock_both, lock_order, pending_row, create_body,
  create_pending_transaction, set_status, status_body, write_status,
}
use wallet_app.Repository.Invariant.{IsValid}
use wallet_app.Repository.Keeps.{transact-IsValid}

abbrev pub append_row : TransactionRow → Db → Db
append_row r db = record db { transactions = db.transactions ++ r ∷ [] }

lock_both-ok :
    (fails : Faults) (from to : String) (db : Db) {db' : Db}
    → lock_both fails from to db ≡ ok (tt, db')
    → db' ≡ db
unfolding lock_both lock_order
lock_both-ok fails from to db h = ground arith

-- The insert leaves a table that has the id as it is, and appends an allowed row to one that has not.
pub insert_pending-ok :
    (r : TransactionRow) (db : Db) {db' : Db}
    → insert_pending r db ≡ ok (tt, db')
    → (row_allowed r ≡ true)
      × (((count_where (has_transaction_id r.id) db.transactions ≢ 0) × (db' ≡ db))
          ⊎ ((count_where (has_transaction_id r.id) db.transactions ≡ 0) × (db' ≡ append_row r db)))
unfolding insert_pending
insert_pending-ok r db h = ground arith

pub ledger_balance-append :
    (account : String) (rows : List TransactionRow) (r : TransactionRow)
    → counts_for account r ≡ false
    → ledger_balance account (rows ++ r ∷ []) ≡ ledger_balance account rows
unfolding ledger_balance
ledger_balance-append account [] r h = ground arith
ledger_balance-append account (x ∷ rows) r h =
    ground (arith, ledger_balance-append account rows r h)

pub count_id-append :
    (id : String) (r : TransactionRow) (rows : List TransactionRow)
    → count_where (has_transaction_id id) (rows ++ r ∷ [])
      ≡ count_where (has_transaction_id id) rows + (if r.id == id then 1 else 0)
unfolding count_where
count_id-append id r rows = count_where-append (has_transaction_id id) rows (r ∷ []) ∙ ground arith

append_row-one :
    (id : String) (r : TransactionRow) (db : Db)
    → count_where (has_transaction_id id) db.transactions ≤ 1
    → count_where (has_transaction_id r.id) db.transactions ≡ 0
    → count_where (has_transaction_id id) (append_row r db).transactions ≤ 1
append_row-one id r db one fresh =
    rw (count_id-append id r db.transactions) (elim (Bool-cases (r.id == id)) [
      | inl e ↦ rw e (
          omega (
            arith,
            ap (λ i. count_where (has_transaction_id i) db.transactions) ((eq_iff r.id id).0 e),
          ))
      | inr e ↦ rw e (omega arith)
    ])

append_row-IsValid :
    (r : TransactionRow) (db : Db)
    → IsValid db
    → row_allowed r ≡ true
    → r.status ≡ TransactionStatus.pending
    → count_where (has_transaction_id r.id) db.transactions ≡ 0
    → IsValid (append_row r db)
unfolding counts_for
append_row-IsValid r db valid allowed is_new fresh = record {
  one_transaction = λ other. append_row-one other r db (valid.one_transaction other) fresh;
  one_account = valid.one_account;
  rows_allowed = All-append _ db.transactions (r ∷ []) valid.rows_allowed (allowed, tt);
  reconciled =
      All-map (λ a h. h ∙ sym (ledger_balance-append a.id db.transactions r (ground arith)))
        db.accounts valid.reconciled;
  nonneg = valid.nonneg;
}

pub create_body-ok :
    (fails : Faults) (r : TransactionRow) (db : Db) {db' : Db}
    → create_body fails r db ≡ ok (tt, db')
    → insert_pending r db ≡ ok (tt, db')
unfolding create_body
create_body-ok fails r db h =
    let (_, locked, held, rest) = >>=-ok (lock_both fails r.from_account r.to_account) _ db h in
    ground (arith, lock_both-ok fails r.from_account r.to_account db held)

insert_pending-IsValid :
    (r : TransactionRow) (db : Db) {db' : Db}
    → IsValid db
    → r.status ≡ TransactionStatus.pending
    → insert_pending r db ≡ ok (tt, db')
    → IsValid db'
insert_pending-IsValid r db valid is_new ran =
    let (allowed, outcome) = insert_pending-ok r db ran in
    elim outcome [
      | inl (taken, same) ↦ rw same valid
      | inr (fresh, appended) ↦ rw appended (append_row-IsValid r db valid allowed is_new fresh)
    ]

-- Creating the pending row keeps the invariant: it inserts an allowed row that no balance counts, or
-- nothing.
pub create_pending_transaction-IsValid :
    (now : ℕ) (fails : Faults) (id : String) (kind : TransactionType) (from to currency : String)
    (amount : ℤ) (db : Db)
    → IsValid db
    → IsValid (create_pending_transaction now fails id kind from to currency amount db).1
unfolding create_pending_transaction pending_row
create_pending_transaction-IsValid now fails id kind from to currency amount db valid =
    let r = pending_row now id kind from to currency amount in
    transact-IsValid fails (create_body fails r) db valid
      λ _ db' ran. insert_pending-IsValid r db valid refl (create_body-ok fails r db ran)

-- The status of a row may be overwritten without harm to the ledger where completed rows stay
-- completed and no other row becomes so.
abbrev pub KeepsCompleted : String → TransactionStatus → List TransactionRow → Type 0
KeepsCompleted id status rows =
    All (λ r. has_transaction_id id r ≡ true → is_completed r.status ≡ is_completed status) rows

pub ledger_balance-set_status :
    (now : ℕ) (id account : String) (status : TransactionStatus) (rows : List TransactionRow)
    → KeepsCompleted id status rows
    → ledger_balance account (update_where (has_transaction_id id) (set_status now status) rows)
      ≡ ledger_balance account rows
unfolding ledger_balance update_where counts_for signed_amount
ledger_balance-set_status now id account status [] h = refl
ledger_balance-set_status now id account status (r ∷ rows) h =
    ground (arith, h.0, ledger_balance-set_status now id account status rows h.1)

abbrev pub status_rows : ℕ → String → TransactionStatus → Db → Db
status_rows now id status db = record db {
  transactions = update_where (has_transaction_id id) (set_status now status) db.transactions;
}

pub status_body-ok :
    (now : ℕ) (fails : Faults) (id : String) (status : TransactionStatus) (db : Db) {db' : Db}
    → status_body now fails id status db ≡ ok (tt, db')
    → (count_where (has_transaction_id id) db.transactions ≡ 1)
      × (db' ≡ status_rows now id status db)
unfolding status_body
status_body-ok now fails id status db h = ground arith

status_rows-IsValid :
    (now : ℕ) (id : String) (status : TransactionStatus) (db : Db)
    → IsValid db
    → KeepsCompleted id status db.transactions
    → IsValid (status_rows now id status db)
unfolding row_allowed
status_rows-IsValid now id status db valid keeps = record {
  one_transaction = λ other.
      rw
        (count_where-update (has_transaction_id id) (has_transaction_id other)
          (set_status now status) (λ r e. refl) db.transactions)
        (valid.one_transaction other);
  one_account = valid.one_account;
  rows_allowed =
      All-update (has_transaction_id id) (set_status now status) (λ r h _. h) (λ r h _. h)
        db.transactions valid.rows_allowed;
  reconciled =
      All-map (λ a h. h ∙ sym (ledger_balance-set_status now id a.id status db.transactions keeps))
        db.accounts valid.reconciled;
  nonneg = valid.nonneg;
}

-- Writing a status keeps the invariant where it neither completes a row nor undoes a completion.
pub write_status-IsValid :
    (now : ℕ) (fails : Faults) (id : String) (status : TransactionStatus) (db : Db)
    → IsValid db
    → KeepsCompleted id status db.transactions
    → IsValid (write_status now fails id status db).1
unfolding write_status
write_status-IsValid now fails id status db valid keeps =
    transact-IsValid fails (status_body now fails id status) db valid λ _ db' ran.
      rw (status_body-ok now fails id status db ran).1
        (status_rows-IsValid now id status db valid keeps)
