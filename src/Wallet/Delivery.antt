-- ===== src/Wallet/Delivery.antt =====
-- The first delivery of a transaction: from the pending row to the final status.
use wallet_app.Base.{
  ℕ, ◌≡◌, refl, ◌⊎◌, inl, inr, String, true, List, [], ◌∷◌, arith, ℤ, count_where, update_where,
  All, All-append, All-map, All-update, ap, ◌∙◌, count_where-le, count_where-append,
}
use text.Mathlib.TextPositions.{eq_refl}
use wallet_app.Models.{
  TransactionModel, TransactionRow, TransactionStatus, TransactionType, is_completed,
}
use wallet_app.Errors.{Error, Result, ok, err}
use wallet_app.Store.{Db, Faults, Result-cases, transact-cases}
use wallet_app.Ledger.{is_pending_row, set_completed, complete_rows}
use wallet_app.Repository.{
  has_transaction_id, pending_row, create_body, create_pending_transaction, write_status,
}
use wallet_app.Repository.Invariant.{IsValid}
use wallet_app.Repository.Keeps.{IsBetween}
use wallet_app.Repository.Pending.{
  KeepsCompleted, write_status-IsValid, insert_pending-ok, create_body-ok, append_row,
}
use wallet_app.Wallet.{World, Env, update_transaction_status, release_after, conclude, settle_funds}

-- Nothing under this id has been stored yet.
abbrev pub IsFresh : String → Db → Type 0
IsFresh id db = count_where (has_transaction_id id) db.transactions ≡ 0

-- Every row under this id is pending and between these accounts.
abbrev pub IsNew : String → String → String → List TransactionRow → Type 0
IsNew id from to rows =
    All
      (λ r.
        has_transaction_id id r ≡ true
        → (r.status ≡ TransactionStatus.pending) × (r.from_account ≡ from) × (r.to_account ≡ to))
      rows

new-IsBetween :
    (id from to : String) (rows : List TransactionRow)
    → IsNew id from to rows
    → IsBetween id from to rows
new-IsBetween id from to rows new =
    All-map (λ r h pending. ground (arith, h (ground arith))) rows new

pub new-failed :
    (id from to : String) (rows : List TransactionRow)
    → IsNew id from to rows
    → KeepsCompleted id TransactionStatus.failed rows
new-failed id from to rows new = All-map (λ r h e. ap is_completed (h e).0) rows new

pub new-completed :
    (now : ℕ) (id from to : String) (rows : List TransactionRow)
    → IsNew id from to rows
    → KeepsCompleted id TransactionStatus.completed
        (update_where (is_pending_row id) (set_completed now) rows)
new-completed now id from to rows new =
    All-update (is_pending_row id) (set_completed now) (λ r h e _. refl)
      (λ r h other e. ground (arith, h e)) rows new

-- The status update changes the database as `write_status` does.
pub db-update_transaction_status :
    (env : Env) (id user account : String) (status : TransactionStatus) (w : World)
    → (update_transaction_status env id user account status w).1.db
      ≡ (write_status env.now env.status id status w.db).1
unfolding update_transaction_status
db-update_transaction_status env id user account status w =
    elim (Result-cases (write_status env.now env.status id status w.db).0) [
      | inl (u, e) ↦ rw (e, release_after)
      | inr (x, e) ↦ rw (e, release_after)
    ]

pub conclude-IsValid :
    (env : Env) (id user account : String) (r : Result TransactionModel) (w : World)
    → IsValid w.db
    → KeepsCompleted id
        (elim r [ ok _ ↦ TransactionStatus.completed | err _ ↦ TransactionStatus.failed ])
        w.db.transactions
    → IsValid (conclude env id user account r w).1.db
unfolding conclude
conclude-IsValid env id user account (ok t) w valid keeps =
    rw db-update_transaction_status (write_status-IsValid env.now env.status id _ w.db valid keeps)
conclude-IsValid env id user account (err e) w valid keeps =
    rw db-update_transaction_status (write_status-IsValid env.now env.status id _ w.db valid keeps)

-- A way to move funds that a handler may use: it completes the pending row or changes nothing.
pub record IsFunding (now : ℕ) (id from to : String) (funds : Db → Result TransactionModel × Db)
    : Type 0 where
  pub keeps : (db : Db) → IsValid db → IsBetween id from to db.transactions → IsValid (funds db).1
  pub atomic :
      (db : Db)
      → ((t : TransactionModel) × ((funds db).0 ≡ ok t)) ⊎ ((e : Error) × (funds db ≡ (err e, db)))
  pub rows :
      (db : Db) (t : TransactionModel)
      → count_where (is_pending_row id) db.transactions ≡ 1
      → (funds db).0 ≡ ok t
      → (funds db).1.transactions ≡ (complete_rows now id db).transactions

settle_funds-IsValid :
    (env : Env) (id user account from to : String) (funds : Db → Result TransactionModel × Db)
    (w : World)
    → IsFunding env.now id from to funds
    → IsValid w.db
    → IsNew id from to w.db.transactions
    → count_where (is_pending_row id) w.db.transactions ≡ 1
    → IsValid (settle_funds env id user account funds w).1.db
unfolding settle_funds
settle_funds-IsValid env id user account from to funds w funding valid new one =
    let valid' = funding.keeps w.db valid (new-IsBetween id from to w.db.transactions new) in
    elim (funding.atomic w.db) [
      | inl (t, done) ↦
          conclude-IsValid env id user account (funds w.db).0 (record w { db = (funds w.db).1 })
            valid'
            (rw (done, funding.rows w.db t one done)
              (new-completed env.now id from to w.db.transactions new))
      | inr (e, failed) ↦ rw failed (
          conclude-IsValid env id user account (err e) w valid
            (new-failed id from to w.db.transactions new))
    ]

-- Creating a pending row that passes fails and changes nothing, or appends the new row.
pub create-outcome :
    (now : ℕ) (fails : Faults) (id : String) (kind : TransactionType) (from to currency : String)
    (amount : ℤ) (db : Db)
    → IsFresh id db
    → ((e : Error) × (create_pending_transaction now fails id kind from to currency amount db
          ≡ (err e, db)))
      ⊎ (create_pending_transaction now fails id kind from to currency amount db
          ≡ (ok tt, append_row (pending_row now id kind from to currency amount) db))
unfolding create_pending_transaction pending_row
create-outcome now fails id kind from to currency amount db fresh =
    let r = pending_row now id kind from to currency amount in
    elim (transact-cases fails (create_body fails r) db) [
      | inl failed ↦ inl failed
      | inr (_, db', ran, done) ↦
          elim ((insert_pending-ok r db (create_body-ok fails r db ran)).1) [
            | inl (taken, _) ↦ absurd (taken fresh)
            | inr (_, appended) ↦ inr (rw done (rw appended))
          ]
    ]

none-IsNew :
    (id from to : String) (rows : List TransactionRow)
    → count_where (has_transaction_id id) rows ≡ 0
    → IsNew id from to rows
unfolding count_where
none-IsNew id from to [] h = tt
none-IsNew id from to (r ∷ rows) h =
    (λ e. absurd (ground arith), none-IsNew id from to rows (ground arith))

module _ (now : ℕ) (id : String) (kind : TransactionType) (from to currency : String) (amount : ℤ)
    (db : Db) (fresh : IsFresh id db) where
  pub appended-IsNew :
      IsNew id from to
        (append_row (pending_row now id kind from to currency amount) db).transactions
  unfolding pending_row
  appended-IsNew =
      All-append _ db.transactions _ (none-IsNew id from to db.transactions fresh)
        (λ _. (refl, refl, refl), tt)

  pub appended_one :
      count_where
        (is_pending_row id)
        (append_row (pending_row now id kind from to currency amount) db).transactions
      ≡ 1
  unfolding pending_row count_where
  appended_one =
      count_where-append (is_pending_row id) db.transactions _
      ∙ ground (
        arith,
        eq_refl id,
        count_where-le (is_pending_row id) (has_transaction_id id) (λ r e. ground arith)
            db.transactions,
      )

-- A created row, and what a handler does after it.
pub created-IsValid :
    (env : Env) (id user account : String) (kind : TransactionType) (from to currency : String)
    (amount : ℤ) (funds : Db → Result TransactionModel × Db) (w : World)
    → IsFunding env.now id from to funds
    → IsValid w.db
    → IsFresh id w.db
    → IsValid (append_row (pending_row env.now id kind from to currency amount) w.db)
    → IsValid
        (settle_funds env id user account funds (record w {
          db = append_row (pending_row env.now id kind from to currency amount) w.db;
        })).1.db
created-IsValid env id user account kind from to currency amount funds w funding valid fresh
      valid' =
    settle_funds-IsValid env id user account from to funds _ funding valid'
      (appended-IsNew env.now id kind from to currency amount w.db fresh)
      (appended_one env.now id kind from to currency amount w.db fresh)
