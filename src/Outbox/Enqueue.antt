-- ===== src/Outbox/Enqueue.antt =====
-- Enqueuing a request: the lock of the account and the outbox row.
use wallet_app.Base.{
  ℕ, ◌≡◌, ◌⊎◌, inl, inr, String, true, false, eq_iff, [], ◌∷◌, ◌++◌, ◌==◌, arith, eqb, count_where,
  count_where-zero_iff, All, All-map, Bool, not, ◌&&◌, ◌↔◌, ◌≢◌, refl, Bool-cases,
}
use text.Mathlib.TextPositions.{eq_refl}
use wallet_app.Models.{OutboxModel, TransactionRow, TransactionStatus}
use wallet_app.Ledger.{is_pending_row}
use wallet_app.Errors.{Error, Result, ok, err, db_error, transaction_in_progress, unique_violation}
use wallet_app.Store.{Db, Faults, Call, autocommit, insert_row, select_rows}
use wallet_app.Cache.{
  Cache, CacheFaults, idempotency_key, set_nx, del, transaction_idempotency_check,
  transaction_idempotency_release,
}
use wallet_app.Cache.Locks.{is_held}
use wallet_app.Wallet.{World, lock_id}
use wallet_app.Outbox.{
  OutboxInsertConfig, outbox_insert, outbox_row, refused, insert_outbox, release_unless_inserted,
  outbox_idempotency_check, in_progress, has_aggregate_id,
}

-- What a request leaves: one more pending row and the lock taken, or an error, the database as it
-- was, and every lock as it was.
abbrev pub IsEnqueued : ℕ → String → OutboxInsertConfig → World → Result (Unit {0}) → World → Type 0
IsEnqueued now id config w r w' =
    let key = lock_id config.user_id config.partition_key in
    ((r ≡ ok tt)
      × (is_held now key w.cache ≡ false)
      × (is_held now key w'.cache ≡ true)
      × (w'.db ≡ record w.db { outbox = w.db.outbox ++ outbox_row now id key config ∷ [] }))
    ⊎ ((e : Error) × (r ≡ err e)
        × (w'.db ≡ w.db)
        × ((other : String) → is_held now other w'.cache ≡ is_held now other w.cache))

-- A lock that was free is so again when it is taken and released.
relocked :
    (now : ℕ) (fails : CacheFaults) (key other : String) (c : Cache)
    → fails (set_nx (idempotency_key key)) ≡ false
    → fails (del (idempotency_key key)) ≡ false
    → is_held now key c ≡ false
    → is_held now other
        (transaction_idempotency_release fails key
          (transaction_idempotency_check now fails key c).1).1
      ≡ is_held now other c
unfolding transaction_idempotency_check transaction_idempotency_release
relocked now fails key other c set_ok del_ok free = elim (Bool-cases (key == other)) [
  | inl same ↦ let e : key ≡ other = (eq_iff key other).0 same in ground (arith, e)
  | inr apart ↦ ground arith
]

-- Where the cache answers, a request either is enqueued, its lock having been free and being held
-- now, or fails and leaves the database and every lock as they were.
pub outbox_insert-IsEnqueued :
    (now : ℕ) (fails : Faults) (cache_fails : CacheFaults) (id : String)
    (config : OutboxInsertConfig) (w : World)
    → let key = lock_id config.user_id config.partition_key in
      cache_fails (set_nx (idempotency_key key)) ≡ false
      → cache_fails (del (idempotency_key key)) ≡ false
      → let (r, w') = outbox_insert now fails cache_fails id config w in
        IsEnqueued now id config w r w'
unfolding outbox_insert refused transaction_idempotency_check insert_outbox autocommit
    release_unless_inserted transaction_idempotency_release
outbox_insert-IsEnqueued now fails cache_fails id config w set_ok del_ok =
    let key = lock_id config.user_id config.partition_key in
    elim (Bool-cases (is_held now key w.cache)) [
      | inl held ↦ inr (transaction_in_progress, ground arith, ground arith, λ other. ground arith)
      | inr free ↦
          let kept : (other : String) → _ =
            λ other. relocked now cache_fails key other w.cache set_ok del_ok free in
          elim (Bool-cases (fails insert_row)) [
            | inl down ↦
                inr (db_error, ground arith, ground arith, λ other. ground (arith, kept other))
            | inr up ↦
                elim (Bool-cases
                  (eqb (count_where (has_aggregate_id config.aggregate_id) w.db.outbox) 0)) [
                    | inl fresh ↦
                        inl (ground arith, free, ground (arith, eq_refl key), ground arith)
                    | inr taken ↦ inr (
                      unique_violation,
                      ground arith,
                      ground arith,
                      λ other. ground (arith, kept other),
                    )
                  ]
          ]
    ]

-- No row of the table that is under the key belongs to a transaction that is stored as pending.
abbrev pub IsIdle : String → Db → Type 0
IsIdle key db =
    All
      (λ (o : OutboxModel).
        o.idempotency_key ≡ key
        → All (λ (r : TransactionRow). r.id ≡ o.aggregate_id → r.status ≢ TransactionStatus.pending)
            db.transactions)
      db.outbox

row-idle_iff :
    (id : String) (r : TransactionRow)
    → (is_pending_row id r ≡ false) ↔ (r.id ≡ id → r.status ≢ TransactionStatus.pending)
row-idle_iff id r = (
  (λ idle same waits. ground (arith, eq_iff r.id id)),
  (λ idle. elim (Bool-cases (is_pending_row id r)) [
    | inr other ↦ other
    | inl pending ↦
        let same : r.id ≡ id = ground (arith, eq_iff r.id id) in
        let waits : r.status ≡ TransactionStatus.pending = ground arith in absurd (idle same waits)
  ]),
)

abbrev is_busy : String → Db → OutboxModel → Bool
is_busy key db o =
    o.idempotency_key == key
    && not (eqb (count_where (is_pending_row o.aggregate_id) db.transactions) 0)

in_progress-false_iff : (key : String) (db : Db) → (in_progress key db ≡ false) ↔ IsIdle key db
unfolding in_progress
in_progress-false_iff key db = (
  (λ idle.
      All-map
        (λ o free same.
          let none_waits : count_where (is_pending_row o.aggregate_id) db.transactions ≡ 0 =
            ground (arith, eq_iff o.idempotency_key key) in
          All-map (λ r. (row-idle_iff o.aggregate_id r).0) db.transactions
            ((count_where-zero_iff (is_pending_row o.aggregate_id) db.transactions).0 none_waits))
        db.outbox ((count_where-zero_iff (is_busy key db) db.outbox).0 (ground arith))),
  (λ idle.
      let none_busy : count_where (is_busy key db) db.outbox ≡ 0 =
        (count_where-zero_iff (is_busy key db) db.outbox).1 (
          All-map
            (λ o free. elim (Bool-cases (o.idempotency_key == key)) [
              | inr other ↦ rw other refl
              | inl same ↦
                  let none_waits : count_where (is_pending_row o.aggregate_id) db.transactions ≡ 0 =
                    (count_where-zero_iff (is_pending_row o.aggregate_id) db.transactions).1 (
                      All-map (λ r. (row-idle_iff o.aggregate_id r).1) db.transactions
                        (free ((eq_iff o.idempotency_key key).0 same))) in
                  rw (same, none_waits) refl
            ])
            db.outbox idle) in
      rw none_busy refl),
)

-- Where the cache does not take the lock but the database answers, a request is enqueued if and only
-- if its aggregate id is in no row of the table and no row under its key belongs to a transaction
-- that is stored as pending.
pub outbox_insert_fallback :
    (now : ℕ) (fails : Faults) (cache_fails : CacheFaults) (id : String)
    (config : OutboxInsertConfig) (w : World)
    → let key = lock_id config.user_id config.partition_key in
      cache_fails (set_nx (idempotency_key key)) ≡ true
      → ((c : Call) → fails c ≡ false)
      → ((outbox_insert now fails cache_fails id config w).0 ≡ ok tt)
        ↔ ((count_where (has_aggregate_id config.aggregate_id) w.db.outbox ≡ 0) × IsIdle key w.db)
unfolding outbox_insert refused transaction_idempotency_check insert_outbox autocommit
    release_unless_inserted outbox_idempotency_check
outbox_insert_fallback now fails cache_fails id config w down quiet =
    let key = lock_id config.user_id config.partition_key in
    let idle = in_progress-false_iff key w.db in
    (
      (λ sent. (
        ground (arith, quiet insert_row, quiet select_rows),
        idle.0 (ground (arith, quiet insert_row, quiet select_rows)),
      )),
      (λ free.
          let unused = free.0 in
          let waits : in_progress key w.db ≡ false = idle.1 free.1 in
          ground (arith, quiet insert_row, quiet select_rows)),
    )
