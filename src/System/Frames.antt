-- ===== src/System/Frames.antt =====
-- The events that leave the accounts and the transactions alone: requests, the relay, and reading a
-- balance.
use wallet_app.Base.{
  ℕ, ◌≡◌, refl, ◌∙◌, String, List, [], ◌∷◌, arith, inl, inr, Option, some, none, find_where,
  update_where, Bool-cases, Option-cases,
}
use wallet_app.Models.{OutboxModel, OutboxStatus}
use wallet_app.Errors.{Result, ok, err}
use wallet_app.Store.{Db, Faults, Result-cases, transact, autocommit, update_row}
use wallet_app.Cache.{Ttl, CacheFaults}
use wallet_app.Wallet.{World, check_user_account_compatibility}
use wallet_app.Wallet.Accounts.{get_balance, balance_of_found}
use wallet_app.Outbox.{
  OutboxInsertConfig, outbox_insert, insert_outbox, release_unless_inserted, outbox_update,
  RetrySettings, has_aggregate_id, record_failure, idempotency_release, outbox_mark_publish_failure,
}
use wallet_app.Outbox.Batch.{outbox_pending_get_batch}
use wallet_app.Outbox.Relay.{
  RelayEnv, read_and_relay, relay_batch, relay_rows, relay_row, seal_payload, publish_message,
  after_publish, release_failed, mark_failed, release_idempotency, insert_outbox_relay, envelope,
}
use wallet_app.Messages.{
  RequestEnv, enqueue, answer, request_deposit, request_withdrawal, request_transfer,
}
use wallet_app.System.{Order, pay_in, pay_out, move, request}

abbrev pub SameLedger : World → World → Type 0
SameLedger w w' = (w'.db.accounts ≡ w.db.accounts) × (w'.db.transactions ≡ w.db.transactions)

SameLedger-trans : (w w' w'' : World) → SameLedger w w' → SameLedger w' w'' → SameLedger w w''
SameLedger-trans w w' w'' h k = (k.0 ∙ h.0, k.1 ∙ h.1)

outbox_insert-SameLedger :
    (now : ℕ) (fails : Faults) (cache_fails : CacheFaults) (id : String)
    (config : OutboxInsertConfig) (w : World)
    → SameLedger w (outbox_insert now fails cache_fails id config w).1
unfolding outbox_insert insert_outbox release_unless_inserted autocommit
outbox_insert-SameLedger now fails cache_fails id config w = (ground arith, ground arith)

answer-world : (t : _) (p : Result (Unit {0}) × World) → (answer t p).1 ≡ p.1
unfolding answer
answer-world t (ok u, w) = refl
answer-world t (err e, w) = refl

pub request-SameLedger :
    (env : RequestEnv) (o : Order) (w : World) → SameLedger w (request env o w).1
unfolding request request_deposit request_withdrawal request_transfer enqueue insert_outbox_relay
request-SameLedger env (pay_in id user account currency amount) w =
    rw answer-world (outbox_insert-SameLedger _ _ _ _ _ w)
request-SameLedger env (pay_out id user account amount) w =
    rw answer-world (outbox_insert-SameLedger _ _ _ _ _ w)
request-SameLedger env (move id user from to currency amount) w =
    rw answer-world (outbox_insert-SameLedger _ _ _ _ _ w)

abbrev SameTables : Db → Db → Type 0
SameTables db db' = (db'.accounts ≡ db.accounts) × (db'.transactions ≡ db.transactions)

outbox_update-SameTables :
    (now : ℕ) (fails : Faults) (id : String) (status : OutboxStatus) (db : Db)
    → SameTables db (outbox_update now fails id status db).1
unfolding outbox_update
outbox_update-SameTables now fails id status db = elim (Bool-cases (fails update_row)) [
  | inl down ↦ rw down (refl, refl)
  | inr up ↦ rw up (refl, refl)
]

outbox_mark_publish_failure-SameTables :
    (settings : RetrySettings) (now : ℕ) (fails : Faults) (id message : String) (db : Db)
    → SameTables db (outbox_mark_publish_failure settings now fails id message db).1
unfolding outbox_mark_publish_failure autocommit
outbox_mark_publish_failure-SameTables settings now fails id message db =
    elim (Bool-cases (fails update_row)) [
      | inl down ↦ rw down (refl, refl)
      | inr up ↦
          elim (Option-cases (
            find_where (has_aggregate_id id) (
              update_where (has_aggregate_id id) (record_failure settings now message)
                db.outbox))) [
                  | inl gone ↦ rw (up, gone) (refl, refl)
                  | inr (row, found) ↦ rw (up, found) (refl, refl)
                ]
    ]

release_failed-db :
    (env : RelayEnv) (o : OutboxModel) (r : Result OutboxStatus) (w : World)
    → (release_failed env o r w).db ≡ w.db
unfolding release_failed release_idempotency idempotency_release
release_failed-db env o (ok OutboxStatus.failed) w = refl
release_failed-db env o (ok OutboxStatus.pending) w = refl
release_failed-db env o (ok OutboxStatus.claimed) w = refl
release_failed-db env o (ok OutboxStatus.published) w = refl
release_failed-db env o (err e) w = refl

module _ (env : RelayEnv) (o : OutboxModel) where
  mark_failed-SameLedger : (w : World) → SameLedger w (mark_failed env o w)
  unfolding mark_failed release_idempotency idempotency_release
  mark_failed-SameLedger w =
      outbox_update-SameTables env.now env.update o.aggregate_id OutboxStatus.failed w.db

  after_publish-SameLedger :
      (error : Option String) (w : World) → SameLedger w (after_publish env o error w)
  unfolding after_publish
  after_publish-SameLedger none w =
      outbox_update-SameTables env.now env.update o.aggregate_id OutboxStatus.published w.db
  after_publish-SameLedger (some error) w = rw release_failed-db (
      outbox_mark_publish_failure-SameTables env.settings env.now env.update o.aggregate_id error
        w.db)

  relay_row-SameLedger : (w : World) → SameLedger w (relay_row env o w)
  unfolding relay_row seal_payload publish_message
  relay_row-SameLedger w = elim (Option-cases (env.publisher.marshal_payload o.payload)) [
    | inl bad ↦ rw bad (mark_failed-SameLedger w)
    | inr (payload, p) ↦ elim (Option-cases (env.publisher.marshal_envelope (envelope o payload))) [
      | inl bad ↦ rw (p, bad) (mark_failed-SameLedger w)
      | inr (message, m) ↦
          rw (p, m) (after_publish-SameLedger (env.publisher.publish o.partition_key message) w)
    ]
  ]

relay_rows-SameLedger :
    (env : RelayEnv) (os : List OutboxModel) (w : World) → SameLedger w (relay_rows env os w)
unfolding relay_rows
relay_rows-SameLedger env [] w = (refl, refl)
relay_rows-SameLedger env (o ∷ os) w =
    SameLedger-trans w (relay_row env o w) (relay_rows env os (relay_row env o w))
      (relay_row-SameLedger env o w) (relay_rows-SameLedger env os (relay_row env o w))

claim-SameLedger :
    (now : ℕ) (fails : Faults) (limit : ℕ) (db : Db)
    → let db' = (outbox_pending_get_batch now fails limit db).1 in
      (db'.accounts ≡ db.accounts) × (db'.transactions ≡ db.transactions)
unfolding outbox_pending_get_batch transact
claim-SameLedger now fails limit db = (ground arith, ground arith)

pub read_and_relay-SameLedger :
    (env : RelayEnv) (claims : Faults) (batch : ℕ) (w : World)
    → SameLedger w (read_and_relay env claims batch w).1
unfolding read_and_relay relay_batch
read_and_relay-SameLedger env claims batch w =
    let claimed = claim-SameLedger env.now claims batch w.db in
    let w1 : World = record w { db = (outbox_pending_get_batch env.now claims batch w.db).1 } in
    elim (Result-cases (outbox_pending_get_batch env.now claims batch w.db).0) [
      | inl (os, e) ↦
          rw e
            (SameLedger-trans w w1 (relay_rows env os w1) claimed (relay_rows-SameLedger env os w1))
      | inr (x, e) ↦ rw e claimed
    ]

pub get_balance-SameLedger :
    (ttl : Ttl) (now : ℕ) (finds : Faults) (cache_fails : CacheFaults) (user account : String)
    (w : World)
    → SameLedger w (get_balance ttl now finds cache_fails user account w).1
unfolding get_balance balance_of_found
get_balance-SameLedger ttl now finds cache_fails user account w =
    elim (Option-cases (check_user_account_compatibility finds user account w.db)) [
      | inl stranger ↦ (ground arith, ground arith)
      | inr (a, owner) ↦ (ground arith, ground arith)
    ]
