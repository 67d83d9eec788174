-- ===== src/Outbox/Relay/Outcome.antt =====
-- What becomes of a claimed row that the relay handles, and of the lock of its account.
use wallet_app.Base.{
  ℕ, ◌≡◌, refl, String, Bool, true, false, ◌&&◌, Option, none, some, List, [], ◌∷◌, ◌==◌, arith,
  inl, inr, concat, trim_suffix, trim_suffix-append, find_where, update_where, Option-cases,
  if◌then◌else◌,
}
use wallet_app.Models.{OutboxModel, OutboxStatus}
use wallet_app.Errors.{ok}
use wallet_app.Store.{Call, autocommit, update_row}
use wallet_app.Cache.{CacheFaults, idempotency_key, del}
use wallet_app.Cache.Locks.{is_held, transaction_idempotency_release-is_held}
use wallet_app.Wallet.{World, on_db, lock_id}
use wallet_app.Outbox.{
  outbox_update, outbox_mark_publish_failure, idempotency_release, has_aggregate_id,
  set_outbox_status, record_failure, RetrySettings,
}
use wallet_app.Outbox.Relay.{
  RelayEnv, release_idempotency, mark_failed, release_failed, after_publish, publish_message,
  seal_payload, relay_row, envelope,
}

-- An update that keeps the test of the WHERE clause is found under the same test.
find_where-update :
    {A : Type 0} (p : A → Bool) (f : A → A)
    → ((x : A) → p (f x) ≡ p x)
    → (xs : List A) {x : A} → find_where p xs ≡ some x
    → find_where p (update_where p f xs) ≡ some (f x)
unfolding find_where update_where
find_where-update p f keep [] h = absurd (cc h)
find_where-update p f keep (y ∷ xs) {x} h =
    ground (arith, keep y, find_where-update p f keep xs {x = x})

-- The user that is cut from the key of a row gives that key back.
lock_id-trim_suffix :
    (user account : String)
    → lock_id (trim_suffix (lock_id user account) (concat "_" account)) account
      ≡ lock_id user account
unfolding lock_id
lock_id-trim_suffix user account = rw (trim_suffix-append user (concat "_" account))

abbrev pub is_failed : OutboxStatus → Bool
is_failed OutboxStatus.failed = true
is_failed _ = false

-- Releasing the lock of a row frees the lock that its request took, and no other.
pub release_idempotency-is_held :
    (now : ℕ) (fails : CacheFaults) (o : OutboxModel) (user other : String) (w : World)
    → o.idempotency_key ≡ lock_id user o.partition_key
    → fails (del (idempotency_key o.idempotency_key)) ≡ false
    → is_held now other (release_idempotency fails o w).cache
      ≡ (if o.idempotency_key == other then false else is_held now other w.cache)
unfolding release_idempotency idempotency_release
release_idempotency-is_held now fails o user other w key_is up =
    let again : lock_id (trim_suffix o.idempotency_key (concat "_" o.partition_key)) o.partition_key
        ≡ o.idempotency_key =
      rw key_is (lock_id-trim_suffix user o.partition_key) in
    rw again
      (transaction_idempotency_release-is_held now fails o.idempotency_key other w.cache up).1

abbrev pub is_claimed : OutboxStatus → Bool
is_claimed OutboxStatus.claimed = true
is_claimed _ = false

-- The row under the aggregate id is claimed no more, and its lock is freed, and no other, exactly
-- where it has failed.
abbrev pub IsSettled : ℕ → OutboxModel → World → World → Type 0
IsSettled later o w w' =
    (row : OutboxModel) × (find_where (has_aggregate_id o.aggregate_id) w'.db.outbox ≡ some row)
    × (is_claimed row.status ≡ false)
    × ((other : String)
        → is_held later other w'.cache ≡ (
            if is_failed row.status && (o.idempotency_key == other)
            then false
            else is_held later other w.cache))

failure_unclaims :
    (settings : RetrySettings) (now : ℕ) (error : String) (o : OutboxModel)
    → is_claimed (record_failure settings now error o).status ≡ false
unfolding record_failure
failure_unclaims settings now error o = ground arith

module _ (later : ℕ) (env : RelayEnv) (o : OutboxModel) (user : String) (w : World)
    (quiet : (c : Call) → env.update c ≡ false)
    (up : env.cache_fails (del (idempotency_key o.idempotency_key)) ≡ false)
    (key_is : o.idempotency_key ≡ lock_id user o.partition_key) {row : OutboxModel}
    (stored : find_where (has_aggregate_id o.aggregate_id) w.db.outbox ≡ some row) where
  updated :
      (status : OutboxStatus)
      → find_where
          (has_aggregate_id o.aggregate_id)
          (outbox_update env.now env.update o.aggregate_id status w.db).1.outbox
        ≡ some (set_outbox_status env.now status row)
  unfolding outbox_update set_outbox_status
  updated status = rw (quiet update_row) (
      find_where-update (has_aggregate_id o.aggregate_id) (set_outbox_status env.now status)
        (λ x. refl) w.db.outbox stored)

  -- The row after a failure is recorded, and the answer with its status.
  recorded :
      (error : String)
      → let row' = record_failure env.settings env.now error row in
        let (status, db') =
          outbox_mark_publish_failure env.settings env.now env.update o.aggregate_id error w.db in
        (find_where (has_aggregate_id o.aggregate_id) db'.outbox ≡ some row')
        × (status ≡ ok row'.status)
  unfolding outbox_mark_publish_failure record_failure autocommit
  recorded error =
      let found =
        find_where-update (has_aggregate_id o.aggregate_id)
          (record_failure env.settings env.now error) (λ x. refl) w.db.outbox stored in
      (rw (quiet update_row, found) found, rw (quiet update_row, found))

  released :
      (status : OutboxStatus) (w' : World)
      → let w'' = release_failed env o (ok status) w' in
        (w''.db ≡ w'.db)
        × ((other : String)
            → is_held later other w''.cache ≡ (
                if is_failed status && (o.idempotency_key == other)
                then false
                else is_held later other w'.cache))
  unfolding release_failed release_idempotency idempotency_release
  released OutboxStatus.failed w' =
      (refl, λ other. release_idempotency-is_held later env.cache_fails o user other w' key_is up)
  released OutboxStatus.pending w' = (refl, λ other. refl)
  released OutboxStatus.claimed w' = (refl, λ other. refl)
  released OutboxStatus.published w' = (refl, λ other. refl)

  mark_failed-IsSettled : IsSettled later o w (mark_failed env o w)
  unfolding mark_failed set_outbox_status release_idempotency idempotency_release
  mark_failed-IsSettled =
      let marked : World =
        (on_db (outbox_update env.now env.update o.aggregate_id OutboxStatus.failed) w).1 in
      (
        set_outbox_status env.now OutboxStatus.failed row,
        updated OutboxStatus.failed,
        refl,
        λ other. release_idempotency-is_held later env.cache_fails o user other marked key_is up,
      )

  after_publish-IsSettled :
      (error : Option String) → IsSettled later o w (after_publish env o error w)
  unfolding after_publish set_outbox_status
  after_publish-IsSettled none = (
    set_outbox_status env.now OutboxStatus.published row,
    updated OutboxStatus.published,
    refl,
    λ other. refl,
  )
  after_publish-IsSettled (some error) =
      let row' = record_failure env.settings env.now error row in
      let (found, status) = recorded error in
      let w' : World = record {
        db =
            (outbox_mark_publish_failure env.settings env.now env.update o.aggregate_id error
              w.db).1;
        cache = w.cache;
      } in
      let (same_db, locks) = released row'.status w' in
      (
        row',
        rw (status, same_db) found,
        failure_unclaims env.settings env.now error row,
        λ other. rw status (locks other),
      )

  -- Where no call of the database or the cache fails, the relay leaves a stored row, whose lock is
  -- its account's, published, failed or pending again, whatever encoding and publishing it come to,
  -- and frees its lock, and no other, exactly where the row has failed.
  pub relay_row-IsSettled : IsSettled later o w (relay_row env o w)
  unfolding relay_row seal_payload publish_message
  relay_row-IsSettled = elim (Option-cases (env.publisher.marshal_payload o.payload)) [
    | inl bad ↦ rw bad mark_failed-IsSettled
    | inr (payload, p) ↦ elim (Option-cases (env.publisher.marshal_envelope (envelope o payload))) [
      | inl bad ↦ rw (p, bad) mark_failed-IsSettled
      | inr (message, m) ↦
          rw (p, m) (after_publish-IsSettled (env.publisher.publish o.partition_key message))
    ]
  ]
