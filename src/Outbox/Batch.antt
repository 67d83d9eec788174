-- ===== src/Outbox/Batch.antt =====
-- `OutboxPendingGetBatch` of wallet-service/internal/repository/wallet_repository.go: stale claims are
-- taken back, and the oldest rows that are due are claimed.
use wallet_app.Base.{
  ℕ, ◌+◌, Bool, false, not, List, [], ◌∷◌, map, ltb, leb, eqb, take, count_where, select_where,
  update_where, if◌then◌else◌,
}
use wallet_app.Models.{OutboxModel, OutboxStatus}
use wallet_app.Errors.{Result}
use wallet_app.Store.{
  Db, Faults, pure, gets, modify, try_call, transact, reclaim_rows, claim_rows, ◌>>=◌, ◌>>◌,
}
use wallet_app.Outbox.{has_outbox_id, scan_row}

-- WHERE status = 'claimed' AND updated_at < now() - interval '30 seconds'
unfoldable pub is_stale : ℕ → OutboxModel → Bool
is_stale now o = elim o.status [ OutboxStatus.claimed ↦ ltb (o.updated_at + 30) now | _ ↦ false ]

abbrev pub set_pending : ℕ → OutboxModel → OutboxModel
set_pending now o = record o { status = OutboxStatus.pending; updated_at = now }

-- WHERE status = 'pending' AND next_attempt_at <= now()
unfoldable pub is_due : ℕ → OutboxModel → Bool
is_due now o = elim o.status [ OutboxStatus.pending ↦ leb o.next_attempt_at now | _ ↦ false ]

-- ORDER BY created_at
unfoldable pub insert_by_age : OutboxModel → List OutboxModel → List OutboxModel
insert_by_age o [] = o ∷ []
insert_by_age o (o' ∷ os) =
    let rest = insert_by_age o os in
    if leb o.created_at o'.created_at then o ∷ o' ∷ os else o' ∷ rest

unfoldable pub sort_by_age : List OutboxModel → List OutboxModel
sort_by_age [] = []
sort_by_age (o ∷ os) = insert_by_age o (sort_by_age os)

abbrev pub reclaim : ℕ → List OutboxModel → List OutboxModel
reclaim now = update_where (is_stale now) (set_pending now)

-- The rows that the common table expression picks.
unfoldable pub pick : ℕ → ℕ → List OutboxModel → List OutboxModel
pick now limit os = take limit (sort_by_age (select_where (is_due now) os))

abbrev pub set_claimed : ℕ → OutboxModel → OutboxModel
set_claimed now o = record o { status = OutboxStatus.claimed; updated_at = now }

-- WHERE transaction_outbox.id = claimed.id
abbrev pub is_among : List OutboxModel → OutboxModel → Bool
is_among picked o = not (eqb (count_where (has_outbox_id o.id) picked) 0)

abbrev pub claim : ℕ → List OutboxModel → List OutboxModel → List OutboxModel
claim now picked = update_where (is_among picked) (set_claimed now)

-- What is returned of a claimed row.
abbrev pub claimed_row : ℕ → OutboxModel → OutboxModel
claimed_row now o = scan_row (set_claimed now o)

-- `OutboxPendingGetBatch`. RETURNING promises no order, and the rows come in that of the picking.
-- Each is scanned into a model.
unfoldable pub outbox_pending_get_batch : ℕ → Faults → ℕ → Db → Result (List OutboxModel) × Db
outbox_pending_get_batch now fails limit = transact fails (do
  try_call fails reclaim_rows
  modify (λ db. record db { outbox = reclaim now db.outbox })
  try_call fails claim_rows
  picked ← gets (λ db. pick now limit db.outbox)
  modify (λ db. record db { outbox = claim now picked db.outbox })
  pure (map (claimed_row now) picked))
