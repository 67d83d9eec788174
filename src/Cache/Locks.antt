-- ===== src/Cache/Locks.antt =====
-- The idempotency lock: who takes it, how long it is held, and who frees it.
use wallet_app.Base.{
  ℕ, ◌+◌, ◌≡◌, String, Bool, true, false, none, some, ◌==◌, arith, ltb, if◌then◌else◌,
}
use text.Mathlib.TextPositions.{eq_refl}
use wallet_app.Errors.{ok}
use wallet_app.Cache.{
  Cache, CacheFaults, idempotency_key, read, idempotency_ttl, set_nx, del,
  transaction_idempotency_check, transaction_idempotency_release,
}

abbrev pub is_held : ℕ → String → Cache → Bool
is_held now id c = elim (read now (idempotency_key id) c) [ none ↦ false | some _ ↦ true ]

-- Where the cache answers, a check passes exactly where the lock was free, and the lock is held
-- after it for 24 hours and not longer, if it was free.
pub transaction_idempotency_check-is_held :
    (now later : ℕ) (fails : CacheFaults) (id : String) (c : Cache)
    → fails (set_nx (idempotency_key id)) ≡ false
    → let (r, c') = transaction_idempotency_check now fails id c in
      (r ≡ ok (if is_held now id c then false else true))
      × (is_held now id c' ≡ true)
      × (is_held now id c ≡ false → is_held later id c' ≡ ltb later (now + idempotency_ttl))
unfolding transaction_idempotency_check
transaction_idempotency_check-is_held now later fails id c h =
    (ground arith, ground (arith, eq_refl id), ground (arith, eq_refl id))

-- Releasing a lock frees it, and no other.
pub transaction_idempotency_release-is_held :
    (now : ℕ) (fails : CacheFaults) (id other : String) (c : Cache)
    → fails (del (idempotency_key id)) ≡ false
    → let (r, c') = transaction_idempotency_release fails id c in
      (r ≡ ok tt) × (is_held now other c' ≡ (if id == other then false else is_held now other c))
unfolding transaction_idempotency_release
transaction_idempotency_release-is_held now fails id other c h = (ground arith, ground arith)
