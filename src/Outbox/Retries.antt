-- ===== src/Outbox/Retries.antt =====
-- Failed publications: how often a row is tried, and how long it waits.
use wallet_app.Base.{
  ℕ, ◌+◌, ◌≤◌, ◌<◌, ◌^◌, ◌%◌, zero, suc, ◌≡◌, String, false, arith, pos, leb, inl, inr, leb_ℤ, eqb,
  Bool-cases, if◌then◌else◌,
}
use wallet_app.Models.{OutboxModel, OutboxStatus}
use wallet_app.Outbox.{RetrySettings, record_failure, backoff_seconds, shifted_one}

-- The row after a number of failed publications, the k-th of them at the time `at k`.
unfoldable pub fail_times : RetrySettings → (ℕ → ℕ) → String → ℕ → OutboxModel → OutboxModel
fail_times settings at message zero o = o
fail_times settings at message (suc n) o =
    record_failure settings (at n) message (fail_times settings at message n o)

fail_times-retry_count :
    (settings : RetrySettings) (at : ℕ → ℕ) (message : String) (n : ℕ) (o : OutboxModel)
    → (fail_times settings at message n o).retry_count ≡ n + o.retry_count
unfolding fail_times record_failure
fail_times-retry_count settings at message zero o = omega arith
fail_times-retry_count settings at message (suc n) o =
    omega (arith, fail_times-retry_count settings at message n o)

-- A row that starts with no failure has failed for good after its n-th failed publication exactly
-- where n reaches the maximum, and else waits to be tried again.
pub fail_times-status :
    (settings : RetrySettings) (at : ℕ → ℕ) (message : String) (n : ℕ) (o : OutboxModel)
    → o.retry_count ≡ 0
    → (fail_times settings at message (suc n) o).status ≡ (
        if leb_ℤ settings.max_publish_retries (pos (suc n))
        then OutboxStatus.failed
        else OutboxStatus.pending)
unfolding fail_times record_failure
fail_times-status settings at message n o new =
    let count : (fail_times settings at message n o).retry_count ≡ n =
      omega (arith, fail_times-retry_count settings at message n o, new) in
    rw count

power_positive : (n : ℕ) → 1 ≤ 2 ^ n
power_positive zero = omega arith
power_positive (suc n) = omega (arith, power_positive n)

shifted_one_small : (n : ℕ) → n < 31 → shifted_one n ≡ pos (2 ^ n)
unfolding shifted_one
shifted_one_small n small =
    let same : n % 32 ≡ n = omega arith in
    let last : eqb n 31 ≡ false = ground arith in rw (same, last)

-- Up to 30 failures, a failed row is next tried later than now, and within the maximal backoff.
pub record_failure_backoff :
    (settings : RetrySettings) (now max : ℕ) (message : String) (o : OutboxModel)
    → settings.max_backoff_seconds ≡ pos max
    → 1 ≤ max
    → o.retry_count < 30
    → let o' = record_failure settings now message o in
      (now < o'.next_attempt_at) × (o'.next_attempt_at ≤ now + max)
unfolding record_failure backoff_seconds
record_failure_backoff settings now max message o is_max some_max few =
    let one : shifted_one (suc o.retry_count) ≡ pos (2 ^ suc o.retry_count) =
      shifted_one_small (suc o.retry_count) (omega arith) in
    let positive : 1 ≤ 2 ^ suc o.retry_count = power_positive (suc o.retry_count) in
    elim (Bool-cases (leb (2 ^ suc o.retry_count) max)) [
      | inl below ↦ (ground (arith, one), ground (arith, one))
      | inr above ↦ (ground (arith, one), ground (arith, one))
    ]
