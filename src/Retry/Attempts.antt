-- ===== src/Retry/Attempts.antt =====
-- How often an operation is tried, how long the waits are, and when it succeeds.
use wallet_app.Base.{
  ℕ, ◌+◌, ◌≤◌, ◌<◌, zero, suc, ◌≡◌, sym, subst, Bool, false, arith, inl, inr, pos, length, All,
  Bool-cases,
}
use wallet_app.Errors.{Error, Result, ok}
use wallet_app.Store.{Result-cases}
use wallet_app.Retry.{Config, with_backoff, run_attempts, retry, next_wait}

module _ (config : Config) (operation : ℕ → Result (Unit {0})) (is_done : ℕ → Bool) where
  retry-waits :
      (bound : ℕ)
      → config.max_wait ≤ bound
      → (left attempt wait : ℕ) (e : Error) → wait ≤ bound
      → let waits = (retry config operation is_done left attempt wait e).1 in
        (length waits ≤ left) × All (λ w. w ≤ bound) waits
  unfolding retry next_wait
  retry-waits bound capped zero attempt wait e small = (omega arith, tt)
  retry-waits bound capped (suc left) attempt wait e small = elim (Bool-cases (is_done attempt)) [
    | inl over ↦ rw over (omega arith, tt)
    | inr on ↦ elim (Result-cases (operation attempt)) [
      | inl (u, fine) ↦ rw (on, fine) (omega arith, (small, tt))
      | inr (e', failed) ↦
          let (few, low) =
            retry-waits bound capped left (suc attempt) (next_wait config wait) e'
              (ground (arith, capped)) in
          rw (on, failed) (omega (arith, few), (small, low))
    ]
  ]

  retry-ok :
      (left attempt wait : ℕ) (e : Error) (k : ℕ)
      → ((n : ℕ) → is_done n ≡ false)
      → k < left
      → operation (attempt + k) ≡ ok tt
      → (retry config operation is_done left attempt wait e).0 ≡ ok tt
  unfolding retry
  retry-ok zero attempt wait e k on early fine = absurd (omega (arith, early))
  retry-ok (suc left) attempt wait e zero on early fine =
      let here : attempt + 0 ≡ attempt = omega arith in rw (on attempt, rw here at fine)
  retry-ok (suc left) attempt wait e (suc k) on early fine =
      elim (Result-cases (operation attempt)) [
        | inl (u, now_fine) ↦ rw (on attempt, now_fine)
        | inr (e', failed) ↦
            let later : attempt + suc k ≡ suc attempt + k = omega arith in
            rw (on attempt, failed)
              (retry-ok left (suc attempt) (next_wait config wait) e' k on (omega (arith, early))
                (rw later at fine))
      ]

  run_attempts-waits :
      (n bound : ℕ)
      → config.initial_wait ≤ bound
      → config.max_wait ≤ bound
      → let waits = (run_attempts (pos n) config operation is_done).1 in
        (length waits ≤ n) × All (λ w. w ≤ bound) waits
  unfolding run_attempts
  run_attempts-waits n bound first capped = elim (Result-cases (operation 0)) [
    | inl (u, fine) ↦ rw fine (omega arith, tt)
    | inr (e, failed) ↦ rw failed (retry-waits bound capped n 1 config.initial_wait e first)
  ]

  run_attempts-ok :
      (n k : ℕ)
      → ((m : ℕ) → is_done m ≡ false)
      → k ≤ n
      → operation k ≡ ok tt
      → (run_attempts (pos n) config operation is_done).0 ≡ ok tt
  unfolding run_attempts
  run_attempts-ok n zero on early fine = rw fine
  run_attempts-ok n (suc k) on early fine = elim (Result-cases (operation 0)) [
    | inl (u, now_fine) ↦ rw now_fine
    | inr (e, failed) ↦
        let later : suc k ≡ 1 + k = omega arith in
        rw failed
          (retry-ok n 1 config.initial_wait e k on (omega (arith, early)) (rw later at fine))
  ]

-- Where `MaxRetries` is not negative, `WithBackoff` waits at most that many times, and no wait is
-- longer than a bound on the first wait and on `MaxWait`.
pub with_backoff-waits :
    (config : Config) (operation : ℕ → Result (Unit {0})) (is_done : ℕ → Bool) (n bound : ℕ)
    → config.max_retries ≡ pos n
    → config.initial_wait ≤ bound
    → config.max_wait ≤ bound
    → let waits = (with_backoff config operation is_done).1 in
      (length waits ≤ n) × All (λ w. w ≤ bound) waits
unfolding with_backoff
with_backoff-waits config operation is_done n bound is_n first capped =
    subst
      (λ z.
        let waits = (run_attempts z config operation is_done).1 in
        (length waits ≤ n) × All (λ w. w ≤ bound) waits)
      (sym is_n) (run_attempts-waits config operation is_done n bound first capped)

-- Where the context is never done, and the operation succeeds at some attempt up to `MaxRetries`,
-- `WithBackoff` succeeds.
pub with_backoff-ok :
    (config : Config) (operation : ℕ → Result (Unit {0})) (is_done : ℕ → Bool) (n k : ℕ)
    → config.max_retries ≡ pos n
    → ((m : ℕ) → is_done m ≡ false)
    → k ≤ n
    → operation k ≡ ok tt
    → (with_backoff config operation is_done).0 ≡ ok tt
unfolding with_backoff
with_backoff-ok config operation is_done n k is_n on early fine =
    subst (λ z. (run_attempts z config operation is_done).0 ≡ ok tt) (sym is_n)
      (run_attempts-ok config operation is_done n k on early fine)
