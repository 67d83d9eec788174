-- ===== src/Retry.antt =====
-- shared/retry/retry.go: an operation is tried again after waits that double up to a maximum. The
-- operation is a function of the attempt's number, and so is the state of the context. Waits are
-- in nanoseconds, and far from the bounds of an int64.
pub mod Attempts
use wallet_app.Base.{
  ℕ, ◌+◌, ◌*◌, zero, suc, Bool, true, false, List, [], ◌∷◌, ℤ, pos, negsuc, ltb, if◌then◌else◌,
}
use wallet_app.Errors.{Error, Result, ok, err, cancelled}

pub record Config : Type 0 where
  pub max_retries : ℤ
  pub initial_wait : ℕ
  pub max_wait : ℕ

-- `DefaultConfig`, with a second as 10 ^ 9 nanoseconds.
abbrev pub default_config : Config
default_config = record { max_retries = pos 3; initial_wait = 1000000000; max_wait = 10000000000 }

-- `wait *= 2`, and the cap.
unfoldable pub next_wait : Config → ℕ → ℕ
next_wait config wait = if ltb config.max_wait (wait * 2) then config.max_wait else wait * 2

abbrev pub Outcome : Type 0
Outcome = Result (Unit {0}) × List ℕ

abbrev pub waited : ℕ → Outcome → Outcome
waited wait (r, waits) = (r, wait ∷ waits)

-- What follows an attempt, if `next` is the rest of the loop: an error, the last one in the end.
abbrev pub unless_ok : Result (Unit {0}) → (Error → Outcome) → Outcome
unless_ok (ok u) next = (ok tt, [])
unless_ok (err e) next = next e

-- The loop from the attempt with the given number on, with `left` attempts left.
unfoldable pub retry :
    Config → (ℕ → Result (Unit {0})) → (ℕ → Bool) → (left attempt wait : ℕ) → Error → Outcome
retry config operation is_done zero attempt wait e = (err e, [])
retry config operation is_done (suc left) attempt wait e =
    let rest = retry config operation is_done left (suc attempt) (next_wait config wait) in
    if is_done attempt
    then (err cancelled, [])
    else waited wait (unless_ok (operation attempt) rest)

unfoldable pub run_attempts : ℤ → Config → (ℕ → Result (Unit {0})) → (ℕ → Bool) → Outcome
run_attempts (negsuc n) config operation is_done = (ok tt, [])
run_attempts (pos n) config operation is_done =
    unless_ok (operation 0) (retry config operation is_done n 1 config.initial_wait)

-- `WithBackoff`: its result, and the waits before the retries. Where `MaxRetries` is negative, the
-- operation is never run and nil is returned.
unfoldable pub with_backoff : Config → (ℕ → Result (Unit {0})) → (ℕ → Bool) → Outcome
unfolding run_attempts
with_backoff config = run_attempts config.max_retries config
