-- ===== src/Messaging/Fetching.antt =====
-- What errors of the fetch call do to the consumer loop: they delay it, and lose no message.
use wallet_app.Base.{ℕ, ◌≤◌, ◌≡◌, refl, String, true, false, List, [], ◌∷◌, arith, All}
use wallet_app.Wallet.{World}
use wallet_app.Messages.Consumer.{Broker, Run, consume_message}
use wallet_app.Messaging.{Fetch, fetched, closed, fails, next_backoff, consume}

-- Without the errors that the loop waits out.
unfoldable pub without_errors : List Fetch → List Fetch
without_errors [] = []
without_errors (fetched faults m ∷ rest) = fetched faults m ∷ without_errors rest
without_errors (closed ∷ rest) = closed ∷ without_errors rest
without_errors (fails true ∷ rest) = fails true ∷ without_errors rest
without_errors (fails false ∷ rest) = without_errors rest

next_backoff_lem :
    (backoff : ℕ)
    → 1 ≤ backoff
    → backoff ≤ 30
    → (1 ≤ next_backoff backoff) × (next_backoff backoff ≤ 30)
unfolding next_backoff
next_backoff_lem backoff low high = (ground arith, ground arith)

-- Every message is handled and settled as if no fetch had failed, and every wait is of 1 to 30 seconds.
pub consume-without_errors :
    (handler : String → World → Run × World) (fetches : List Fetch) (backoff other : ℕ)
    (state : World × Broker)
    → 1 ≤ backoff
    → backoff ≤ 30
    → ((consume handler fetches backoff state).0
        ≡ (consume handler (without_errors fetches) other state).0)
      × All (λ seconds. (1 ≤ seconds) × (seconds ≤ 30)) (consume handler fetches backoff state).1
unfolding consume without_errors
consume-without_errors handler [] backoff other state low high = (refl, tt)
consume-without_errors handler (fetched faults m ∷ rest) backoff other (w, b) low high =
    consume-without_errors handler rest 1 1 (consume_message faults handler m w b) (omega arith)
      (omega arith)
consume-without_errors handler (closed ∷ rest) backoff other state low high = (refl, tt)
consume-without_errors handler (fails true ∷ rest) backoff other state low high =
    (refl, ((low, high), tt))
consume-without_errors handler (fails false ∷ rest) backoff other state low high =
    let (low', high') = next_backoff_lem backoff low high in
    let (same, waits) =
      consume-without_errors handler rest (next_backoff backoff) other state low' high' in
    (same, ((low, high), waits))
