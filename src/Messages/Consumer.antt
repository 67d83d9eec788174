-- ===== src/Messages/Consumer.antt =====
-- The consumer loop of shared/events/kafka.go: which messages are committed, and which go to the
-- dead-letter queue.
use wallet_app.Base.{ℕ, ◌+◌, String, Bool, true, false, List, [], ◌∷◌, ◌++◌, if◌then◌else◌}
use wallet_app.Errors.{Error, Result, ok, err, invalid_message, handler_panicked}
use wallet_app.Wallet.{World}

-- What one message leaves in Kafka: the offset from which the group would read on, and the messages
-- of the dead-letter topic.
pub record Broker : Type 0 where
  pub committed : ℕ
  pub dlq : List String

pub record Message : Type 0 where
  pub offset : ℕ
  pub value : String

-- Which of the two calls on the broker fail.
pub record BrokerFaults : Type 0 where
  pub append_fails : Bool
  pub commit_fails : Bool

-- `CommitMessages`: the group reads on after the message.
unfoldable pub commit_message : BrokerFaults → Message → Broker → Broker
commit_message fails m b = if fails.commit_fails then b else record b { committed = m.offset + 1 }

-- `errors.Is(err, ErrInvalidMessage)`
unfoldable pub is_invalid : Error → Bool
is_invalid invalid_message = true
is_invalid _ = false

-- What the loop does with the error of a message: only a message that is not valid goes to the
-- dead-letter queue, and is committed if it got there.
unfoldable pub after_error : BrokerFaults → Message → Error → Broker → Broker
unfolding is_invalid commit_message
after_error fails m e b =
    let parked = commit_message fails m (record b { dlq = b.dlq ++ m.value ∷ [] }) in
    if is_invalid e then if fails.append_fails then b else parked else b

-- What `dispatch` recovers: a handler that panics has failed, and leaves what it had changed.
pub data Run : Type 0 where
  returned : Result (Unit {0}) → Run
  panicked : Run

unfoldable pub recovered : Run → Result (Unit {0})
recovered (returned r) = r
recovered panicked = err handler_panicked

unfoldable pub settle_message : BrokerFaults → Message → Result (Unit {0}) → Broker → Broker
settle_message fails m (ok u) b = commit_message fails m b
settle_message fails m (err e) b = after_error fails m e b

-- One turn of the loop of `ConsumeMessage`, for a message that was fetched.
unfoldable pub consume_message :
    BrokerFaults → (String → World → Run × World) → Message → World → Broker → World × Broker
consume_message fails handler m w b =
    let (r, w') = handler m.value w in (w', settle_message fails m (recovered r) b)
