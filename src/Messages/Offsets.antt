-- ===== src/Messages/Offsets.antt =====
-- Which messages the consumer loop commits.
use wallet_app.Base.{
  ◌+◌, ◌≡◌, ◌≢◌, ◌⊎◌, inl, inr, refl, ap, String, true, false, [], ◌∷◌, ◌++◌, arith, Bool-cases,
}
use wallet_app.Errors.{Error, ok, err, invalid_message}
use wallet_app.Wallet.{World}
use wallet_app.Messages.Consumer.{
  Broker, BrokerFaults, Message, Run, consume_message, settle_message, recovered, after_error,
  is_invalid, commit_message,
}

only_invalid : (e : Error) → is_invalid e ≡ true → e ≡ invalid_message
unfolding is_invalid
only_invalid e h =
    elim e as (λ e. is_invalid e ≡ true → e ≡ invalid_message) [
      | invalid_message ↦ λ _. refl
      | _ ↦ λ h. absurd (cc h)
    ]
      h

commit_message-dlq :
    (fails : BrokerFaults) (m : Message) (b : Broker) → (commit_message fails m b).dlq ≡ b.dlq
unfolding commit_message
commit_message-dlq fails m b = ground arith

-- What is known of a run where settling it has moved the group.
settled-moved :
    (fails : BrokerFaults) (m : Message) (run : Run) (b : Broker)
    → (settle_message fails m (recovered run) b).committed ≢ b.committed
    → ((run ≡ Run.returned (ok tt)) × ((settle_message fails m (recovered run) b).dlq ≡ b.dlq))
      ⊎ ((run ≡ Run.returned (err invalid_message))
          × ((settle_message fails m (recovered run) b).dlq ≡ b.dlq ++ m.value ∷ []))
unfolding recovered settle_message after_error
settled-moved fails m (Run.returned (ok u)) b moved = inl (refl, commit_message-dlq fails m b)
settled-moved fails m (Run.returned (err e)) b moved = elim (Bool-cases (is_invalid e)) [
  | inr other ↦ absurd (moved (rw other refl))
  | inl invalid ↦ elim (Bool-cases fails.append_fails) [
    | inl down ↦ absurd (moved (rw (invalid, down) refl))
    | inr up ↦ inr (
      ap (λ e. Run.returned (err e)) (only_invalid e invalid),
      rw (invalid, up) (commit_message-dlq fails m _),
    )
  ]
]
settled-moved fails m Run.panicked b moved = absurd (moved (unfold is_invalid in refl))

-- Where the commit of a turn of the loop moves the group on, the handler of the message returned
-- without an error, or it returned that the message is not valid and the message was put at the end
-- of the dead-letter queue. A handler that panicked did neither.
pub committed-handled :
    (fails : BrokerFaults) (handler : String → World → Run × World) (m : Message) (w : World)
    (b : Broker)
    → (consume_message fails handler m w b).1.committed ≢ b.committed
    → (((handler m.value w).0 ≡ Run.returned (ok tt))
        × ((consume_message fails handler m w b).1.dlq ≡ b.dlq))
      ⊎ (((handler m.value w).0 ≡ Run.returned (err invalid_message))
          × ((consume_message fails handler m w b).1.dlq ≡ b.dlq ++ m.value ∷ []))
unfolding consume_message
committed-handled fails handler m w b moved = settled-moved fails m (handler m.value w).0 b moved

-- A message whose handler fails on a valid message is not committed, but the commit of the next
-- message, whose handler succeeds, moves the group past both.
pub failed_message_skipped :
    (fails : BrokerFaults) (handler : String → World → Run × World) (m next : Message) (w : World)
    (b : Broker) {e : Error} {w' w'' : World}
    → fails.commit_fails ≡ false
    → next.offset ≡ m.offset + 1
    → handler m.value w ≡ (Run.returned (err e), w')
    → is_invalid e ≡ false
    → handler next.value w' ≡ (Run.returned (ok tt), w'')
    → let (w1, b1) = consume_message fails handler m w b in
      let (w2, b2) = consume_message fails handler next w1 b1 in
      (w2 ≡ w'') × (b1 ≡ b) × (b2.committed ≡ m.offset + 2) × (b2.dlq ≡ b.dlq)
unfolding consume_message recovered settle_message after_error commit_message
failed_message_skipped fails handler m next w b up after failed valid succeeded =
    rw (failed, valid, succeeded, up) (refl, refl, omega (arith, after), refl)
