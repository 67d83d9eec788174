-- ===== src/Messaging.antt =====
-- The connection of shared/events/kafka.go, with the producer and the consumer of
-- wallet-service/internal/infra/kafka. What the Kafka client answers is an argument.
pub mod Fetching
use wallet_app.Base.{
  ℕ, ◌*◌, String, Bool, true, false, not, List, [], ◌∷◌, ◌++◌, map, concat, ltb, if◌then◌else◌,
}
use wallet_app.Errors.{Error, Result, ok, err, no_brokers, not_connected, publish_failed}
use wallet_app.Retry.{default_config, with_backoff}
use wallet_app.Wallet.{World}
use wallet_app.Messages.Consumer.{Broker, BrokerFaults, Message, Run, consume_message}

-- `KafkaMessaging`: is there a writer, and the topics that have a reader.
pub record KafkaMessaging : Type 0 where
  pub brokers : List String
  pub group_id : String
  pub has_writer : Bool
  pub readers : List String

-- `NewKafkaMessagingInstance`
unfoldable pub new_kafka_messaging : String → List String → Result KafkaMessaging
new_kafka_messaging group [] = err no_brokers
new_kafka_messaging group (b ∷ bs) =
    ok (record { brokers = b ∷ bs; group_id = group; has_writer = false; readers = [] })

-- What comes of an attempt to connect: both calls must go through.
unfoldable pub dial :
    (dials : ℕ → Result (Unit {0})) (finds_brokers : ℕ → Result (Unit {0})) → ℕ → Result (Unit {0})
dial dials finds_brokers attempt = elim (dials attempt) [
  | ok _ ↦ finds_brokers attempt
  | err e ↦ err e
]

unfoldable pub connected : Result (Unit {0}) → KafkaMessaging → Result (Unit {0}) × KafkaMessaging
connected (ok _) k = (ok tt, record k { has_writer = true })
connected (err e) k = (err e, k)

-- `Connect`
unfoldable pub connect :
    (dials : ℕ → Result (Unit {0})) (finds_brokers : ℕ → Result (Unit {0})) (is_done : ℕ → Bool)
    → KafkaMessaging
    → Result (Unit {0}) × KafkaMessaging
connect dials finds_brokers is_done k =
    connected (with_backoff default_config (dial dials finds_brokers) is_done).0 k

-- A message of a topic, with its headers.
pub record Record : Type 0 where
  pub topic : String
  pub key : String
  pub value : String
  pub headers : List (String × String)

-- A write through the writer, if there is one.
unfoldable pub write_message :
    Bool → KafkaMessaging → Record → List Record → Result (Unit {0}) × List Record
write_message write_fails k r log =
    if not k.has_writer
    then (err not_connected, log)
    else if write_fails
    then (err publish_failed, log)
    else (ok tt, log ++ r ∷ [])

-- `PublishMessage`, and `Publish` of the producer
unfoldable pub publish_message :
    Bool → KafkaMessaging → String → String → String → List Record → Result (Unit {0}) × List Record
publish_message write_fails k topic key value =
    write_message write_fails k (record { topic = topic; key = key; value = value; headers = [] })

-- `AppendToDlq`
unfoldable pub append_to_dlq :
    Bool
    → KafkaMessaging
    → String
    → String
    → String
    → String
    → List Record
    → Result (Unit {0}) × List Record
append_to_dlq write_fails k topic key value reason = write_message write_fails k (record {
  topic = concat topic ".dlq";
  key = key;
  value = value;
  headers = ("x-failure-reason", reason) ∷ ("x-source-topic", topic) ∷ [];
})

-- `CloseConnection`: the errors of all that is closed.
unfoldable pub close_all : (String → Result (Unit {0})) → List String → List Error
close_all close [] = []
close_all close (topic ∷ topics) =
    let rest = close_all close topics in elim (close topic) [ ok _ ↦ rest | err e ↦ e ∷ rest ]

unfoldable pub close_writer : Bool → Result (Unit {0}) → List Error → List Error
close_writer true (err e) errors = e ∷ errors
close_writer _ _ errors = errors

unfoldable pub close_connection :
    Result (Unit {0}) → (String → Result (Unit {0})) → KafkaMessaging → List Error
close_connection writer close k = close_writer k.has_writer writer (close_all close k.readers)

-- What `FetchMessage` answers: a message with what the broker will answer about it, an error that
-- says that the reader is closed, or another error, with the state of the context in the wait.
pub data Fetch : Type 0 where
  fetched : BrokerFaults → Message → Fetch
  closed : Fetch
  fails : (context_ended : Bool) → Fetch

-- `backoff *= 2`, and the cap of 30 seconds.
unfoldable pub next_backoff : ℕ → ℕ
next_backoff backoff = if ltb 30 (backoff * 2) then 30 else backoff * 2

abbrev pub waited : ℕ → (World × Broker) × List ℕ → (World × Broker) × List ℕ
waited seconds (state, waits) = (state, seconds ∷ waits)

-- The loop of `ConsumeMessage` over what is fetched: the state it leaves, and its waits in seconds.
unfoldable pub consume :
    (String → World → Run × World) → List Fetch → ℕ → World × Broker → (World × Broker) × List ℕ
consume handler [] backoff state = (state, [])
consume handler (fetched faults m ∷ rest) backoff (w, b) =
    consume handler rest 1 (consume_message faults handler m w b)
consume handler (closed ∷ rest) backoff state = (state, [])
consume handler (fails true ∷ rest) backoff state = (state, backoff ∷ [])
consume handler (fails false ∷ rest) backoff state =
    waited backoff (consume handler rest (next_backoff backoff) state)
