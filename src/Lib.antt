-- ===== src/Lib.antt =====
-- A wallet application: accounts, deposits, withdrawals and transfers.
--
-- The program is three Go services. api-gateway turns HTTP requests into gRPC calls;
-- auth-service registers and logs in users; wallet-service stores accounts and transactions in
-- Postgres. A transaction is requested over gRPC: the request takes the lock of its account in Redis
-- and is stored as a row of transaction_outbox. A relay claims such rows in batches and publishes
-- them to Kafka. The consumer loop of wallet-service hands each message to the handler of its event
-- type, which stores a pending row of transactions, moves the funds by recomputing balances from
-- the completed rows, writes the final status, and frees the lock.
--
-- Models: the stored rows and enumerations of shared/pkg/models/model.go.
-- Errors: Go errors by their first cause; the text that wraps them is dropped.
-- Store: the database as a record of tables, statements as a monad of errors and state, and the
--   transaction of shared/db/client.go (`transact` for WithTransaction, `autocommit` for one
--   statement).
-- Ledger: reconcileBalance of wallet-service/internal/repository/wallet_repository.go
--   (`reconcile_balance`), with its query (`ledger_balance`).
-- Repository: TransferFunds, DepositFunds, WithdrawFunds, CreatePendingTransaction and
--   UpdateTransactionStatus of the same file (`transfer_funds` and so on).
-- Cache: shared/cache/client.go, with Redis as a store of entries that expire.
-- Wallet: deposit, withdraw and transfer of
--   wallet-service/internal/services/wallet-serice.go (`deposit_handler` and so on);
--   Wallet.Accounts has OpenAccount and GetBalance, Wallet.Listing has ListTransactions.
-- Outbox: the outbox methods of wallet_repository.go; Outbox.Relay the relay of
--   wallet-service/internal/services/outbox_relay_service.go.
-- Messages: the requests of wallet-service/internal/infra/grpc/grpc.go, the dispatcher of
--   wallet-service/internal/services/event_dispatcher.go, the Handle...Dispatched methods, and one
--   turn of the consumer loop of shared/events/kafka.go.
-- System: the wallet service as one transition system, whose events are requests, relay batches,
--   deliveries, openings of accounts and reads of balances, and the bank that it implements.
-- Auth: auth-service/internal/repository/auth-repository.go, with the service of
--   auth-service/internal/services/auth_service.go: Auth.Login (LoginUser), Auth.Register
--   (RegisterUser, and the gRPC calls of auth-service/internal/infra/grpc/grpc.go), Auth.Validation
--   (auth-service/internal/utils/validations.go).
-- Session: the tokens of shared/pkg/session/session.go.
-- Protocol: the messages of shared/proto/wallet.proto and shared/proto/auth.proto.
-- Rpc: the calls of wallet-service/internal/infra/grpc/grpc.go on these messages, with
--   wallet-service/internal/mapping/mapper.go.
-- Messaging: the connection of shared/events/kafka.go, and its loop that fetches messages.
-- Environment: shared/env/env.go.
-- Gateway: api-gateway. Gateway.Mapping is its mapper, Gateway.Services its services,
--   Gateway.Controllers its controllers, Gateway.Middleware its middleware, and Gateway.Routes the
--   routes of api-gateway/cmd/main.go. A request is answered by `serve`; its services call the
--   functions of Rpc and Auth.Register through a connection that may fail (`call`).
-- Retry: shared/retry/retry.go.
-- Base: numbers, tables and texts that these share; Base.Decimal is strconv, Base.Float the
--   float64 of an integer, Base.Regex a matcher for regular expressions. Tests: theorems at concrete inputs.
--
-- Database driver, Redis, Kafka, JSON, bcrypt and JWT are not under the repository. Which of their
-- calls fail is an argument: a `Faults` answers for each call of one repository method, and
-- `CacheFaults` for each call of the cache client. A commit that fails is taken not to have
-- committed. Encoding, decoding, publishing, comparing and hashing passwords, and signing are
-- functions in the records `Publisher`, `Decoder`, `BodyDecoder`, `Crypto`, `RegisterEnv` and `Jwt`
-- (with `JwtLaws`, what golang-jwt documents), the tables of Go's package unicode are the record
-- `Unicode`, and ids that the uuid library makes are arguments.
--
-- Times and lifetimes are whole seconds, except in Retry. Amounts are integers; the sum of a ledger
-- is unbounded, as in SQL, and must fit an int64 where it is read. The payload of an outbox row is an
-- object of texts and numbers, and each number becomes a float64 when the row is scanned (Base.Float). Loops over rows, attempts and
-- pages are structural. Fuel stands in `walk`, the client that follows page tokens, for which one
-- page more than the transactions of the account is enough, and in `digits`, where 20 digits are
-- enough for an int64.
--
-- Each repository method is one step on the database. OpenAccount, whose two methods other requests
-- can come between, takes the database in which it reads and the one into which it inserts. The
-- methods of any other call follow each other without an interruption. The goroutines of a relay
-- batch run one after
-- the other. Rows that SQL returns in an order that it leaves open come in one fixed order.
--
-- The text of an answer's error is named by the error. The multiplexer of net/http is a search of the
-- routes by method and path, without the cleaning of paths.
--
-- Not modelled: the set-up of the connections to Postgres, Redis and gRPC, logging, start-up and shutdown, which only call
-- libraries; generated code; scripts and test suites; the stubs that nothing calls (UpdateAccount of
-- the wallet service, AuthorizeUser and RefreshToken of the auth service,
-- TransferFundsWithEmailNotification of the gateway, auth-service/internal/utils/session.go).
pub mod Base
pub mod Models
pub mod Errors
pub mod Store
pub mod Ledger
pub mod Repository
pub mod Cache
pub mod Wallet
pub mod Outbox
pub mod Messages
pub mod Auth
pub mod Retry
pub mod Session
pub mod Protocol
pub mod Rpc
pub mod Messaging
pub mod Environment
pub mod Gateway
pub mod System
mod Tests
