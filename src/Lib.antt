-- ===== src/Lib.antt =====
-- The payment platform (adel-safin/go-payment): identity, wallet, transfer and notification services
-- behind an HTTP gateway.
--
-- The gateway (internal/gateway/httpapi) checks bearer tokens (pkg/auth) and calls the services by
-- gRPC. The wallet service (internal/wallet) keeps balances under optimistic locking and a ledger of
-- entries with idempotency keys. The transfer service (internal/transfer) debits one wallet and
-- credits another through a client with a circuit breaker (pkg/breaker), and stores the transfer
-- together with an outbox event. The outbox worker (pkg/outbox) publishes the events to Kafka
-- (pkg/kafka), and the notification service (internal/notification) consumes them once per event id.
-- The identity service (internal/identity) registers users and issues the tokens.
--
-- How code is modelled. An operation is a function of its arguments and its state that returns a
-- `Result` and the next state (Exec). uuid.New, time.Now and the like are arguments; contexts and
-- log lines are left out, as are nil receivers. Errors are values with what errors.Is, errors.As
-- and status.FromError read of them (Errors: pkg/errors and the sentinels of the domain packages).
-- An int64 is an integer, with `wrap64` where the code adds or subtracts. A UUID is a number.
--
-- The database (Database). A session is the tables and a schedule: for each call of the database,
-- what the other sessions do to the tables before it and whether it is served, refused, or carried
-- out with its answer lost. A transaction is one such step: its statements run on the tables after the
-- others, and its effects stand when the commit is served. `quiet` is the schedule with no other
-- session and no failure. The constraints of db/migrations are the guards of the statements (Tables).
--
-- The files, by the code that they model:
--   Wallet.Domain, Wallet.Service, Wallet.Ports, Wallet.Server: internal/wallet/domain, app
--     (NewWallet, ApplyCredit, mutate, ...), ports and adapters/grpc
--   Wallet.Postgres, Wallet.Tables: internal/wallet/adapters/postgres/repo.go on
--     db/migrations/wallet
--   Wallet.Ledger: the invariant of the wallet tables, and what each statement and transaction does
--     to it; Wallet.Contract: what a client may rely on of a repository; Wallet.Guarantee,
--     Wallet.Idempotency, Wallet.Concurrency, Wallet.Replies, Wallet.Retries, Wallet.Quiet,
--     Wallet.Total, Wallet.Currency: the service on it; Wallet.Books: what the service promises without
--     its tables, a quotient of lists of changes with one operation, and the refinement
--   Transfer.Domain, Transfer.Ports, Transfer.Service, Transfer.Server: internal/transfer/domain,
--     ports, app and adapters/grpc; Transfer.Cache: adapters/redis; Transfer.WalletClient:
--     adapters/walletclient; Transfer.Postgres, Transfer.Tables: adapters/postgres on
--     db/migrations/transfer; Transfer.Funds: the two wallet calls down to the wallet tables;
--     Transfer.Service.Begun, Transfer.Service.Retry, Transfer.Service.Replay, Transfer.Service.Race:
--     Create called again after a failure, after a success, and at the same time;
--     Transfer.Service.Outcomes: all that one call can come to
--   Outbox: pkg/outbox; Outbox.Delivery, Outbox.Rows, Outbox.Drain, Outbox.Single: the worker on the
--     tables of the transfer service; Breaker: pkg/breaker; Kafka, Kafka.Reader: pkg/kafka
--   Notification.Service, Notification.Postgres, Notification.Consumer: internal/notification;
--     Notification.Once, Notification.Commits, Notification.Stream: one event, and the loop over a list
--     of messages; Notification.Stream.Restart: what a restart gets, by the offsets committed
--   Identity.Domain, Identity.Text, Identity.Service, Identity.Postgres, Identity.Server:
--     internal/identity; Identity.Token: pkg/auth/jwt.go
--   Gateway.Handler, Gateway.Respond: internal/gateway/httpapi; Gateway.Access: the routes behind the
--     middleware; Gateway.Schema: the shape of the handlers' answers
--   Config: pkg/config; Health: pkg/health; Logger: pkg/logger; Telemetry: pkg/otel and pkg/metrics;
--     Migrate: pkg/migrate
--   Commands: the mains of cmd, from the configuration to the shutdown
--   Platform: what cmd/gateway, cmd/transfer and cmd/wallet put together: the gateway on the transfer
--     and the wallet server, these on their tables, with redis and the client's circuit between
--     them; Platform.Create, Platform.Requests, Platform.Overdraft, Platform.After,
--     Platform.Completes: a POST of a transfer through all of it; Platform.Notified: on to the worker,
--     the topic and the consumer
--   Seed: scripts/seed; Seed.Fails: the script against the gateway
--   Prelude, Exec, Uuid, Samples: shared names, integers, the monad, ids, and data for tests
--
-- Bounds. The retry loop of the wallet runs on its own bound of 8 attempts and the publisher on its 3;
-- a tick takes 50 events. The consumer's loop and the worker's have no end in the code: their models run for
-- a given number of rounds; the consumer's says when they are used up, and the worker's theorem says how
-- many are enough.
--
-- Parameters: google/uuid, bcrypt, the lower case of a character, the JWT library, status.FromError,
-- the redis and Kafka clients, the propagator of trace contexts, the environment, the HTTP client of
-- the seed script, the OpenTelemetry packages, goose. Hypotheses on them stand where a theorem uses
-- them (`ReadsBack`, `ReadsStatus`, `HonoursKeys`, `IsLawful`, `ReadsSet`, `ReadsByGet`, `IsRange`,
-- `TakesAll`, `Reaches`). Between the services a call is answered by the server's handler, and its
-- status error arrives as it was sent.
--
-- Not modelled: chi's answers to a path or a method without a route (404, 405) and its Recoverer's to
-- a panic (500), what goroutines, listeners and signals do once they are started, generated code, the
-- embedding of the migration files, and the intervals of tickers. The structs that only hold a
-- service's collaborators and their constructors are the parameters of its sections.
pub mod Prelude
pub mod Errors
pub mod Exec
pub mod Database
pub mod Uuid
pub mod Samples
pub mod Wallet
pub mod Breaker
pub mod Outbox
pub mod Transfer
pub mod Kafka
pub mod Notification
pub mod Identity
pub mod Gateway
pub mod Platform
pub mod Seed
pub mod Commands
pub mod Config
pub mod Health
pub mod Logger
pub mod Telemetry
pub mod Migrate
