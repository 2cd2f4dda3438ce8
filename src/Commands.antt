-- ===== src/Commands.antt =====
-- The five processes: cmd/wallet, cmd/identity, cmd/transfer, cmd/notification and cmd/gateway. What
-- the libraries do (connections, listeners, goroutines, signals) is a parameter. An error stands for
-- os.Exit(1), which runs no deferred call. What the wired services do when they are called is in
-- their own modules and in Platform.
pub mod Watched
pub mod Migrated
mod Tests
use go_payment.Prelude.{String}
use go_payment.Exec.{Result, ok, err, Exec, pure, attempt, doing, ◌>>=◌, ◌>>◌}
use go_payment.Health.{Checker, Checkers, register, new}
use go_payment.Config.{Environment, Config, load}
use go_payment.Telemetry.{Sdk, setup}
use go_payment.Migrate.{Goose, up_fs}

-- `P` is the state that the probes look at.
pub record Host (P S : Type 0) : Type 0 where
  -- pool.Ping and the client's Ping of redis
  pub ping_postgres : Checker P
  pub ping_redis : Checker P
  -- pgxpool.New and Close
  pub open_pool : String → Exec S (Unit {0})
  pub close_pool : S → S
  -- grpc.NewClient and Close, by address
  pub dial : String → Exec S (Unit {0})
  pub close_conn : String → S → S
  -- the goroutines: ListenAndServe, Serve, Worker.Run and Runner.Run
  pub start_http : String → Checkers P → S → S
  pub start_gateway : String → S → S
  pub start_grpc : S → S
  pub start_worker : S → S
  pub start_consumer : S → S
  -- net.Listen
  pub listen : String → Exec S (Unit {0})
  -- NewReliablePublisher and NewReader only fill in records; their Close
  pub close_publisher : S → S
  pub close_reader : S → S
  -- <-ctx.Done(): a signal has come or a goroutine has called stop
  pub wait : S → S
  pub graceful_stop : S → S
  pub shutdown_http : Exec S (Unit {0})

-- The deferred call runs when main returns.
abbrev pub ended : {S A : Type 0} → (S → S) → Result A → Exec S A
ended last (ok a) s = (ok a, last s)
ended last (err e) s = (err e, s)

abbrev pub with_deferred : {S A : Type 0} → (S → S) → Exec S A → Exec S A
with_deferred last m s = let (r, s') = m s in ended last r s'

-- A telemetry that could not be set up has a shutdown that does nothing.
abbrev pub shutdown_of : {S : Type 0} → Result (Exec S (Unit {0})) → Exec S (Unit {0})
shutdown_of (ok shutdown) = shutdown
shutdown_of (err e) = pure tt

module _ {P S : Type 0} (env : Environment) (sdk : Sdk S) (goose : Goose S) (host : Host P S) where
  -- health.New and its Register
  abbrev pub postgres_checked : Checkers P
  postgres_checked = register "postgres" host.ping_postgres new

  -- The end of every main, with the errors dropped.
  abbrev pub shut_down : Result (Exec S (Unit {0})) → Exec S (Unit {0})
  shut_down telemetry = do
    _ ← attempt host.shutdown_http
    _ ← attempt (shutdown_of telemetry)
    pure tt

  -- The servers of a gRPC service and the wait for their end.
  unfoldable pub serve_grpc : Checkers P → Config → Result (Exec S (Unit {0})) → Exec S (Unit {0})
  serve_grpc checkers cfg telemetry = do
    doing (host.start_http cfg.http_addr checkers)
    host.listen cfg.grpc_addr
    doing host.start_grpc
    doing host.wait
    doing host.graceful_stop
    shut_down telemetry

  -- How the four processes with a database begin; `fsys` names their embedded migrations.
  unfoldable pub started :
      String
      → String
      → (Config → Result (Exec S (Unit {0})) → Exec S (Unit {0}))
      → Exec S (Unit {0})
  started service fsys rest = do
    let cfg = load env service
    telemetry ← attempt (setup sdk cfg.service_name cfg.otlp_endpoint)
    up_fs goose cfg.database_url fsys "."
    host.open_pool cfg.database_url
    with_deferred host.close_pool (rest cfg telemetry)

  abbrev pub wallet_main : Exec S (Unit {0})
  wallet_main = started "wallet" "walletmigrations" (serve_grpc postgres_checked)

  abbrev pub identity_main : Exec S (Unit {0})
  identity_main = started "identity" "identitymigrations" (serve_grpc postgres_checked)

  -- With the outbox worker beside the servers.
  unfoldable pub serve_transfer : Config → Result (Exec S (Unit {0})) → Exec S (Unit {0})
  serve_transfer cfg telemetry = do
    host.dial cfg.wallet_grpc_addr
    with_deferred (host.close_conn cfg.wallet_grpc_addr) (
        with_deferred host.close_publisher (do
          doing host.start_worker
          serve_grpc (register "redis" host.ping_redis postgres_checked) cfg telemetry))

  abbrev pub transfer_main : Exec S (Unit {0})
  transfer_main = started "transfer" "transfermigrations" serve_transfer

  unfoldable pub serve_notification : Config → Result (Exec S (Unit {0})) → Exec S (Unit {0})
  serve_notification cfg telemetry = with_deferred host.close_reader (do
    doing (host.start_http cfg.http_addr postgres_checked)
    doing host.start_consumer
    doing host.wait
    shut_down telemetry)

  abbrev pub notification_main : Exec S (Unit {0})
  notification_main = started "notification" "notificationmigrations" serve_notification

  -- A connection that is not made leaves its client nil; the others go on.
  abbrev pub with_dialed : String → Exec S (Unit {0}) → Result (Unit {0}) → Exec S (Unit {0})
  with_dialed addr rest (ok _) = with_deferred (host.close_conn addr) rest
  with_dialed addr rest (err e) = rest

  unfoldable pub gateway_main : Exec S (Unit {0})
  gateway_main = do
    let cfg = load env "gateway"
    telemetry ← attempt (setup sdk cfg.service_name cfg.otlp_endpoint)
    host.dial cfg.identity_grpc
    with_deferred (host.close_conn cfg.identity_grpc) (do
      w ← attempt (host.dial cfg.wallet_grpc_addr)
      with_dialed cfg.wallet_grpc_addr
          (do
            t ← attempt (host.dial cfg.transfer_grpc)
            with_dialed cfg.transfer_grpc
                (do doing (host.start_gateway cfg.http_addr); doing host.wait; shut_down telemetry)
                t)
          w)
