-- ===== src/Commands/Tests.antt =====
-- Runs of three mains: what is called, in order, when all goes well, when a migration fails, and when
-- the gateway does not reach the wallet service.
use go_payment.Prelude.{◌≡◌, if◌then◌else◌, str_eq, refl, false, String, none, List, [], ◌∷◌, ◌++◌}
use go_payment.Errors.{plain, wrapped}
use go_payment.Exec.{Result, ok, err, Exec, pure, fail}
use go_payment.Config.{Environment, load}
use go_payment.Telemetry.{Sdk, setup, shutdown}
use go_payment.Migrate.{Goose, up_fs}
use go_payment.Commands.Watched.{Watched, watched_sdk, watched_goose, watched_host}
use go_payment.Commands.Migrated.{serves_migrated}
use go_payment.Commands.{
  Host, identity_main, transfer_main, notification_main, wallet_main, started, serve_grpc,
  serve_transfer, gateway_main,
}

-- The state is the list of the calls so far.
abbrev Log : Type 0
Log = List String

abbrev note : String → Log → Log
note call log = log ++ call ∷ []

abbrev call : String → Exec Log (Unit {0})
call name log = (ok tt, note name log)

abbrev environment : Environment
environment = record { getenv = λ key. ""; parse_duration = λ v. none; atoi = λ v. none }

abbrev sdk : Sdk Log
sdk = record {
  new_resource = λ service. pure tt;
  new_trace_exporter = λ endpoint. pure tt;
  set_tracer_provider = note "tracer";
  new_metric_exporter = λ endpoint. pure tt;
  set_meter_provider = note "meter";
  shutdown_tracer_provider = call "tracer down";
  shutdown_meter_provider = call "meter down";
}

abbrev goose : Result (Unit {0}) → Goose Log
goose r = record {
  open_db = λ url. pure tt;
  close = λ log. log;
  set_dialect = λ d. pure tt;
  set_base_fs = λ fsys log. log;
  up = λ dir log. (r, note "migrate" log);
}

abbrev host : Host (Unit {0}) Log
host = record {
  open_pool = λ url. call "pool";
  close_pool = note "pool closed";
  dial = λ addr. call "dial";
  close_conn = λ addr. note "closed";
  ping_postgres = λ p. ok tt;
  ping_redis = λ p. ok tt;
  start_http = λ addr checkers. note "http";
  start_gateway = λ addr. note "gateway";
  start_grpc = note "grpc";
  start_worker = note "worker";
  start_consumer = note "consumer";
  listen = λ addr. call "listen";
  close_publisher = note "publisher closed";
  close_reader = note "reader closed";
  wait = note "stopped";
  graceful_stop = note "grpc down";
  shutdown_http = call "http down";
}

all_well : wallet_main environment sdk (goose (ok tt)) host [] ≡ (
  ok tt,
  "tracer" ∷ "meter" ∷ "migrate" ∷ "pool" ∷ "http" ∷ "listen" ∷ "grpc" ∷ "stopped" ∷ "grpc down"
      ∷ "http down" ∷ "meter down" ∷ "tracer down" ∷ "pool closed" ∷ [],
)
unfolding started serve_grpc up_fs setup shutdown
all_well = refl

no_migration :
    wallet_main environment sdk (goose (err (plain "down"))) host []
    ≡ (err (wrapped "goose up fs: " (plain "down") ""), "tracer" ∷ "meter" ∷ "migrate" ∷ [])
unfolding started up_fs setup
no_migration = refl

transfer_well : transfer_main environment sdk (goose (ok tt)) host [] ≡ (
  ok tt,
  "tracer" ∷ "meter" ∷ "migrate" ∷ "pool" ∷ "dial" ∷ "worker" ∷ "http" ∷ "listen" ∷ "grpc"
      ∷ "stopped" ∷ "grpc down" ∷ "http down" ∷ "meter down" ∷ "tracer down" ∷ "publisher closed"
      ∷ "closed" ∷ "pool closed" ∷ [],
)
unfolding started serve_transfer serve_grpc up_fs setup shutdown
transfer_well = refl

-- The gateway goes on without the wallet service.
abbrev half_dialed : Host (Unit {0}) Log
half_dialed = record host {
  dial = λ addr. if str_eq addr "localhost:9092" then fail (plain "down") else call "dial";
}

gateway_alone : gateway_main environment sdk (goose (ok tt)) half_dialed [] ≡ (
  ok tt,
  "tracer" ∷ "meter" ∷ "dial" ∷ "dial" ∷ "gateway" ∷ "stopped" ∷ "http down" ∷ "meter down"
      ∷ "tracer down" ∷ "closed" ∷ "closed" ∷ [],
)
unfolding gateway_main load setup shutdown
gateway_alone = refl

serves_migrated_example :
    let w : Watched Log = record { inner = []; migrated = false; bare = false } in
    let s = watched_sdk sdk in
    let g = watched_goose (goose (ok tt)) in
    let h = watched_host host in
    ((wallet_main environment s g h w).1.bare ≡ false)
    × ((identity_main environment s g h w).1.bare ≡ false)
    × ((transfer_main environment s g h w).1.bare ≡ false)
    × ((notification_main environment s g h w).1.bare ≡ false)
serves_migrated_example =
    serves_migrated sdk (goose (ok tt)) host environment
      (record { inner = []; migrated = false; bare = false }) refl
