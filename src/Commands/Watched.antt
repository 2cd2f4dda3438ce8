-- ===== src/Commands/Watched.antt =====
-- A process with two flags beside it: whether its migrations have succeeded, and whether anything was
-- started that serves before. What an operation may do to the flags, as triples.
use go_payment.Prelude.{◌≡◌, Bool, true, false, ◌||◌, not}
use go_payment.Exec.{Result, ok, err, Exec}
use go_payment.Telemetry.{Sdk}
use go_payment.Migrate.{Goose}
use go_payment.Commands.{Host, ended, with_deferred}

-- `bare`: something has been started that serves, and the migrations had not succeeded.
pub record Watched (T : Type 0) : Type 0 where
  pub inner : T
  pub migrated : Bool
  pub bare : Bool

abbrev pub is_ok : Result (Unit {0}) → Bool
is_ok (ok _) = true
is_ok (err e) = false

module _ {T : Type 0} where
  abbrev pub quietly : {A : Type 0} → Exec T A → Exec (Watched T) A
  quietly m w = let (r, t) = m w.inner in (r, record w { inner = t })

  abbrev pub silently : (T → T) → Watched T → Watched T
  silently f w = record w { inner = f w.inner }

  abbrev pub migrating : Exec T (Unit {0}) → Exec (Watched T) (Unit {0})
  migrating m w =
      let (r, t) = m w.inner in (r, record w { inner = t; migrated = w.migrated || is_ok r })

  abbrev pub serving : (T → T) → Watched T → Watched T
  serving f w = record w { inner = f w.inner; bare = w.bare || not w.migrated }

  abbrev pub watched_sdk : Sdk T → Sdk (Watched T)
  watched_sdk sdk = record {
    new_resource = λ s. quietly (sdk.new_resource s);
    new_trace_exporter = λ e. quietly (sdk.new_trace_exporter e);
    set_tracer_provider = silently sdk.set_tracer_provider;
    new_metric_exporter = λ e. quietly (sdk.new_metric_exporter e);
    set_meter_provider = silently sdk.set_meter_provider;
    shutdown_tracer_provider = quietly sdk.shutdown_tracer_provider;
    shutdown_meter_provider = quietly sdk.shutdown_meter_provider;
  }

  abbrev pub watched_goose : Goose T → Goose (Watched T)
  watched_goose g = record {
    open_db = λ url. quietly (g.open_db url);
    close = silently g.close;
    set_dialect = λ d. quietly (g.set_dialect d);
    set_base_fs = λ fsys. silently (g.set_base_fs fsys);
    up = λ dir. migrating (g.up dir);
  }

  abbrev pub watched_host : {P : Type 0} → Host P T → Host P (Watched T)
  watched_host h = record {
    open_pool = λ url. quietly (h.open_pool url);
    close_pool = silently h.close_pool;
    dial = λ addr. quietly (h.dial addr);
    close_conn = λ addr. silently (h.close_conn addr);
    ping_postgres = h.ping_postgres;
    ping_redis = h.ping_redis;
    start_http = λ addr checkers. serving (h.start_http addr checkers);
    start_gateway = λ addr. serving (h.start_gateway addr);
    start_grpc = serving h.start_grpc;
    start_worker = serving h.start_worker;
    start_consumer = serving h.start_consumer;
    listen = λ addr. quietly (h.listen addr);
    close_publisher = silently h.close_publisher;
    close_reader = silently h.close_reader;
    wait = silently h.wait;
    graceful_stop = silently h.graceful_stop;
    shutdown_http = quietly h.shutdown_http;
  }

  abbrev pub Idle : Watched T → Type 0
  Idle w = w.bare ≡ false

  abbrev pub Ready : Watched T → Type 0
  Ready w = (w.bare ≡ false) × (w.migrated ≡ true)

  -- After an error nothing may have been served bare.
  abbrev pub Ends : {A : Type 0} → (A → Watched T → Type 0) → Result A → Watched T → Type 0
  Ends post (ok a) w = post a w
  Ends post (err e) w = Idle w

  abbrev pub Triple :
      {A : Type 0} → (Watched T → Type 0) → Exec (Watched T) A → (A → Watched T → Type 0) → Type 0
  Triple pre m post = (w : Watched T) → pre w → Ends post (m w).0 (m w).1

  deferred-Ends :
      {A : Type 0} (f : T → T) (r : Result A) (w : Watched T)
      → Ends (λ a. Ready) r w
      → Ends (λ a. Ready) (ended (silently f) r w).0 (ended (silently f) r w).1
  deferred-Ends f (ok a) w h = h
  deferred-Ends f (err e) w h = h

  pub deferred-Ready :
      {A : Type 0} (f : T → T) (m : Exec (Watched T) A)
      → Triple Ready m (λ a. Ready)
      → Triple Ready (with_deferred (silently f) m) (λ a. Ready)
  deferred-Ready f m h w ready = deferred-Ends f (m w).0 (m w).1 (h w ready)
