-- ===== src/Commands/Migrated.antt =====
-- No process serves before its migrations have succeeded.
use go_payment.Prelude.{◌≡◌, refl, String, false, some, inl, inr, arith}
use go_payment.Exec.{Result, ok, err, Exec, Result-cases}
use go_payment.Health.{Checkers, register}
use go_payment.Config.{Environment, Config, load}
use go_payment.Telemetry.{Sdk, setup, shutdown}
use go_payment.Migrate.{Goose, up_fs}
use go_payment.Commands.{
  Host, postgres_checked, with_deferred, started, serve_grpc, serve_transfer, serve_notification,
  shut_down, wallet_main, identity_main, transfer_main, notification_main,
}
use go_payment.Commands.Watched.{
  serving, silently, Watched, watched_sdk, watched_goose, watched_host, Idle, Ready, Ends, Triple,
  deferred-Ready,
}

module _ {P T : Type 0} (sdk : Sdk T) (g : Goose T) (h : Host P T) where
  -- What Setup returns shuts the providers down.
  setup-Idle :
      (service endpoint : String)
      → Triple Idle
          (setup (watched_sdk sdk) service endpoint)
          (λ stop w. (stop ≡ shutdown (watched_sdk sdk)) × Idle w)
  unfolding setup
  setup-Idle service endpoint w idle =
      let t1 = (sdk.new_resource service w.inner).1 in
      let t2 = (sdk.new_trace_exporter endpoint t1).1 in
      elim (Result-cases (sdk.new_resource service w.inner).0) [
        | inr (e, bad) ↦ rw bad idle
        | inl (_, one) ↦ elim (Result-cases (sdk.new_trace_exporter endpoint t1).0) [
          | inr (e, bad) ↦ rw (one, bad) idle
          | inl (_, two) ↦
              elim (Result-cases
                (sdk.new_metric_exporter endpoint (sdk.set_tracer_provider t2)).0) [
                  | inr (e, bad) ↦ rw (one, two, bad) idle
                  | inl (_, three) ↦ rw (one, two, three) (refl, idle)
                ]
        ]
      ]

  up_fs-Ready :
      (url fsys dir : String) → Triple Idle (up_fs (watched_goose g) url fsys dir) (λ u. Ready)
  unfolding up_fs
  up_fs-Ready url fsys dir w idle =
      let t1 = (g.open_db url w.inner).1 in
      let t2 = (g.set_dialect "postgres" t1).1 in
      elim (Result-cases (g.open_db url w.inner).0) [
        | inr (e, bad) ↦ rw bad idle
        | inl (_, one) ↦ elim (Result-cases (g.set_dialect "postgres" t1).0) [
          | inr (e, bad) ↦ rw (one, bad) idle
          | inl (_, two) ↦ elim (Result-cases (g.up dir (g.set_base_fs (some fsys) t2)).0) [
            | inr (e, bad) ↦ rw (one, two, bad) idle
            | inl (_, three) ↦ rw (one, two, three) (idle, ground arith)
          ]
        ]
      ]

  -- A telemetry that was set up, or was not.
  abbrev IsSetUp : Result (Exec (Watched T) (Unit {0})) → Type 0
  IsSetUp (ok stop) = stop ≡ shutdown (watched_sdk sdk)
  IsSetUp (err e) = Unit

  shut_down-Ready :
      (env : Environment) (t : Result (Exec (Watched T) (Unit {0})))
      → IsSetUp t
      → Triple Ready
          (shut_down env (watched_sdk sdk) (watched_goose g) (watched_host h) t)
          (λ u. Ready)
  unfolding shutdown
  shut_down-Ready env (ok stop) is w ready = rw is ready
  shut_down-Ready env (err e) is w ready = ready

  serve_grpc-Ready :
      (env : Environment) (checkers : Checkers P) (cfg : Config)
      (t : Result (Exec (Watched T) (Unit {0})))
      → IsSetUp t
      → Triple Ready
          (serve_grpc env (watched_sdk sdk) (watched_goose g) (watched_host h) checkers cfg t)
          (λ u. Ready)
  unfolding serve_grpc
  serve_grpc-Ready env checkers cfg t is w ready =
      elim (Result-cases (h.listen cfg.grpc_addr (h.start_http cfg.http_addr checkers w.inner)).0) [
        | inr (e, bad) ↦ rw bad (ground (arith, ready.0, ready.1))
        | inl (_, good) ↦
            rw good (shut_down-Ready env t is _ (ground (arith, ready.0, ready.1), ready.1))
      ]

  abbrev checked : Environment → Checkers P
  checked env = postgres_checked env (watched_sdk sdk) (watched_goose g) (watched_host h)

  serve_transfer-Ready :
      (env : Environment) (cfg : Config) (t : Result (Exec (Watched T) (Unit {0})))
      → IsSetUp t
      → Triple Ready
          (serve_transfer env (watched_sdk sdk) (watched_goose g) (watched_host h) cfg t)
          (λ u. Ready)
  unfolding serve_transfer
  serve_transfer-Ready env cfg t is w ready =
      elim (Result-cases (h.dial cfg.wallet_grpc_addr w.inner).0) [
        | inr (e, bad) ↦ rw bad ready.0
        | inl (_, good) ↦ rw good (with_worker _ ready)
      ]
    where
      all_checked : Checkers P
      all_checked = register "redis" h.ping_redis (checked env)

      body : Exec (Watched T) (Unit {0})
      body w =
          serve_grpc env (watched_sdk sdk) (watched_goose g) (watched_host h) all_checked cfg t
            (serving h.start_worker w)

      with_worker :
          Triple Ready
            (with_deferred
              (silently (h.close_conn cfg.wallet_grpc_addr))
              (with_deferred (silently h.close_publisher) body))
            (λ u. Ready)
      with_worker =
          deferred-Ready (h.close_conn cfg.wallet_grpc_addr)
            (with_deferred (silently h.close_publisher) body)
            (deferred-Ready h.close_publisher body (λ w ready.
              serve_grpc-Ready env all_checked cfg t is (serving h.start_worker w)
                (ground (arith, ready.0, ready.1), ready.1)))

  serve_notification-Ready :
      (env : Environment) (cfg : Config) (t : Result (Exec (Watched T) (Unit {0})))
      → IsSetUp t
      → Triple Ready
          (serve_notification env (watched_sdk sdk) (watched_goose g) (watched_host h) cfg t)
          (λ u. Ready)
  unfolding serve_notification
  serve_notification-Ready env cfg t is w ready =
      shut_down-Ready env t is
        (silently h.wait
          (serving h.start_consumer (serving (h.start_http cfg.http_addr (checked env)) w)))
        (ground (arith, ready.0, ready.1), ready.1)

  set_up :
      (r : Result (Exec (Watched T) (Unit {0}))) (w : Watched T)
      → Ends (λ stop w. (stop ≡ shutdown (watched_sdk sdk)) × Idle w) r w
      → IsSetUp r × Idle w
  set_up (ok stop) w h = h
  set_up (err e) w h = (tt, h)

  started-Ready :
      (env : Environment) (service fsys : String)
      (rest : Config → Result (Exec (Watched T) (Unit {0})) → Exec (Watched T) (Unit {0}))
      → ((cfg : Config) (t : Result (Exec (Watched T) (Unit {0})))
          → IsSetUp t
          → Triple Ready (rest cfg t) (λ u. Ready))
      → Triple Idle
          (started env (watched_sdk sdk) (watched_goose g) (watched_host h) service fsys rest)
          (λ u. Ready)
  unfolding started
  started-Ready env service fsys rest ready w idle =
      let cfg = load env service in
      let t = setup (watched_sdk sdk) cfg.service_name cfg.otlp_endpoint w in
      let m = up_fs (watched_goose g) cfg.database_url fsys "." t.1 in
      let (is, still) = set_up t.0 t.1 (setup-Idle cfg.service_name cfg.otlp_endpoint w idle) in
      let after = up_fs-Ready cfg.database_url fsys "." t.1 still in
      elim (Result-cases m.0) [
        | inr (e, bad) ↦ rw bad (rw bad at after)
        | inl (_, good) ↦
            let now : Ready m.1 = rw good at after in
            elim (Result-cases (h.open_pool cfg.database_url m.1.inner).0) [
              | inr (e, bad) ↦ rw (good, bad) now.0
              | inl (_, opened) ↦
                  rw (good, opened) (deferred-Ready h.close_pool _ (ready cfg t.0 is) _ now)
            ]
      ]

  never_bare : (r : Result (Unit {0})) (w : Watched T) → Ends (λ u. Ready) r w → w.bare ≡ false
  never_bare (ok u) w h = h.0
  never_bare (err e) w h = h

  started_bare :
      (env : Environment) (service fsys : String)
      (rest : Config → Result (Exec (Watched T) (Unit {0})) → Exec (Watched T) (Unit {0}))
      → ((cfg : Config) (t : Result (Exec (Watched T) (Unit {0})))
          → IsSetUp t
          → Triple Ready (rest cfg t) (λ u. Ready))
      → (w : Watched T) → w.bare ≡ false
      → (started env
          (watched_sdk sdk)
          (watched_goose g)
          (watched_host h)
          service
          fsys
          rest
          w).1.bare
        ≡ false
  started_bare env service fsys rest ready w idle =
      never_bare _ _ (started-Ready env service fsys rest ready w idle)

  -- Whatever the environment is and whichever calls of the libraries fail, the main of the
  -- wallet, identity, transfer and notification process starts no listener, worker or consumer
  -- before its migrations have succeeded.
  pub serves_migrated :
      (env : Environment) (w : Watched T)
      → w.bare ≡ false
      → ((wallet_main env (watched_sdk sdk) (watched_goose g) (watched_host h) w).1.bare ≡ false)
        × ((identity_main env (watched_sdk sdk) (watched_goose g) (watched_host h) w).1.bare
            ≡ false)
        × ((transfer_main env (watched_sdk sdk) (watched_goose g) (watched_host h) w).1.bare
            ≡ false)
        × ((notification_main env (watched_sdk sdk) (watched_goose g) (watched_host h) w).1.bare
            ≡ false)
  serves_migrated env w idle = (
    started_bare env "wallet" "walletmigrations"
        (serve_grpc env (watched_sdk sdk) (watched_goose g) (watched_host h) (checked env))
        (serve_grpc-Ready env (checked env)) w idle,
    started_bare env "identity" "identitymigrations"
        (serve_grpc env (watched_sdk sdk) (watched_goose g) (watched_host h) (checked env))
        (serve_grpc-Ready env (checked env)) w idle,
    started_bare env "transfer" "transfermigrations"
        (serve_transfer env (watched_sdk sdk) (watched_goose g) (watched_host h))
        (serve_transfer-Ready env) w idle,
    started_bare env "notification" "notificationmigrations"
        (serve_notification env (watched_sdk sdk) (watched_goose g) (watched_host h))
        (serve_notification-Ready env) w idle,
  )
