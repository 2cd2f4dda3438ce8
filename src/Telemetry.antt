-- ===== src/Telemetry.antt =====
-- pkg/otel/otel.go and pkg/metrics/metrics.go. The OpenTelemetry packages are parameters.
use go_payment.Prelude.{ℤ, pos, String, Option, none, some}
use go_payment.Errors.{wrapped}
use go_payment.Exec.{Result, ok, err, Exec, pure, fail, attempt, or_wrapped, doing, ◌>>=◌, ◌>>◌}

-- The calls of Setup: resource.New, the two exporters' New, the making and setting of the tracer
-- provider (with the propagator) and of the meter provider, and their Shutdown.
pub record Sdk (S : Type 0) : Type 0 where
  pub new_resource : String → Exec S (Unit {0})
  pub new_trace_exporter : String → Exec S (Unit {0})
  pub set_tracer_provider : S → S
  pub new_metric_exporter : String → Exec S (Unit {0})
  pub set_meter_provider : S → S
  pub shutdown_tracer_provider : Exec S (Unit {0})
  pub shutdown_meter_provider : Exec S (Unit {0})

-- The first of two errors.
abbrev pub first_error : Result (Unit {0}) → Result (Unit {0}) → Result (Unit {0})
first_error (err e) r = err e
first_error (ok _) r = r

module _ {S : Type 0} (sdk : Sdk S) where
  -- The function that Setup returns.
  unfoldable pub shutdown : Exec S (Unit {0})
  shutdown s =
      let (first, s1) = sdk.shutdown_meter_provider s in
      let (second, s2) = sdk.shutdown_tracer_provider s1 in (first_error first second, s2)

  -- A metric exporter that is not made takes the tracer provider down.
  abbrev pub or_tracer_down : Result (Unit {0}) → Exec S (Unit {0})
  or_tracer_down (ok _) = pure tt
  or_tracer_down (err e) = do
    _ ← attempt sdk.shutdown_tracer_provider
    fail (wrapped "otel metric exporter: " e "")

  unfoldable pub setup : String → String → Exec S (Exec S (Unit {0}))
  setup service endpoint = do
    r ← attempt (sdk.new_resource service)
    or_wrapped "otel resource: " r
    t ← attempt (sdk.new_trace_exporter endpoint)
    or_wrapped "otel trace exporter: " t
    doing sdk.set_tracer_provider
    m ← attempt (sdk.new_metric_exporter endpoint)
    or_tracer_down m
    doing sdk.set_meter_provider
    pure shutdown

-- metric.Meter, as NewTransferMetrics and the counters use it; a counter is its name.
pub record Meter (S : Type 0) : Type 0 where
  pub int64_counter : String → Exec S (Unit {0})
  pub add : String → ℤ → S → S

pub record TransferMetrics : Type 0 where
  pub created : String
  pub failed : String

-- `meter_of` is otel.Meter.
unfoldable pub new_transfer_metrics :
    {S : Type 0} → (String → Meter S) → String → Exec S TransferMetrics
new_transfer_metrics meter_of service = do
  c ← attempt ((meter_of service).int64_counter "transfer_created_total")
  or_wrapped "counter created: " c
  f ← attempt ((meter_of service).int64_counter "transfer_failed_total")
  or_wrapped "counter failed: " f
  pure (record { created = "transfer_created_total"; failed = "transfer_failed_total" })

-- The methods of a *TransferMetrics that may be nil.
module _ {S : Type 0} (meter : Meter S) where
  unfoldable pub created : Option TransferMetrics → S → S
  created none s = s
  created (some m) s = meter.add m.created (pos 1) s

  unfoldable pub failed : Option TransferMetrics → S → S
  failed none s = s
  failed (some m) s = meter.add m.failed (pos 1) s
