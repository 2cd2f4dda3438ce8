-- ===== src/Transfer/WalletClient.antt =====
-- internal/transfer/adapters/walletclient/client.go. The generated gRPC stub and status.FromError are
-- parameters.
use go_payment.Prelude.{String, Bool, true, false, Option, none, some, ℤ, pos, if◌then◌else◌}
use go_payment.Errors.{GoError, Sentinel, sentinel, Code}
use go_payment.Exec.{Result, ok, err, Exec}
use go_payment.Breaker
use go_payment.Breaker.{Circuit}
use go_payment.Uuid.{Time}
use go_payment.Wallet.Server.{MutateRequest, MutateResponse}
use go_payment.Transfer.Ports.{WalletClient}

-- walletv1.WalletServiceClient, as far as the client calls it
pub record Stub (S : Type 0) : Type 0 where
  pub debit : MutateRequest → Exec S MutateResponse
  pub credit : MutateRequest → Exec S MutateResponse

-- The client's circuit beside the state of what it calls; `now` is the clock.
pub record Calling (S : Type 0) : Type 0 where
  pub circuit : Circuit
  pub now : Time
  pub remote : S

-- New: breaker.New(5, 0)
abbrev pub new_circuit : Circuit
new_circuit = Breaker.new (pos 5) (pos 0)

-- the code of status.FromError(err), if it is a status error
abbrev pub FromError : Type 0
FromError = GoError → Option (Code × String)

abbrev pub by_code : GoError → Option (Code × String) → GoError
by_code e none = e
by_code e (some (Code.failed_precondition, _)) = sentinel Sentinel.insufficient_funds
by_code e (some (Code.not_found, _)) = sentinel Sentinel.not_found
by_code e (some (Code.invalid_argument, _)) = sentinel Sentinel.invalid_argument
by_code e (some (_, _)) = e

-- Unavailable or DeadlineExceeded
abbrev pub counts : Option (Code × String) → Bool
counts none = false
counts (some (Code.unavailable, _)) = true
counts (some (Code.deadline_exceeded, _)) = true
counts (some (_, _)) = false

module _ {S : Type 0} (from_error : FromError) (stub : Stub S) where
  unfoldable pub map_err : GoError → GoError
  map_err e = by_code e (from_error e)

  unfoldable pub finish : Result MutateResponse → Exec (Calling S) (Unit {0})
  unfolding map_err
  finish (ok _) c = (ok tt, record c { circuit = Breaker.success c.circuit })
  finish (err e) c = (
    err (map_err e),
    record c {
      circuit = if counts (from_error e) then Breaker.failure c.now c.circuit else c.circuit;
    },
  )

  abbrev pub called : Exec S MutateResponse → Exec (Calling S) (Unit {0})
  called m c = let (r, remote) = m c.remote in finish r (record c { remote = remote })

  unfoldable pub guarded : Exec S MutateResponse → Exec (Calling S) (Unit {0})
  unfolding finish
  guarded m c =
      if Breaker.allow c.now c.circuit
      then called m c
      else (err (sentinel Sentinel.circuit_open), c)

  unfoldable pub debit : String → ℤ → String → String → Exec (Calling S) (Unit {0})
  unfolding guarded
  debit wallet_id amount transfer_id key = guarded (
      stub.debit (record {
        wallet_id = wallet_id;
        amount_minor = amount;
        transfer_id = transfer_id;
        idempotency_key = key;
      }))

  unfoldable pub credit : String → ℤ → String → String → Exec (Calling S) (Unit {0})
  unfolding guarded
  credit wallet_id amount transfer_id key = guarded (
      stub.credit (record {
        wallet_id = wallet_id;
        amount_minor = amount;
        transfer_id = transfer_id;
        idempotency_key = key;
      }))

  abbrev pub client : WalletClient (Calling S)
  client = record { debit = debit; credit = credit }
