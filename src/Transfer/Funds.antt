-- ===== src/Transfer/Funds.antt =====
-- The two wallet calls of a transfer, all the way down: the client with its circuit, the gRPC server
-- of the wallet service, the service and its tables. Here every call of the database is served, no
-- other session writes, and the transport hands each answer over.
pub mod Moves
pub mod Compensation
pub mod Conservation
pub mod Samples
mod Tests
use go_payment.Prelude.{◌≡◌, ap, String, true, some, ℤ, if◌then◌else◌}
use go_payment.Errors.{GoError, Code, status}
use go_payment.Exec.{Result, ok, err}
use go_payment.Breaker
use go_payment.Breaker.{Circuit}
use go_payment.Database.{Session}
use go_payment.Uuid.{UuidPackage, Source, Time}
use go_payment.Wallet.Server
use go_payment.Wallet.Service.{MutateResult, debit_wallet, credit_wallet}
use go_payment.Wallet.Tables.{WalletDb}
use go_payment.Wallet.Postgres.{pg_repo}
use go_payment.Transfer.WalletClient.{Stub, Calling, FromError, counts, by_code, debit, credit}

-- Documented of status.FromError: it reads what status.Error made.
abbrev pub ReadsStatus : FromError → Type 0
ReadsStatus from_error = (c : Code) (m : String) → from_error (status c m) ≡ some (c, m)

module _ (uuid : UuidPackage) (from_error : FromError) (src : String → Source) where
  -- The stub over a transport that reaches the server; each key draws its own ids and times.
  abbrev pub loopback : Stub (Session WalletDb)
  loopback = record {
    debit = λ q. Server.debit uuid pg_repo (src q.idempotency_key) q;
    credit = λ q. Server.credit uuid pg_repo (src q.idempotency_key) q;
  }

  abbrev pub at : Circuit → Time → Session WalletDb → Calling (Session WalletDb)
  at c now s = record { circuit = c; now = now; remote = s }

  -- What the client's caller sees of an error of the wallet service.
  abbrev pub seen_error : GoError → GoError
  seen_error e = by_code (Server.map_err e) (from_error (Server.map_err e))

  module _ (wallet_id : String) (amount : ℤ) (transfer_id key : String) (c : Circuit) (now : Time)
      (s s' : Session WalletDb) (closed : Breaker.allow now c ≡ true) where
    pub debit_done :
        (r : MutateResult)
        → debit_wallet uuid pg_repo (src key) wallet_id amount transfer_id key s ≡ (ok r, s')
        → debit from_error loopback wallet_id amount transfer_id key (at c now s)
          ≡ (ok tt, at (Breaker.success c) now s')
    unfolding debit Server.debit
    debit_done r h = rw (closed, h)

    pub credit_done :
        (r : MutateResult)
        → credit_wallet uuid pg_repo (src key) wallet_id amount transfer_id key s ≡ (ok r, s')
        → credit from_error loopback wallet_id amount transfer_id key (at c now s)
          ≡ (ok tt, at (Breaker.success c) now s')
    unfolding credit Server.credit
    credit_done r h = rw (closed, h)

    abbrev reported : GoError → Circuit
    reported e = if counts (from_error (Server.map_err e)) then Breaker.failure now c else c

    pub debit_failed :
        (e : GoError)
        → debit_wallet uuid pg_repo (src key) wallet_id amount transfer_id key s ≡ (err e, s')
        → debit from_error loopback wallet_id amount transfer_id key (at c now s)
          ≡ (err (seen_error e), at (reported e) now s')
    unfolding debit Server.debit
    debit_failed e h = rw (closed, h)

    pub credit_failed :
        (e : GoError)
        → credit_wallet uuid pg_repo (src key) wallet_id amount transfer_id key s ≡ (err e, s')
        → credit from_error loopback wallet_id amount transfer_id key (at c now s)
          ≡ (err (seen_error e), at (reported e) now s')
    unfolding credit Server.credit
    credit_failed e h = rw (closed, h)
