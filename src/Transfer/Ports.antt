-- ===== src/Transfer/Ports.antt =====
-- internal/transfer/ports/ports.go
use go_payment.Prelude.{String, Option, ℤ}
use go_payment.Exec.{Exec}
use go_payment.Outbox.{Event}
use go_payment.Uuid.{Uuid}
use go_payment.Transfer.Domain.{Transfer}

pub record TransferRepository (S : Type 0) : Type 0 where
  -- the pair (transfer, ok) is an Option
  pub get_by_idempotency_key : String → Exec S (Option Transfer)
  pub get_by_id : Uuid → Exec S Transfer
  pub insert_completed_with_outbox : Transfer → Event → Exec S (Unit {0})

-- wallet, amount, transfer, idempotency key
pub record WalletClient (S : Type 0) : Type 0 where
  pub debit : String → ℤ → String → String → Exec S (Unit {0})
  pub credit : String → ℤ → String → String → Exec S (Unit {0})

pub record IdempotencyCache (S : Type 0) : Type 0 where
  pub get : String → Exec S (Option String)
  pub set : String → String → Exec S (Unit {0})
