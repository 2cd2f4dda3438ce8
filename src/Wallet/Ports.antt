-- ===== src/Wallet/Ports.antt =====
-- internal/wallet/ports/repository.go: what the wallet service asks of its repository.
use go_payment.Prelude.{String, Option, ℤ}
use go_payment.Exec.{Exec}
use go_payment.Uuid.{Uuid}
use go_payment.Wallet.Domain.{Wallet, Balance, LedgerEntry}

pub record WalletRepository (S : Type 0) : Type 0 where
  pub create_wallet : Wallet → Exec S (Unit {0})
  pub get_wallet : Uuid → Exec S Wallet
  pub get_balance : Uuid → Exec S Balance
  -- the pair (entry, ok) is an Option
  pub get_entry_by_idempotency : String → Exec S (Option LedgerEntry)
  -- wallet, expected version, new balance, entry
  pub mutate_balance : Uuid → ℤ → ℤ → LedgerEntry → Exec S (Unit {0})
