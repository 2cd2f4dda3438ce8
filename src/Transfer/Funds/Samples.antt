-- ===== src/Transfer/Funds/Samples.antt =====
-- Concrete data for the tests and the witnesses: two wallets, a request and its transfer.
use go_payment.Prelude.{refl, String, none, some, [], ◌∷◌, ℤ, pos}
use go_payment.Errors.{status}
use go_payment.Exec.{pure}
use go_payment.Database.{Session}
use go_payment.Samples.{unary, counting, length_of}
use go_payment.Breaker.{Circuit}
use go_payment.Uuid.{Uuid, Source}
use go_payment.Wallet.Domain.{Balance}
use go_payment.Wallet.Tables.{WalletDb}
use go_payment.Transfer.Domain.{Transfer, pending}
use go_payment.Transfer.Ports.{TransferRepository, IdempotencyCache}
use go_payment.Transfer.Service.{CreateRequest}
use go_payment.Transfer.WalletClient.{FromError, Calling}
use go_payment.Transfer.Funds.{ReadsStatus}

abbrev pub from_error : FromError
from_error (status c m) = some (c, m)
from_error e = none

pub from_error-ReadsStatus : ReadsStatus from_error
from_error-ReadsStatus c m = refl

-- Each key draws ids from its length up.
abbrev pub draws : String → Source
draws key = counting (length_of key)

abbrev pub circuit : Circuit
circuit = record { failures = 0; threshold = 3; open_until = 0; cooldown = 10 }

abbrev pub row : Uuid → ℤ → ℤ → Balance
row id balance version = record { wallet_id = id; balance_minor = balance; version = version }

abbrev pub two_wallets : WalletDb
two_wallets = record {
  wallets =
      record { id = 7; user_id = 1; currency = "RUB"; created_at = 1 }
      ∷ record { id = 8; user_id = 2; currency = "RUB"; created_at = 2 }
      ∷ [];
  account_balances = row 7 (pos 1000) (pos 1) ∷ row 8 (pos 0) (pos 0) ∷ [];
  ledger_entries = [];
}

abbrev pub request : CreateRequest
request = record {
  from_id = unary 7;
  to_id = unary 8;
  amount = pos 300;
  currency = "";
  key = "k";
  user_id = unary 1;
}

abbrev pub transfer : Transfer
transfer = record {
  id = 5;
  from_wallet_id = 7;
  to_wallet_id = 8;
  amount_minor = pos 300;
  currency = "RUB";
  status = pending;
  user_id = 1;
  idempotency_key = "k";
  created_at = 3;
  updated_at = 3;
}

-- move_funds calls neither of these.
abbrev pub no_repo : TransferRepository (Calling (Session WalletDb))
no_repo = record {
  get_by_idempotency_key = λ k. pure none;
  get_by_id = λ id. pure transfer;
  insert_completed_with_outbox = λ tr ev. pure tt;
}

abbrev pub no_cache : IdempotencyCache (Calling (Session WalletDb))
no_cache = record { get = λ k. pure none; set = λ k v. pure tt }
