-- ===== src/Wallet/Samples.antt =====
-- The tables of one wallet with one credit, for the runs.
use go_payment.Prelude.{refl, String, [], ◌∷◌, ℤ, pos, ◌+ℤ◌, arith}
use go_payment.Samples.{unary_uuid, unary, counting}
use go_payment.Wallet.Domain.{credit, Wallet, Balance, LedgerEntry}
use go_payment.Wallet.Tables.{WalletDb, find_balance, find_entry, find_wallet, has_entry_id}
use go_payment.Wallet.Ledger.{IsConsistent, credited, debited}
use go_payment.Wallet.Replies.{Accepted, Room}

abbrev pub row : ℤ → ℤ → Balance
row balance version = record { wallet_id = 7; balance_minor = balance; version = version }

abbrev pub wallet : Wallet
wallet = record { id = 7; user_id = 1; currency = "RUB"; created_at = 100 }

abbrev pub first_entry : LedgerEntry
first_entry = record {
  id = 20;
  wallet_id = 7;
  transfer_id = 3;
  type = credit;
  amount_minor = pos 1000;
  idempotency_key = "c1";
  created_at = 20;
}

abbrev pub funded : WalletDb
funded = record {
  wallets = wallet ∷ [];
  account_balances = row (pos 1000) (pos 1) ∷ [];
  ledger_entries = first_entry ∷ [];
}

abbrev pub AcceptedOf : (amount : ℤ) (key : String) → Type 0
AcceptedOf amount key = Accepted unary_uuid (unary 7) amount (unary 3) key 7 3

pub of_300 : AcceptedOf (pos 300) "d1"
of_300 = record { reads_wallet = refl; reads_transfer = refl; positive = refl; has_key = refl }

pub room : Room (counting 40) "d1" 7 (row (pos 1000) (pos 1)) funded
unfolding find_entry has_entry_id find_wallet ◌+ℤ◌
room = (refl, refl, refl, ground arith, ground arith)

pub funded-IsConsistent : IsConsistent funded
unfolding find_balance credited debited find_entry
funded-IsConsistent = record { backed = λ w. ground arith; keys = (refl, tt) }
