-- ===== src/Wallet/Ledger.antt =====
-- What the wallet tables promise: every balance is the sum of its ledger entries, and a key stands
-- on one entry. `Extends` is what a transaction of any session may do to them.
pub mod Lookup
pub mod Statements
pub mod Transactions
pub mod Sessions
pub mod Calls
use go_payment.Prelude.{
  ℕ, ◌+◌, ◌^◌, ◌<◌, ◌≡◌, refl, String, Option, none, some, List, [], ◌∷◌, ℤ, pos, pos_part,
  neg_part, ◌≤ℤ◌, ◌==◌, if◌then◌else◌,
}
use go_payment.Uuid.{Uuid}
use go_payment.Wallet.Domain.{EntryType, debit, credit, other, Balance, LedgerEntry}
use go_payment.Wallet.Tables.{WalletDb, find_balance, find_entry}

abbrev pub credit_part : EntryType → ℤ → ℕ
credit_part credit a = pos_part a
credit_part debit a = 0
credit_part (other _) a = 0

abbrev pub debit_part : EntryType → ℤ → ℕ
debit_part credit a = 0
debit_part debit a = pos_part a
debit_part (other _) a = 0

-- The sum of the credits of a wallet, and of its debits.
unfoldable pub credited : Uuid → List LedgerEntry → ℕ
credited w [] = 0
credited w (e ∷ es) =
    (if e.wallet_id == w then credit_part e.type e.amount_minor else 0) + credited w es

unfoldable pub debited : Uuid → List LedgerEntry → ℕ
debited w [] = 0
debited w (e ∷ es) =
    (if e.wallet_id == w then debit_part e.type e.amount_minor else 0) + debited w es

-- A balance row is not negative, fits an int64 and is the credits less the debits; a wallet
-- without a row has neither.
abbrev pub Backed : Option Balance → ℕ → ℕ → Type 0
Backed none c d = (c ≡ 0) × (d ≡ 0)
Backed (some b) c d =
    (neg_part b.balance_minor ≡ 0)
    × (pos_part b.balance_minor < 2 ^ 63)
    × (pos_part b.balance_minor + d ≡ c)

abbrev pub UniqueKeys : List LedgerEntry → Type 0
UniqueKeys [] = Unit
UniqueKeys (e ∷ es) = (find_entry e.idempotency_key es ≡ none) × UniqueKeys es

pub record IsConsistent (d : WalletDb) : Type 0 where
  pub backed :
      (w : Uuid)
      → Backed
          (find_balance w d.account_balances)
          (credited w d.ledger_entries)
          (debited w d.ledger_entries)
  pub keys : UniqueKeys d.ledger_entries

-- The row of a wallet after a row that was read before: its version has not gone back, and at the
-- same version it has the same balance.
abbrev pub Follows : Balance → Option Balance → Type 0
Follows b none = ⊥
Follows b (some b') =
    (b.version ≤ℤ b'.version) × (b'.version ≡ b.version → b'.balance_minor ≡ b.balance_minor)

pub record Extends (d d' : WalletDb) : Type 0 where
  pub consistent : IsConsistent d → IsConsistent d'
  pub balances :
      (w : Uuid) (b : Balance)
      → Follows b (find_balance w d.account_balances)
      → Follows b (find_balance w d'.account_balances)
  pub entries :
      (k : String) (e : LedgerEntry)
      → find_entry k d.ledger_entries ≡ some e
      → find_entry k d'.ledger_entries ≡ some e

pub Extends-refl : (d : WalletDb) → Extends d d
Extends-refl d = record { consistent = λ h. h; balances = λ w b h. h; entries = λ k e h. h }

pub Extends-trans : {a b c : WalletDb} → Extends a b → Extends b c → Extends a c
Extends-trans p q = record {
  consistent = λ h. q.consistent (p.consistent h);
  balances = λ w r h. q.balances w r (p.balances w r h);
  entries = λ k e h. q.entries k e (p.entries k e h);
}
