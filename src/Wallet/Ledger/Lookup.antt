-- ===== src/Wallet/Ledger/Lookup.antt =====
-- How the lookups and the sums change when a row is added or updated.
use go_payment.Prelude.{
  ◌≡◌, String, Option, none, some, List, [], ◌∷◌, ◌++◌, ℤ, pos, ◌+ℤ◌, ◌==◌, ◌||◌, str_eq, eq_iff,
  arith, if◌then◌else◌,
}
use go_payment.Uuid.{Uuid}
use go_payment.Wallet.Domain.{Balance, LedgerEntry}
use go_payment.Wallet.Tables.{find_balance, find_entry, has_entry_id, set_balance}

abbrev pub or_else {ℓ} : {A : Type ℓ} → Option A → Option A → Option A
or_else none b = b
or_else (some a) b = some a

pub find_balance-append :
    (w : Uuid) (b : Balance) (bs : List Balance)
    → find_balance w (bs ++ b ∷ [])
      ≡ or_else (find_balance w bs) (if b.wallet_id == w then some b else none)
unfolding find_balance
find_balance-append w b [] = ground arith
find_balance-append w b (x ∷ bs) = ground (arith, find_balance-append w b bs)

pub find_entry-append :
    (k : String) (e : LedgerEntry) (es : List LedgerEntry)
    → find_entry k (es ++ e ∷ [])
      ≡ or_else (find_entry k es) (if str_eq e.idempotency_key k then some e else none)
unfolding find_entry
find_entry-append k e [] = ground arith
find_entry-append k e (x ∷ es) = ground (arith, find_entry-append k e es)

pub has_entry_id-append :
    (id : Uuid) (e : LedgerEntry) (es : List LedgerEntry)
    → has_entry_id id (es ++ e ∷ []) ≡ (has_entry_id id es || (e.id == id))
unfolding has_entry_id
has_entry_id-append id e [] = ground arith
has_entry_id-append id e (x ∷ es) = ground (arith, has_entry_id-append id e es)

abbrev pub stepped : ℤ → Balance → Balance
stepped new b = record b { balance_minor = new; version = b.version +ℤ pos 1 }

abbrev pub step_row : ℤ → Option Balance → Option Balance
step_row new none = none
step_row new (some b) = some (stepped new b)

pub find_balance-set_balance :
    (w id : Uuid) (new : ℤ) (bs : List Balance)
    → find_balance w (set_balance id new bs)
      ≡ (if id == w then step_row new (find_balance w bs) else find_balance w bs)
unfolding find_balance set_balance
find_balance-set_balance w id new [] = ground arith
find_balance-set_balance w id new (b ∷ bs) = ground (arith, find_balance-set_balance w id new bs)

-- A row that is found is the wallet's.
pub find_balance-wallet_id :
    (w : Uuid) (b : Balance) (bs : List Balance) → find_balance w bs ≡ some b → b.wallet_id ≡ w
unfolding find_balance
find_balance-wallet_id w b [] h = ground arith
find_balance-wallet_id w b (x ∷ bs) h = ground (arith, find_balance-wallet_id w b bs)

-- An entry that is found has the key.
pub find_entry-key :
    (k : String) (e : LedgerEntry) (es : List LedgerEntry)
    → find_entry k es ≡ some e
    → e.idempotency_key ≡ k
unfolding find_entry
find_entry-key k e [] h = ground arith
find_entry-key k e (x ∷ es) h = ground (arith, find_entry-key k e es, eq_iff x.idempotency_key k)
