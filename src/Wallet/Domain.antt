-- ===== src/Wallet/Domain.antt =====
-- internal/wallet/domain/ledger.go
use Prim.Native.String.{len}
use go_payment.Prelude.{
  String, Bool, ℤ, pos, ◌+ℤ◌, ◌-ℤ◌, ltb_ℤ, leb_ℤ, ◌==ℤ◌, wrap64, ◌==◌, ◌&&◌, ◌||◌, not, str_eq,
  if◌then◌else◌,
}
use go_payment.Errors.{sentinel, invalid_amount, insufficient_funds, invalid_currency}
use go_payment.Exec.{Result, ok, err}
use go_payment.Uuid.{Uuid, Time}

-- A string type in the source: `other` is any third value.
pub data EntryType : Type 0 where
  debit credit : EntryType
  other : String → EntryType

pub record Wallet : Type 0 where
  pub id : Uuid
  pub user_id : Uuid
  pub currency : String
  pub created_at : Time

-- The int64 fields are integers; `wrap64` stands where the code adds.
pub record Balance : Type 0 where
  pub wallet_id : Uuid
  pub balance_minor : ℤ
  pub version : ℤ

pub record LedgerEntry : Type 0 where
  pub id : Uuid
  pub wallet_id : Uuid
  pub transfer_id : Uuid
  pub type : EntryType
  pub amount_minor : ℤ
  pub idempotency_key : String
  pub created_at : Time

-- NewWallet; uuid.New and time.Now are its first two arguments.
unfoldable pub new_wallet : Uuid → Time → Uuid → String → Result Wallet
new_wallet id now user_id currency =
    if str_eq currency "" || not (len currency == 3)
    then err (sentinel invalid_currency)
    else ok (record { id = id; user_id = user_id; currency = currency; created_at = now })

-- ApplyCredit; its callers drop the balance that comes back with an error.
unfoldable pub apply_credit : Balance → ℤ → Result Balance
apply_credit b amount =
    if leb_ℤ amount (pos 0)
    then err (sentinel invalid_amount)
    else ok (record b {
      balance_minor = wrap64 (b.balance_minor +ℤ amount);
      version = wrap64 (b.version +ℤ pos 1);
    })

-- ApplyDebit
unfoldable pub apply_debit : Balance → ℤ → Result Balance
apply_debit b amount =
    if leb_ℤ amount (pos 0)
    then err (sentinel invalid_amount)
    else if ltb_ℤ b.balance_minor amount
    then err (sentinel insufficient_funds)
    else ok (record b {
      balance_minor = wrap64 (b.balance_minor -ℤ amount);
      version = wrap64 (b.version +ℤ pos 1);
    })

-- BalancedPair
unfoldable pub balanced_pair : ℤ → ℤ → Bool
balanced_pair d c = ltb_ℤ (pos 0) d && d ==ℤ c
