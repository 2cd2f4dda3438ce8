-- ===== src/Transfer/Domain.antt =====
-- internal/transfer/domain/transfer.go
use go_payment.Prelude.{String, ℤ, pos, leb_ℤ, ◌==◌, ◌||◌, str_eq, if◌then◌else◌}
use go_payment.Errors.{sentinel, same_wallet, invalid_transfer}
use go_payment.Exec.{Result, ok, err}
use go_payment.Uuid.{Uuid, Time}

-- A string type in the source: `other` is any other value.
pub data Status : Type 0 where
  pending completed failed : Status
  other : String → Status

-- string(status)
abbrev pub status_text : Status → String
status_text pending = "pending"
status_text completed = "completed"
status_text failed = "failed"
status_text (other s) = s

pub record Transfer : Type 0 where
  pub id : Uuid
  pub from_wallet_id : Uuid
  pub to_wallet_id : Uuid
  pub amount_minor : ℤ
  pub currency : String
  pub status : Status
  pub user_id : Uuid
  pub idempotency_key : String
  pub created_at : Time
  pub updated_at : Time

-- NewTransfer; uuid.New and time.Now are its first two arguments.
unfoldable pub new_transfer :
    Uuid → Time → Uuid → Uuid → ℤ → String → String → Uuid → Result Transfer
new_transfer id now from to amount currency key user =
    if from == to
    then err (sentinel same_wallet)
    else if leb_ℤ amount (pos 0)
    then err (sentinel invalid_transfer)
    else if str_eq currency "" || str_eq key ""
    then err (sentinel invalid_transfer)
    else ok (record {
      id = id;
      from_wallet_id = from;
      to_wallet_id = to;
      amount_minor = amount;
      currency = currency;
      status = pending;
      user_id = user;
      idempotency_key = key;
      created_at = now;
      updated_at = now;
    })
