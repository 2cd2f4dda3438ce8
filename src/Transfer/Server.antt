-- ===== src/Transfer/Server.antt =====
-- internal/transfer/adapters/grpc/server.go
use go_payment.Prelude.{String, Bool, ℤ, ◌||◌, if◌then◌else◌}
use go_payment.Errors.{GoError, Code, Sentinel, status, is, text}
use go_payment.Exec.{Result, ok, err, Exec, pure, fail, attempt, ◌>>=◌}
use go_payment.Uuid.{UuidPackage}
use go_payment.Transfer.Domain.{status_text}
use go_payment.Transfer.Ports.{TransferRepository, WalletClient, IdempotencyCache}
use go_payment.Transfer.Service
use go_payment.Transfer.Service.{Draw, CreateRequest}

-- mapErr
unfoldable pub map_err : GoError → GoError
map_err e =
    if is e Sentinel.insufficient_funds
    then status Code.failed_precondition (text e)
    else if is e Sentinel.same_wallet
        || is e Sentinel.invalid_transfer
        || is e Sentinel.invalid_argument
    then status Code.invalid_argument (text e)
    else if is e Sentinel.not_found
    then status Code.not_found (text e)
    else if is e Sentinel.already_exists
    then status Code.already_exists (text e)
    else status Code.internal "internal error"

abbrev pub answered : {S A : Type 0} → Result A → Exec S A
answered (ok a) = pure a
answered (err e) = fail (map_err e)

pub record CreateTransferResponse : Type 0 where
  pub transfer_id : String
  pub status : String
  pub amount_minor : ℤ
  pub idempotent_replay : Bool

pub record GetTransferResponse : Type 0 where
  pub transfer_id : String
  pub from_wallet_id : String
  pub to_wallet_id : String
  pub amount_minor : ℤ
  pub currency : String
  pub status : String

module _ {S : Type 0} (uuid : UuidPackage) (repo : TransferRepository S) (wallet : WalletClient S)
    (cache : IdempotencyCache S) where
  unfoldable pub create_transfer : GoError → Draw → CreateRequest → Exec S CreateTransferResponse
  create_transfer parse_error draw q = do
    r ← attempt (Service.create uuid repo wallet cache parse_error draw q)
    res ← answered r
    pure (record {
      transfer_id = uuid.to_string res.transfer.id;
      status = status_text res.transfer.status;
      amount_minor = res.transfer.amount_minor;
      idempotent_replay = res.idempotent_replay;
    })

  unfoldable pub get_transfer : String → Exec S GetTransferResponse
  get_transfer id = do
    r ← attempt (Service.get uuid repo wallet cache id)
    tr ← answered r
    pure (record {
      transfer_id = uuid.to_string tr.id;
      from_wallet_id = uuid.to_string tr.from_wallet_id;
      to_wallet_id = uuid.to_string tr.to_wallet_id;
      amount_minor = tr.amount_minor;
      currency = tr.currency;
      status = status_text tr.status;
    })
