-- ===== src/Wallet/Server.antt =====
-- internal/wallet/adapters/grpc/server.go
use go_payment.Prelude.{String, ℤ, ◌||◌, if◌then◌else◌}
use go_payment.Errors.{GoError, Code, Sentinel, status, is, text}
use go_payment.Exec.{Result, ok, err, Exec, pure, fail, attempt, ◌>>=◌}
use go_payment.Uuid.{Uuid, Time, UuidPackage, Source}
use go_payment.Wallet.Ports.{WalletRepository}
use go_payment.Wallet.Service
use go_payment.Wallet.Service.{MutateResult}

-- mapErr
unfoldable pub map_err : GoError → GoError
map_err e =
    if is e Sentinel.insufficient_funds
    then status Code.failed_precondition (text e)
    else if is e Sentinel.invalid_amount
        || is e Sentinel.invalid_currency
        || is e Sentinel.invalid_argument
    then status Code.invalid_argument (text e)
    else if is e Sentinel.not_found
    then status Code.not_found (text e)
    else if is e Sentinel.already_exists
    then status Code.already_exists (text e)
    else if is e Sentinel.version_conflict
    then status Code.aborted (text e)
    else status Code.internal "internal error"

-- `if err != nil { return nil, mapErr(err) }`
abbrev pub answered : {S A : Type 0} → Result A → Exec S A
answered (ok a) = pure a
answered (err e) = fail (map_err e)

pub record CreateWalletResponse : Type 0 where
  pub wallet_id : String
  pub user_id : String
  pub currency : String

pub record GetBalanceResponse : Type 0 where
  pub wallet_id : String
  pub balance_minor : ℤ
  pub currency : String
  pub version : ℤ

-- CreditRequest and DebitRequest have the same fields, and so have their responses.
pub record MutateRequest : Type 0 where
  pub wallet_id : String
  pub amount_minor : ℤ
  pub transfer_id : String
  pub idempotency_key : String

pub record MutateResponse : Type 0 where
  pub wallet_id : String
  pub balance_minor : ℤ
  pub version : ℤ
  pub entry_id : String

module _ (uuid : UuidPackage) where
  abbrev pub mutate_response : MutateResult → MutateResponse
  mutate_response r = record {
    wallet_id = uuid.to_string r.balance.wallet_id;
    balance_minor = r.balance.balance_minor;
    version = r.balance.version;
    entry_id = uuid.to_string r.entry_id;
  }

module _ {S : Type 0} (uuid : UuidPackage) (repo : WalletRepository S) where
  unfoldable pub create_wallet : Uuid → Time → String → String → Exec S CreateWalletResponse
  create_wallet id now user_id currency = do
    r ← attempt (Service.create_wallet uuid repo id now user_id currency)
    w ← answered r
    pure (record {
      wallet_id = uuid.to_string w.id;
      user_id = uuid.to_string w.user_id;
      currency = w.currency;
    })

  unfoldable pub get_balance : String → Exec S GetBalanceResponse
  get_balance wallet_id = do
    r ← attempt (Service.get_balance uuid repo wallet_id)
    found ← answered r
    pure (record {
      wallet_id = uuid.to_string found.0.wallet_id;
      balance_minor = found.0.balance_minor;
      currency = found.1.currency;
      version = found.0.version;
    })

  unfoldable pub credit : Source → MutateRequest → Exec S MutateResponse
  credit src q = do
    r ← attempt (
        Service.credit_wallet uuid repo src q.wallet_id q.amount_minor q.transfer_id
          q.idempotency_key)
    res ← answered r
    pure (mutate_response uuid res)

  unfoldable pub debit : Source → MutateRequest → Exec S MutateResponse
  debit src q = do
    r ← attempt (
        Service.debit_wallet uuid repo src q.wallet_id q.amount_minor q.transfer_id
          q.idempotency_key)
    res ← answered r
    pure (mutate_response uuid res)
