-- ===== src/Transfer/Service.antt =====
-- internal/transfer/app/service.go
pub mod Begun
pub mod Retry
pub mod Replay
pub mod Race
pub mod Outcomes
use Prim.Native.String.{◌++◌}
use go_payment.Prelude.{String, Bool, true, false, Option, none, some, ℤ, str_eq, if◌then◌else◌}
use go_payment.Errors.{GoError, Sentinel, sentinel}
use go_payment.Exec.{
  Result, ok, err, Exec, pure, fail, lift, attempt, fail_if, or_fail, ◌>>=◌, ◌>>◌,
}
use go_payment.Outbox.{Event, TransferCompleted, json}
use go_payment.Uuid.{Uuid, Time, UuidPackage}
use go_payment.Transfer.Domain.{Transfer, completed, status_text, new_transfer}
use go_payment.Transfer.Ports.{TransferRepository, WalletClient, IdempotencyCache}

abbrev pub bad_argument : GoError
bad_argument = sentinel Sentinel.invalid_argument

pub record CreateResult : Type 0 where
  pub transfer : Transfer
  pub idempotent_replay : Bool

-- What one call of Create draws from uuid.New (transfer and event) and from time.Now.
pub record Draw : Type 0 where
  pub transfer_id : Uuid
  pub event_id : Uuid
  pub created : Time
  pub updated : Time
  pub event_created : Time

pub record CreateRequest : Type 0 where
  pub from_id : String
  pub to_id : String
  pub amount : ℤ
  pub currency : String
  pub key : String
  pub user_id : String

-- "RUB" where no currency is given
abbrev pub or_rub : String → String
or_rub c = if str_eq c "" then "RUB" else c

module _ (uuid : UuidPackage) where
  abbrev pub debit_key : Uuid → String
  debit_key id = "transfer:" ++ uuid.to_string id ++ ":debit"

  abbrev pub credit_key : Uuid → String
  credit_key id = "transfer:" ++ uuid.to_string id ++ ":credit"

  abbrev pub compensation_key : Uuid → String
  compensation_key id = debit_key id ++ ":compensate"

  abbrev pub finished : Draw → Transfer → Transfer
  finished draw tr = record tr { status = completed; updated_at = draw.updated }

  abbrev pub payload_of : Transfer → TransferCompleted
  payload_of tr = record {
    transfer_id = uuid.to_string tr.id;
    from_wallet_id = uuid.to_string tr.from_wallet_id;
    to_wallet_id = uuid.to_string tr.to_wallet_id;
    amount_minor = tr.amount_minor;
    currency = tr.currency;
    user_id = uuid.to_string tr.user_id;
    status = status_text tr.status;
  }

  abbrev pub event_of : Draw → Transfer → Event
  event_of draw tr = record {
    id = draw.event_id;
    aggregate_type = "transfer";
    aggregate_id = uuid.to_string tr.id;
    event_type = "transfer.completed";
    payload = json (payload_of tr);
    created_at = draw.event_created;
    published_at = none;
  }

module _ {S : Type 0} (uuid : UuidPackage) (repo : TransferRepository S) (wallet : WalletClient S)
    (cache : IdempotencyCache S) where
  -- The cache knows the key: the transfer with the id that it holds.
  unfoldable pub replay_cached : GoError → String → Exec S CreateResult
  replay_cached parse_error id = do
    tid ← or_fail (uuid.parse id) parse_error
    tr ← repo.get_by_id tid
    pure (record { transfer = tr; idempotent_replay = true })

  -- The repository knows the key.
  unfoldable pub replay_stored : String → Transfer → Exec S CreateResult
  replay_stored key existing = do
    _ ← attempt (cache.set key (uuid.to_string existing.id))
    pure (record { transfer = existing; idempotent_replay = true })

  -- A failed credit: the debit is compensated, and the error of that is dropped.
  unfoldable pub credited_or_compensated :
      CreateRequest → Transfer → Result (Unit {0}) → Exec S (Unit {0})
  credited_or_compensated q tr (ok _) = pure tt
  credited_or_compensated q tr (err e) = do
    _ ←
        attempt
          (wallet.credit q.from_id q.amount (uuid.to_string tr.id) (compensation_key uuid tr.id))
    fail e

  -- The two wallet calls of a transfer.
  unfoldable pub move_funds : CreateRequest → Transfer → Exec S (Unit {0})
  unfolding credited_or_compensated
  move_funds q tr = do
    wallet.debit q.from_id q.amount (uuid.to_string tr.id) (debit_key uuid tr.id)
    r ← attempt (wallet.credit q.to_id q.amount (uuid.to_string tr.id) (credit_key uuid tr.id))
    credited_or_compensated q tr r

  -- A new key.
  unfoldable pub create_new : Draw → CreateRequest → Exec S CreateResult
  unfolding move_funds
  create_new draw q = do
    from ← or_fail (uuid.parse q.from_id) bad_argument
    to ← or_fail (uuid.parse q.to_id) bad_argument
    uid ← or_fail (uuid.parse q.user_id) bad_argument
    tr ←
        lift (
          new_transfer draw.transfer_id draw.created from to q.amount (or_rub q.currency) q.key uid)
    move_funds q tr
    let done = finished uuid draw tr
    repo.insert_completed_with_outbox done (event_of uuid draw done)
    _ ← attempt (cache.set q.key (uuid.to_string done.id))
    pure (record { transfer = done; idempotent_replay = false })

  unfoldable pub create_uncached : Draw → CreateRequest → Option Transfer → Exec S CreateResult
  unfolding create_new replay_stored
  create_uncached draw q (some existing) = replay_stored q.key existing
  create_uncached draw q none = create_new draw q

  unfoldable pub create_looked_up :
      GoError → Draw → CreateRequest → Option String → Exec S CreateResult
  unfolding create_uncached replay_cached
  create_looked_up parse_error draw q (some id) = replay_cached parse_error id
  create_looked_up parse_error draw q none = do
    existing ← repo.get_by_idempotency_key q.key
    create_uncached draw q existing

  -- Service.Create; `parse_error` is the error of uuid.Parse on a cached id that is no UUID.
  unfoldable pub create : GoError → Draw → CreateRequest → Exec S CreateResult
  unfolding create_looked_up
  create parse_error draw q = do
    fail_if (str_eq q.key "") bad_argument
    cached ← cache.get q.key
    create_looked_up parse_error draw q cached

  unfoldable pub get : String → Exec S Transfer
  get id = do tid ← or_fail (uuid.parse id) bad_argument; repo.get_by_id tid
