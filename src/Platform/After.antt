-- ===== src/Platform/After.antt =====
-- What the wallets need to hold for a transfer to go through, and the platform after it.
use go_payment.Prelude.{◌≢◌, ◌≤ℤ◌, ◌+ℤ◌, ◌-ℤ◌, neg_part, IsInt64, ◌≡◌, String, some}
use go_payment.Breaker
use go_payment.Breaker.{Circuit}
use go_payment.Database.{quiet}
use go_payment.Uuid.{Uuid, Time, UuidPackage, Source}
use go_payment.Wallet.Domain.{Balance}
use go_payment.Wallet.Tables.{WalletDb, find_balance}
use go_payment.Wallet.Replies.{Room}
use go_payment.Wallet.Domain.{debit, credit}
use go_payment.Wallet.Ledger.Transactions.{written}
use go_payment.Transfer.Funds.Moves.{entry}
use go_payment.Transfer.Postgres.Atomic.{with_transfer}
use go_payment.Transfer.Tables.{TransferDb}
use go_payment.Transfer.Cache.{redis_key, ttl, RedisClient}
use go_payment.Transfer.Service.{Draw, CreateRequest, event_of, debit_key, credit_key}
use go_payment.Transfer.WalletClient.{FromError}
use go_payment.Transfer.Funds.{at}
use go_payment.Platform.{System}
use go_payment.Transfer.Service.Begun.{done}

-- Two different wallets with sound rows: the first covers the amount and the second has room for it, and
-- the two entries can be written.
pub record CanMove (uuid : UuidPackage) (src : String → Source) (q : CreateRequest)
    (tid from to : Uuid) (wd : WalletDb) (b_from b_to : Balance) : Type 0 where
  pub row_from : find_balance from wd.account_balances ≡ some b_from
  pub row_to : find_balance to wd.account_balances ≡ some b_to
  pub differ : from ≢ to
  pub room_d : Room (src (debit_key uuid tid)) (debit_key uuid tid) from b_from wd
  pub room_c : Room (src (credit_key uuid tid)) (credit_key uuid tid) to b_to wd
  pub ids : (src (debit_key uuid tid)).id 0 ≢ (src (credit_key uuid tid)).id 0
  pub fits : IsInt64 b_from.balance_minor
  pub covered : q.amount ≤ℤ b_from.balance_minor
  pub nonneg : neg_part b_to.balance_minor ≡ 0
  pub fits_to : IsInt64 (b_to.balance_minor +ℤ q.amount)

-- The platform after a transfer between wallets with these rows.
module _ {R : Type 0} (rdb : RedisClient R) (uuid : UuidPackage) (from_error : FromError)
    (src : String → Source) (draw : Draw) (q : CreateRequest) (d : TransferDb) (wd : WalletDb)
    (keys : R) (c : Circuit) (now : Time) (from to user : Uuid) (b_from b_to : Balance) where
  abbrev pub stored_transfer : TransferDb
  stored_transfer =
      let tr = done uuid draw q from to user in with_transfer tr (event_of uuid draw tr) d

  abbrev pub moved_funds : WalletDb
  moved_funds =
      written (entry src to q.amount draw.transfer_id (credit_key uuid draw.transfer_id) credit)
        (b_to.balance_minor +ℤ q.amount)
        (written (entry src from q.amount draw.transfer_id (debit_key uuid draw.transfer_id) debit)
          (b_from.balance_minor -ℤ q.amount) wd)

  abbrev pub after : System R
  after = record {
    transfers = quiet stored_transfer;
    wallets = at uuid from_error src (Breaker.success (Breaker.success c)) now (quiet moved_funds);
    redis = (rdb.set (redis_key q.key) (uuid.to_string draw.transfer_id) ttl keys).1;
  }
