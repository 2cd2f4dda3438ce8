-- ===== src/Wallet/Replies.antt =====
-- What one call of Credit or Debit answers and writes when every call of the database is served and
-- no other session writes.
use go_payment.Prelude.{
  ◌≡◌, String, true, false, none, some, ℤ, pos, ◌+ℤ◌, ◌-ℤ◌, ◌<ℤ◌, ◌≤ℤ◌, ◌^◌, IsInt64, wrap64, arith,
  str_eq, leb_ℤ, neg_part, ==ℤ_refl,
}
use go_payment.Errors.{sentinel, pg_error, insufficient_funds, is, has_pg_code}
use go_payment.Exec.{ok, err}
use go_payment.Database.{quiet, query, tx_exec, in_transaction}
use go_payment.Uuid.{Uuid, UuidPackage, Source}
use go_payment.Wallet.Domain.{EntryType, debit, credit, Balance, LedgerEntry}
use go_payment.Wallet.Tables.{
  WalletDb, find_balance, find_entry, find_wallet, has_entry_id, insert_entry, update_balance,
  check_violation, is_some,
}
use go_payment.Wallet.Postgres.{pg_repo, get_balance, get_entry_by_idempotency, mutate_balance}
use go_payment.Wallet.Service.{
  Change, mutate, credit_wallet, debit_wallet, replay, attempts, apply, new_entry, max_attempts,
}
use go_payment.Wallet.Ledger.Transactions.{written}

-- The arguments are in order: they parse, the amount is positive and the key is not empty.
pub record Accepted (uuid : UuidPackage) (wallet_id : String) (amount : ℤ)
    (transfer_id key : String) (wid tid : Uuid) : Type 0 where
  pub reads_wallet : uuid.parse wallet_id ≡ some wid
  pub reads_transfer : uuid.parse transfer_id ≡ some tid
  pub positive : leb_ℤ amount (pos 0) ≡ false
  pub has_key : str_eq key "" ≡ false

-- What the tables must allow for a new entry: a new key and id, the wallet's row, and a version that
-- can still be counted up.
abbrev pub Room : Source → String → Uuid → Balance → WalletDb → Type 0
Room src key wid b d =
    (find_entry key d.ledger_entries ≡ none)
    × (has_entry_id (src.id 0) d.ledger_entries ≡ false)
    × (is_some (find_wallet wid d.wallets) ≡ true)
    × (pos 0 ≤ℤ b.version)
    × (b.version +ℤ pos 1 <ℤ pos (2 ^ 63))

module _ (uuid : UuidPackage) (src : Source) (wallet_id : String) (amount : ℤ)
    (transfer_id key : String) (wid tid : Uuid)
    (accepted : Accepted uuid wallet_id amount transfer_id key wid tid) (d : WalletDb) (b : Balance)
    (row : find_balance wid d.account_balances ≡ some b) where
  -- With every database call served and no other session, when the arguments are in order, the
  -- wallet has a balance and the key is in the ledger already, a call of Credit or Debit succeeds
  -- with the id of the entry that is there and the present balance of the wallet it names, and
  -- writes nothing, whatever its amount and type.
  pub mutate_replays :
      (type : EntryType) (e : LedgerEntry)
      → find_entry key d.ledger_entries ≡ some e
      → mutate uuid pg_repo src wallet_id amount transfer_id key type (quiet d)
        ≡ (ok (record { balance = b; entry_id = e.id }), quiet d)
  unfolding mutate replay get_balance get_entry_by_idempotency query
  mutate_replays type e there = rw (
    accepted.reads_wallet, accepted.reads_transfer, accepted.positive, accepted.has_key, there, row,
  )

  abbrev pub change : EntryType → Change
  change type = record { wallet = wid; transfer = tid; amount = amount; key = key; type = type }

  -- With a new key the call is its loop.
  mutate_fresh :
      (type : EntryType)
      → find_entry key d.ledger_entries ≡ none
      → mutate uuid pg_repo src wallet_id amount transfer_id key type (quiet d)
        ≡ attempts pg_repo max_attempts 0 src (change type) (quiet d)
  unfolding mutate get_entry_by_idempotency query
  mutate_fresh type new =
      rw (accepted.reads_wallet, accepted.reads_transfer, accepted.positive, accepted.has_key, new)

  -- With every database call served and no other session, a Debit with arguments in order and a
  -- new key of more than the balance of the wallet fails with ErrInsufficientFunds and writes
  -- nothing.
  pub debit_refused :
      find_entry key d.ledger_entries ≡ none
      → b.balance_minor <ℤ amount
      → debit_wallet uuid pg_repo src wallet_id amount transfer_id key (quiet d)
        ≡ (err (sentinel insufficient_funds), quiet d)
  unfolding debit_wallet attempts apply get_balance query
  debit_refused new short = rw (mutate_fresh debit new, row, accepted.positive) (ground arith)

  -- With every database call served and no other session, a Credit with arguments in order and a
  -- new key that takes the balance past the largest int64 wraps to a negative balance, which the
  -- check of the balance column refuses: the call fails with that error and writes nothing.
  pub credit_overflows :
      find_entry key d.ledger_entries ≡ none
      → IsInt64 amount
      → neg_part b.balance_minor ≡ 0
      → IsInt64 b.balance_minor
      → pos (2 ^ 63) ≤ℤ b.balance_minor +ℤ amount
      → credit_wallet uuid pg_repo src wallet_id amount transfer_id key (quiet d)
        ≡ (err (pg_error check_violation), quiet d)
  unfolding credit_wallet attempts apply get_balance query mutate_balance in_transaction tx_exec
      update_balance is has_pg_code wrap64 ◌+ℤ◌
  credit_overflows new int64 nonneg fits over =
      rw (mutate_fresh credit new, row, accepted.positive) (ground (arith, ==ℤ_refl b.version))

  -- With every database call served and no other session, a Credit with arguments in order, a new
  -- key and id, a wallet whose balance row is not negative and whose version can be counted up,
  -- and a sum that fits an int64 adds the amount to the balance, counts the version up and adds
  -- one entry.
  pub credit_applies :
      Room src key wid b d
      → neg_part b.balance_minor ≡ 0
      → IsInt64 (b.balance_minor +ℤ amount)
      → let next = record b {
        balance_minor = b.balance_minor +ℤ amount;
        version = b.version +ℤ pos 1;
      } in
        credit_wallet uuid pg_repo src wallet_id amount transfer_id key (quiet d) ≡ (
          ok (record { balance = next; entry_id = src.id 0 }),
          quiet (written (new_entry src 0 (change credit)) next.balance_minor d),
        )
  unfolding credit_wallet attempts apply get_balance query mutate_balance in_transaction tx_exec
      update_balance insert_entry wrap64 ◌+ℤ◌
  credit_applies room nonneg fits =
      rw (mutate_fresh credit room.0, row, accepted.positive) (ground (arith, ==ℤ_refl b.version))

  -- With every database call served and no other session, a Debit with arguments in order, a new
  -- key and id, a wallet whose version can be counted up, and an amount that the balance covers
  -- takes the amount from the balance, counts the version up and adds one entry.
  pub debit_applies :
      Room src key wid b d
      → IsInt64 b.balance_minor
      → amount ≤ℤ b.balance_minor
      → let next = record b {
        balance_minor = b.balance_minor -ℤ amount;
        version = b.version +ℤ pos 1;
      } in
        debit_wallet uuid pg_repo src wallet_id amount transfer_id key (quiet d) ≡ (
          ok (record { balance = next; entry_id = src.id 0 }),
          quiet (written (new_entry src 0 (change debit)) next.balance_minor d),
        )
  unfolding debit_wallet attempts apply get_balance query mutate_balance in_transaction tx_exec
      update_balance insert_entry wrap64 ◌+ℤ◌ ◌-ℤ◌
  debit_applies room fits covered =
      rw (mutate_fresh debit room.0, row, accepted.positive) (ground (arith, ==ℤ_refl b.version))
