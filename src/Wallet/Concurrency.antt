-- ===== src/Wallet/Concurrency.antt =====
-- The wallet service on PostgreSQL, among other sessions: credits and debits keep every balance the
-- sum of its entries, and what one call does is what every other call allows for.
use go_payment.Prelude.{◌≡◌, String, some, ℤ, IsInt64}
use go_payment.Exec.{ok}
use go_payment.Database.{Session, quiet}
use go_payment.Uuid.{Uuid, Time, UuidPackage, Source}
use go_payment.Wallet.Domain.{EntryType, LedgerEntry}
use go_payment.Wallet.Tables.{WalletDb, find_entry}
use go_payment.Wallet.Postgres.{pg_repo}
use go_payment.Wallet.Service.{MutateResult, mutate, create_wallet}
use go_payment.Wallet.Ledger.{IsConsistent, Extends}
use go_payment.Wallet.Ledger.Sessions.{Sound}
use go_payment.Wallet.Contract.{pg_repo-IsRepository}
use go_payment.Wallet.Guarantee.{mutate-Safe, create_wallet-Safe}
use go_payment.Wallet.Idempotency.{mutate-Answers}

module _ (uuid : UuidPackage) (src : Source) where
  -- From consistent wallet tables (every balance fits an int64, is not negative and is the
  -- credits less the debits of its ledger entries; a key stands on one entry), on any schedule of
  -- other sessions that extend consistent tables and of database calls that are served, refused
  -- or lost, a call of Credit or Debit with an int64 amount leaves consistent tables that extend
  -- those it began with.
  pub mutate-IsConsistent :
      (wallet_id : String) (amount : ℤ) (transfer_id key : String) (type : EntryType)
      (s : Session WalletDb)
      → IsInt64 amount
      → Sound s
      → let s' = (mutate uuid pg_repo src wallet_id amount transfer_id key type s).1 in
        IsConsistent s'.tables × Extends s.tables s'.tables
  mutate-IsConsistent wallet_id amount transfer_id key type s h sound =
      let p =
        (mutate-Safe pg_repo-IsRepository uuid src wallet_id amount transfer_id key type h).at s
          sound in
      (p.extends.consistent sound.consistent, p.extends)

  -- A whole call of Credit or Debit by another session, on consistent tables, is itself an
  -- interference that every schedule allows for.
  pub mutate_admissible :
      (wallet_id : String) (amount : ℤ) (transfer_id key : String) (type : EntryType) (d : WalletDb)
      → IsInt64 amount
      → IsConsistent d
      → Extends d (mutate uuid pg_repo src wallet_id amount transfer_id key type (quiet d)).1.tables
  mutate_admissible wallet_id amount transfer_id key type d h c =
      (mutate-IsConsistent wallet_id amount transfer_id key type (quiet d) h
        (record { consistent = c; admissible = tt })).1

  -- From consistent wallet tables and on any schedule of other sessions that extend consistent
  -- tables and of database calls that are served, refused or lost, a call of Credit or Debit with
  -- an int64 amount that succeeds leaves an entry with its idempotency key in the ledger, and
  -- returns the id of that entry.
  pub mutate_records :
      (wallet_id : String) (amount : ℤ) (transfer_id key : String) (type : EntryType)
      (s : Session WalletDb) (r : MutateResult)
      → IsInt64 amount
      → Sound s
      → (mutate uuid pg_repo src wallet_id amount transfer_id key type s).0 ≡ ok r
      → (e : LedgerEntry) × (find_entry key
            (mutate uuid pg_repo src wallet_id amount transfer_id key type
              s).1.tables.ledger_entries
          ≡ some e)
        × (e.id ≡ r.entry_id)
  mutate_records wallet_id amount transfer_id key type s r h sound e =
      (mutate-Answers pg_repo-IsRepository key uuid src wallet_id amount transfer_id type s h
          sound).at
        r e

-- From consistent wallet tables, on any schedule of admissible other sessions and failures,
-- CreateWallet leaves consistent tables that extend those it began with.
pub create_wallet-IsConsistent :
    (uuid : UuidPackage) (id : Uuid) (now : Time) (user_id currency : String) (s : Session WalletDb)
    → Sound s
    → let s' = (create_wallet uuid pg_repo id now user_id currency s).1 in
      IsConsistent s'.tables × Extends s.tables s'.tables
create_wallet-IsConsistent uuid id now user_id currency s sound =
    let p = (create_wallet-Safe pg_repo-IsRepository uuid id now user_id currency).at s sound in
    (p.extends.consistent sound.consistent, p.extends)
