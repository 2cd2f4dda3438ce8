-- ===== src/Wallet/Ledger/Transactions.antt =====
-- The transactions of the wallet repository, on a schedule of other sessions: what they commit
-- extends the tables.
use go_payment.Prelude.{
  ◌^◌, ◌<◌, ◌≡◌, String, true, false, none, some, [], ◌∷◌, ◌++◌, ℤ, pos, pos_part, neg_part,
  IsInt64, ◌+ℤ◌, +ℤ_parts, arith, inl, inr, parts_of_eq,
}
use go_payment.Exec.{ok, Result-cases}
use go_payment.Database.{Session, tx_exec}
use go_payment.Uuid.{Uuid}
use go_payment.Wallet.Domain.{Balance, LedgerEntry}
use go_payment.Wallet.Service.{apply}
use go_payment.Wallet.Tables.{
  WalletDb, find_balance, find_entry, set_balance, update_balance, insert_entry,
}
use go_payment.Wallet.Postgres.{mutate_balance_tx}
use go_payment.Wallet.Ledger.{credited, debited, Backed, IsConsistent, Extends, Follows}
use go_payment.Wallet.Ledger.Lookup.{find_entry-append, find_balance-set_balance}
use go_payment.Wallet.Ledger.Statements.{
  apply_exact, credited-append, debited-append, UniqueKeys-append,
}

-- What a caller knows of a balance that it has read: it was a sound balance then, and the row has
-- followed it since.
pub record Seen (b : Balance) (d : WalletDb) : Type 0 where
  pub positive : neg_part b.balance_minor ≡ 0
  pub fits : pos_part b.balance_minor < 2 ^ 63
  pub follows : Follows b (find_balance b.wallet_id d.account_balances)

-- The rows that MutateBalance leaves.
abbrev pub written : LedgerEntry → ℤ → WalletDb → WalletDb
written e new d = record d {
  account_balances = set_balance e.wallet_id new d.account_balances;
  ledger_entries = d.ledger_entries ++ e ∷ [];
}

module _ (e : LedgerEntry) (b row next : Balance) (d : WalletDb) (seen : Seen b d)
    (same : b.wallet_id ≡ e.wallet_id) (int64 : IsInt64 e.amount_minor)
    (applied : apply e.type b e.amount_minor ≡ ok next)
    (found : find_balance e.wallet_id d.account_balances ≡ some row)
    (version : row.version ≡ b.version) (nonneg : neg_part next.balance_minor ≡ 0)
    (fresh : find_entry e.idempotency_key d.ledger_entries ≡ none) where
  -- The row still has the balance that was read.
  row_balance : row.balance_minor ≡ b.balance_minor
  row_balance = ground (arith, seen.follows)

  written-Backed :
      (w : Uuid)
      → IsConsistent d
      → let d' = written e next.balance_minor d in
        Backed
          (find_balance w d'.account_balances)
          (credited w d'.ledger_entries)
          (debited w d'.ledger_entries)
  written-Backed w c =
      rw
        (
          find_balance-set_balance w e.wallet_id next.balance_minor d.account_balances,
          credited-append w e d.ledger_entries,
          debited-append w e d.ledger_entries,
        )
        (ground (
          arith,
          c.backed w,
          row_balance,
          apply_exact e.type b next e.amount_minor seen.positive seen.fits int64 applied nonneg,
        ))

  written-Follows :
      (w : Uuid) (r : Balance)
      → Follows r (find_balance w d.account_balances)
      → Follows r (find_balance w (written e next.balance_minor d).account_balances)
  written-Follows w r f =
      rw (find_balance-set_balance w e.wallet_id next.balance_minor d.account_balances)
        (ground (arith, +ℤ_parts row.version (pos 1), parts_of_eq (row.version +ℤ pos 1) r.version))

  written-entries :
      (k : String) (x : LedgerEntry)
      → find_entry k d.ledger_entries ≡ some x
      → find_entry k (d.ledger_entries ++ e ∷ []) ≡ some x
  written-entries k x h = rw (find_entry-append k e d.ledger_entries, h)

  -- One change of a balance that was read before, and its entry, extend the tables.
  pub written-Extends : Extends d (written e next.balance_minor d)
  written-Extends = record {
    consistent = λ c. record {
      backed = λ w. written-Backed w c;
      keys = UniqueKeys-append e d.ledger_entries c.keys fresh;
    };
    balances = written-Follows;
    entries = written-entries;
  }

-- What a body of MutateBalance that ends without an error has done.
pub mutate_balance_tx_ok :
    (w : Uuid) (expected new : ℤ) (e : LedgerEntry) (s : Session WalletDb)
    → (mutate_balance_tx w expected new e s).0 ≡ ok tt
    → (d' : WalletDb) × (update_balance w new expected s.tables ≡ ok (true, d'))
      × (insert_entry e d' ≡ ok (tt, (mutate_balance_tx w expected new e s).1.tables))
unfolding mutate_balance_tx tx_exec
mutate_balance_tx_ok w expected new e s h =
    elim (Result-cases (update_balance w new expected s.tables)) [
      | inl ((true, d'), updated) ↦ (d', updated, ground arith)
      | inl ((false, d'), updated) ↦ absurd (ground arith)
      | inr (x, failed) ↦ absurd (ground arith)
    ]
