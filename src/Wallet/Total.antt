-- ===== src/Wallet/Total.antt =====
-- The sum of all balances, and what one call of Credit or Debit does to it.
use go_payment.Prelude.{
  ℕ, ◌+◌, ◌≡◌, ◌≢◌, ◌⊎◌, inl, inr, subst, String, Option, some, none, List, [], ◌∷◌, ℤ, pos_part,
  IsInt64, arith, eq_iff,
}
use go_payment.Errors.{GoError}
use go_payment.Exec.{Result, ok, err}
use go_payment.Database.{Session, quiet}
use go_payment.Uuid.{Uuid, UuidPackage, Source}
use go_payment.Wallet.Domain.{EntryType, Balance}
use go_payment.Wallet.Tables.{WalletDb, find_balance, find_entry, set_balance}
use go_payment.Wallet.Postgres.{pg_repo}
use go_payment.Wallet.Service.{MutateResult, mutate, new_entry}
use go_payment.Wallet.Ledger.{IsConsistent, credit_part, debit_part, credited, debited, Backed}
use go_payment.Wallet.Ledger.Lookup.{find_entry-append}
use go_payment.Wallet.Ledger.Statements.{apply_exact}
use go_payment.Wallet.Ledger.Transactions.{written}
use go_payment.Wallet.Replies.{Accepted}
use go_payment.Wallet.Quiet.{nothing, wrote, mutate-Outcome}
use go_payment.Wallet.Concurrency.{mutate_admissible}

unfoldable pub total : List Balance → ℕ
total [] = 0
total (b ∷ bs) = pos_part b.balance_minor + total bs

total-set_balance :
    (id : Uuid) (new : ℤ) (bs : List Balance) (b : Balance)
    → find_balance id bs ≡ some b
    → total (set_balance id new bs) + pos_part b.balance_minor ≡ total bs + pos_part new
unfolding total find_balance set_balance
total-set_balance id new [] b h = ground arith
total-set_balance id new (x ∷ bs) b h = ground (arith, total-set_balance id new bs b)

-- What a call that succeeds has done to the tables, apart from which wallet it was for.
pub record Moved (type : EntryType) (amount : ℤ) (key : String) (d d' : WalletDb) : Type 0 where
  pub consistent : IsConsistent d'
  pub sum :
      total d'.account_balances + debit_part type amount
      ≡ total d.account_balances + credit_part type amount
  -- every other key is as new as it was
  pub others :
      (k : String)
      → key ≢ k
      → find_entry k d.ledger_entries ≡ none
      → find_entry k d'.ledger_entries ≡ none

module _ (uuid : UuidPackage) (src : Source) (wallet_id : String) (amount : ℤ)
    (transfer_id key : String) (wid tid : Uuid) where
  -- With every database call served and no other session, from consistent wallet tables, a Credit or
  -- Debit with arguments in order, an int64 amount and a key that no entry has either fails and writes
  -- nothing, or moves the sum of all balances by just the amount.
  pub mutate_total :
      (type : EntryType) (d : WalletDb)
      → Accepted uuid wallet_id amount transfer_id key wid tid
      → IsInt64 amount
      → IsConsistent d
      → find_entry key d.ledger_entries ≡ none
      → let run = mutate uuid pg_repo src wallet_id amount transfer_id key type (quiet d) in
        ((e : GoError) × (run ≡ (err e, quiet d)))
        ⊎ ((r : MutateResult) × (d' : WalletDb) × (run ≡ (ok r, quiet d'))
            × Moved type amount key d d')
  mutate_total type d accepted int64 consistent fresh =
      elim (mutate-Outcome uuid src wallet_id amount transfer_id key wid tid type d accepted
        fresh) [
          | nothing e failed ↦ inl (e, failed)
          | wrote b next row applies nonneg done ↦
              let backed : Backed (some b) (credited wid d.ledger_entries)
                  (debited wid d.ledger_entries) =
                subst
                  (λ (o : Option Balance).
                    Backed o (credited wid d.ledger_entries) (debited wid d.ledger_entries))
                  row (consistent.backed wid) in
              let e = new_entry src 0 (record {
                wallet = wid;
                transfer = tid;
                amount = amount;
                key = key;
                type = type;
              }) in
              let extends =
                mutate_admissible uuid src wallet_id amount transfer_id key type d int64
                  consistent in
              inr (
                record { balance = next; entry_id = src.id 0 },
                written e next.balance_minor d,
                done,
                record {
                  consistent =
                      subst
                        (λ (r : Result MutateResult × Session WalletDb). IsConsistent r.1.tables)
                        done (extends.consistent consistent);
                  sum = omega (
                    arith,
                    total-set_balance wid next.balance_minor d.account_balances b row,
                    apply_exact type b next amount backed.0 backed.1 int64 applies nonneg,
                  );
                  others = λ k ne new.
                      rw (find_entry-append k e d.ledger_entries, new)
                        (ground (arith, eq_iff key k));
                },
              )
        ]
