-- ===== src/Wallet/Races.antt =====
-- A debit while another session debits the same wallet.
use go_payment.Prelude.{◌≡◌, refl, ap, some, [], ◌∷◌, pos, ◌+ℤ◌, ◌-ℤ◌, IsInt64, arith}
use go_payment.Exec.{Result, ok}
use go_payment.Database.{Session, served, quiet}
use go_payment.Samples.{unary_uuid, unary, counting}
use go_payment.Wallet.Domain.{debit, LedgerEntry}
use go_payment.Wallet.Tables.{WalletDb, find_balance, find_entry}
use go_payment.Wallet.Postgres.{pg_repo}
use go_payment.Wallet.Ledger.{IsConsistent, Extends}
use go_payment.Wallet.Ledger.Sessions.{Sound}
use go_payment.Wallet.Service.{mutate, create_wallet, debit_wallet, MutateResult}
use go_payment.Wallet.Replies.{debit_applies}
use go_payment.Wallet.Concurrency.{
  mutate-IsConsistent, mutate_admissible, mutate_records, create_wallet-IsConsistent,
}
use go_payment.Wallet.Samples.{funded-IsConsistent, row, funded, of_300, room}

IsInt64-300 : IsInt64 (pos 300)
IsInt64-300 = ground arith

-- While the call runs, another session debits the same wallet and a call of the database is refused.
abbrev racing : Session WalletDb
racing = record {
  tables = funded;
  turns =
      record { others = λ d. d; verdict = served }
      ∷ record {
        others = λ d.
            (mutate unary_uuid pg_repo (counting 60) (unary 7) (pos 300) (unary 4) "d2" debit
              (quiet d)).1.tables;
        verdict = served;
      }
      ∷ [];
}

racing-Sound : Sound racing
racing-Sound = record {
  consistent = funded-IsConsistent;
  admissible = (
    λ d c. record { consistent = λ h. h; balances = λ w b h. h; entries = λ k e h. h },
    (
      λ d c.
          mutate_admissible unary_uuid (counting 60) (unary 7) (pos 300) (unary 4) "d2" debit d
            IsInt64-300 c,
      tt,
    ),
  );
}

mutate-IsConsistent_example :
    let s' =
      (mutate unary_uuid pg_repo (counting 40) (unary 7) (pos 300) (unary 3) "d1" debit racing).1 in
    IsConsistent s'.tables × Extends funded s'.tables
mutate-IsConsistent_example =
    mutate-IsConsistent unary_uuid (counting 40) (unary 7) (pos 300) (unary 3) "d1" debit racing
      IsInt64-300 racing-Sound

create_wallet-IsConsistent_example :
    let s' = (create_wallet unary_uuid pg_repo 8 200 (unary 2) "USD" racing).1 in
    IsConsistent s'.tables × Extends funded s'.tables
create_wallet-IsConsistent_example =
    create_wallet-IsConsistent unary_uuid 8 200 (unary 2) "USD" racing racing-Sound

debit_result :
    (mutate unary_uuid pg_repo
      (counting 40)
      (unary 7)
      (pos 300)
      (unary 3)
      "d1"
      debit
      (quiet funded)).0
    ≡ ok (record { balance = row (pos 700) (pos 2); entry_id = 40 })
unfolding debit_wallet find_balance ◌-ℤ◌ ◌+ℤ◌
debit_result =
    ap (λ (x : Result MutateResult × Session WalletDb). x.0)
      (debit_applies unary_uuid (counting 40) (unary 7) (pos 300) (unary 3) "d1" 7 3 of_300 funded
        (row (pos 1000) (pos 1)) refl room (ground arith) (ground arith))

mutate_records_example :
    (e : LedgerEntry) × (find_entry "d1"
        (mutate unary_uuid pg_repo
          (counting 40)
          (unary 7)
          (pos 300)
          (unary 3)
          "d1"
          debit
          (quiet funded)).1.tables.ledger_entries
      ≡ some e)
    × (e.id ≡ 40)
mutate_records_example =
    mutate_records unary_uuid (counting 40) (unary 7) (pos 300) (unary 3) "d1" debit (quiet funded)
      (record { balance = row (pos 700) (pos 2); entry_id = 40 }) IsInt64-300
      (record { consistent = funded-IsConsistent; admissible = tt }) debit_result
