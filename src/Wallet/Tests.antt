-- ===== src/Wallet/Tests.antt =====
-- Runs of single calls on small tables, after app/service_test.go.
use go_payment.Prelude.{wrap64, ◌≡◌, refl, [], ◌∷◌, pos, ◌+ℤ◌, ◌-ℤ◌, ◌-◌, ◌^◌, arith}
use go_payment.Errors.{sentinel, wrapped, pg_error, insufficient_funds, version_conflict}
use go_payment.Exec.{ok, err}
use go_payment.Database.{quiet}
use go_payment.Samples.{unary_uuid, unary, counting}
use go_payment.Wallet.Domain.{debit}
use go_payment.Wallet.Tables.{WalletDb, check_violation, find_balance, find_entry}
use go_payment.Wallet.Postgres.{pg_repo}
use go_payment.Wallet.Service.{apply, mutate, credit_wallet, debit_wallet}
use go_payment.Wallet.Replies.{mutate_replays, debit_refused, credit_overflows}
use go_payment.Wallet.Retries.{contended, mutate_retries, mutate_gives_up}
use go_payment.Wallet.Samples.{row, first_entry, funded, AcceptedOf, of_300}

abbrev nearly_full : WalletDb
nearly_full = record funded { account_balances = row (pos (2 ^ 63 - 1)) (pos 1) ∷ [] }

replayed : AcceptedOf (pos 1) "c1"
replayed = record { reads_wallet = refl; reads_transfer = refl; positive = refl; has_key = refl }

of_2000 : AcceptedOf (pos 2000) "d1"
of_2000 = record { reads_wallet = refl; reads_transfer = refl; positive = refl; has_key = refl }

-- A key that is there, with another amount and the other type.
mutate_replays_example :
    mutate unary_uuid pg_repo (counting 40) (unary 7) (pos 1) (unary 3) "c1" debit (quiet funded)
    ≡ (ok (record { balance = row (pos 1000) (pos 1); entry_id = 20 }), quiet funded)
unfolding find_balance find_entry
mutate_replays_example =
    mutate_replays unary_uuid (counting 40) (unary 7) (pos 1) (unary 3) "c1" 7 3 replayed funded
      (row (pos 1000) (pos 1)) refl debit first_entry refl

debit_refused_example :
    debit_wallet unary_uuid pg_repo (counting 40) (unary 7) (pos 2000) (unary 3) "d1" (quiet funded)
    ≡ (err (sentinel insufficient_funds), quiet funded)
unfolding find_balance find_entry
debit_refused_example =
    debit_refused unary_uuid (counting 40) (unary 7) (pos 2000) (unary 3) "d1" 7 3 of_2000 funded
      (row (pos 1000) (pos 1)) refl refl (omega arith)

credit_overflows_example :
    credit_wallet unary_uuid pg_repo
      (counting 40)
      (unary 7)
      (pos 300)
      (unary 3)
      "d1"
      (quiet nearly_full)
    ≡ (err (pg_error check_violation), quiet nearly_full)
unfolding find_balance find_entry ◌+ℤ◌
credit_overflows_example =
    credit_overflows unary_uuid (counting 40) (unary 7) (pos 300) (unary 3) "d1" 7 3 of_300
      nearly_full (row (pos (2 ^ 63 - 1)) (pos 1)) refl refl (ground arith) refl (ground arith)
      (ground arith)

mutate_retries_example :
    mutate unary_uuid
      (contended (row (pos 1000) (pos 1)))
      (counting 40)
      (unary 7)
      (pos 300)
      (unary 3)
      "d1"
      debit
      3
    ≡ (ok (record { balance = row (pos 700) (pos 2); entry_id = 43 }), 0)
unfolding apply ◌-ℤ◌ ◌+ℤ◌ wrap64
mutate_retries_example =
    mutate_retries unary_uuid (counting 40) (unary 7) (pos 300) (unary 3) "d1" 7 3 of_300 debit
      (row (pos 1000) (pos 1)) (row (pos 700) (pos 2)) refl 3 (ground arith)

mutate_gives_up_example :
    mutate unary_uuid
      (contended (row (pos 1000) (pos 1)))
      (counting 40)
      (unary 7)
      (pos 300)
      (unary 3)
      "d1"
      debit
      9
    ≡ (err (wrapped "" (sentinel version_conflict) ": exhausted retries"), 1)
unfolding apply ◌-ℤ◌ ◌+ℤ◌ wrap64
mutate_gives_up_example =
    mutate_gives_up unary_uuid (counting 40) (unary 7) (pos 300) (unary 3) "d1" 7 3 of_300 debit
      (row (pos 1000) (pos 1)) (row (pos 700) (pos 2)) refl 9 (ground arith)
