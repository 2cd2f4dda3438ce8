-- ===== src/Transfer/Funds/Tests.antt =====
-- A transfer between two small wallets, and one to a wallet that does not exist.
use go_payment.Transfer.Funds.Samples.{
  from_error, from_error-ReadsStatus, draws, circuit, row, two_wallets, request, transfer, no_repo,
  no_cache,
}
use go_payment.Prelude.{◌⊎◌, ◌+◌, ◌≡◌, refl, none, some, [], ◌∷◌, pos, ◌+ℤ◌, ◌-ℤ◌, arith}
use go_payment.Errors.{GoError, sentinel, not_found}
use go_payment.Wallet.Total.{total}
use go_payment.Wallet.Ledger.{IsConsistent, credited, debited}
use go_payment.Exec.{ok, err}
use go_payment.Database.{quiet, query}
use go_payment.Samples.{unary_uuid, unary}
use go_payment.Breaker
use go_payment.Breaker.{Circuit}
use go_payment.Wallet.Domain.{credit, debit}
use go_payment.Wallet.Tables.{
  WalletDb, find_balance, find_entry, find_wallet, has_entry_id, set_balance,
}
use go_payment.Wallet.Service.{credit_wallet}
use go_payment.Wallet.Postgres.{pg_repo, get_entry_by_idempotency, get_balance}
use go_payment.Wallet.Ledger.Transactions.{written}
use go_payment.Transfer.Service.{CreateRequest, debit_key, credit_key, compensation_key, move_funds}
use go_payment.Transfer.WalletClient.{client}
use go_payment.Transfer.Funds.{loopback, at, seen_error}
use go_payment.Transfer.Funds.Moves.{funds_move, entry}
use go_payment.Transfer.Funds.Compensation.{funds_compensated}
use go_payment.Transfer.Funds.Conservation.{funds_conserved}

funds_move_example :
    move_funds unary_uuid no_repo
      (client from_error (loopback unary_uuid from_error draws))
      no_cache
      request
      transfer
      (at unary_uuid from_error draws circuit 9 (quiet two_wallets))
    ≡ (
      ok tt,
      at unary_uuid from_error draws (Breaker.success (Breaker.success circuit)) 9 (
          quiet (
            written (entry draws 8 (pos 300) 5 (credit_key unary_uuid 5) credit) (pos 300) (
              written
                (entry draws 7 (pos 300) 5 (debit_key unary_uuid 5) debit)
                (pos 700)
                two_wallets))),
    )
unfolding find_balance find_entry find_wallet has_entry_id Breaker.allow ◌+ℤ◌ ◌-ℤ◌
funds_move_example =
    funds_move unary_uuid from_error draws no_repo no_cache request transfer 7 8 circuit 9
      two_wallets (row 7 (pos 1000) (pos 1)) (row 8 (pos 0) (pos 0))
      (record { reads_wallet = refl; reads_transfer = refl; positive = refl; has_key = refl })
      (record { reads_wallet = refl; reads_transfer = refl; positive = refl; has_key = refl }) refl
      refl (omega arith) (refl, refl, refl, ground arith, ground arith)
      (refl, refl, refl, ground arith, ground arith) (omega arith) (ground arith) (ground arith)
      refl (ground arith) refl

-- The second wallet does not exist.
abbrev to_nobody : CreateRequest
to_nobody = record request { to_id = unary 9 }

abbrev after_debit : WalletDb
after_debit =
    written (entry draws 7 (pos 300) 5 (debit_key unary_uuid 5) debit) (pos 1000 -ℤ pos 300)
      two_wallets

no_wallet :
    credit_wallet unary_uuid pg_repo
      (draws (credit_key unary_uuid 5))
      (unary 9)
      (pos 300)
      (unary 5)
      (credit_key unary_uuid 5)
      (quiet after_debit)
    ≡ (err (sentinel not_found), quiet after_debit)
unfolding credit_wallet find_balance find_entry ◌-ℤ◌ get_entry_by_idempotency query get_balance
    set_balance
no_wallet = refl

funds_compensated_example :
    (move_funds unary_uuid no_repo
        (client from_error (loopback unary_uuid from_error draws))
        no_cache
        to_nobody
        transfer
        (at unary_uuid from_error draws circuit 9 (quiet two_wallets))
      ≡ (
        err (seen_error unary_uuid from_error draws (sentinel not_found)),
        at unary_uuid from_error draws (Breaker.success (Breaker.success circuit)) 9 (
            quiet (
              written
                (entry draws 7 (pos 300) 5 (compensation_key unary_uuid 5) credit)
                (pos 1000)
                after_debit)),
      ))
    × (find_balance 7
          (written
            (entry draws 7 (pos 300) 5 (compensation_key unary_uuid 5) credit)
            (pos 1000)
            after_debit).account_balances
        ≡ some (row 7 (pos 1000) (pos 3)))
unfolding find_balance find_entry find_wallet has_entry_id Breaker.allow ◌+ℤ◌ ◌-ℤ◌
funds_compensated_example =
    funds_compensated unary_uuid from_error draws no_repo no_cache to_nobody transfer 7 circuit 9
      two_wallets (row 7 (pos 1000) (pos 1)) (sentinel not_found) from_error-ReadsStatus
      (record { reads_wallet = refl; reads_transfer = refl; positive = refl; has_key = refl })
      (record { reads_wallet = refl; reads_transfer = refl; positive = refl; has_key = refl }) refl
      (refl, refl, refl, ground arith, ground arith) (refl, refl, refl, ground arith, ground arith)
      (ground arith) (ground arith) no_wallet refl

-- The wallets with the entry that gave the first its money.
abbrev backed_wallets : WalletDb
backed_wallets = record two_wallets {
  ledger_entries =
      record {
        id = 20;
        wallet_id = 7;
        transfer_id = 3;
        type = credit;
        amount_minor = pos 1000;
        idempotency_key = "c1";
        created_at = 20;
      }
      ∷ [];
}

backed_wallets-IsConsistent : IsConsistent backed_wallets
unfolding find_balance credited debited find_entry
backed_wallets-IsConsistent = record { backed = λ w. ground arith; keys = (refl, tt) }

funds_conserved_example :
    let run =
      move_funds unary_uuid no_repo
        (client from_error (loopback unary_uuid from_error draws))
        no_cache
        request
        transfer
        (at unary_uuid from_error draws circuit 9 (quiet backed_wallets)) in
    (d' : WalletDb) × (c' : Circuit) × IsConsistent d'
    × (run.1 ≡ at unary_uuid from_error draws c' 9 (quiet d'))
    × (((run.0 ≡ ok tt) × (total d'.account_balances ≡ total backed_wallets.account_balances))
        ⊎ ((e : GoError) × (run.0 ≡ err e)
            × ((total d'.account_balances ≡ total backed_wallets.account_balances)
                ⊎ ((total d'.account_balances + 300 ≡ total backed_wallets.account_balances)
                    × (find_entry (compensation_key unary_uuid 5) d'.ledger_entries ≡ none)))))
unfolding find_entry
funds_conserved_example =
    funds_conserved unary_uuid from_error draws no_repo no_cache request transfer 7 8 circuit 9
      backed_wallets
      (record { reads_wallet = refl; reads_transfer = refl; positive = refl; has_key = refl })
      (record { reads_wallet = refl; reads_transfer = refl; positive = refl; has_key = refl })
      (record { reads_wallet = refl; reads_transfer = refl; positive = refl; has_key = refl })
      (ground arith) backed_wallets-IsConsistent refl refl refl
