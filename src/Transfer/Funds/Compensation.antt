-- ===== src/Transfer/Funds/Compensation.antt =====
-- A transfer whose credit fails gives the debited amount back.
use go_payment.Prelude.{
  ◌≡◌, String, true, false, some, ℤ, pos, neg_part, ◌+ℤ◌, ◌-ℤ◌, ◌≤ℤ◌, IsInt64, arith, int_laws,
}
use go_payment.Errors.{GoError}
use go_payment.Breaker
use go_payment.Breaker.{Circuit}
use go_payment.Exec.{ok, err}
use go_payment.Database.{Session, quiet}
use go_payment.Uuid.{Uuid, UuidPackage, Source, Time}
use go_payment.Wallet.Domain.{debit, credit, Balance}
use go_payment.Wallet.Server
use go_payment.Wallet.Service.{credit_wallet}
use go_payment.Wallet.Tables.{WalletDb, find_balance}
use go_payment.Wallet.Postgres.{pg_repo}
use go_payment.Wallet.Ledger.Lookup.{find_balance-set_balance, stepped}
use go_payment.Wallet.Ledger.Transactions.{written}
use go_payment.Wallet.Replies.{Accepted, Room, debit_applies, credit_applies}
use go_payment.Transfer.Domain.{Transfer}
use go_payment.Transfer.Ports.{TransferRepository, WalletClient, IdempotencyCache}
use go_payment.Transfer.Service.{CreateRequest, debit_key, credit_key, compensation_key, move_funds}
use go_payment.Transfer.WalletClient.{FromError, Calling, client, counts}
use go_payment.Transfer.Funds.{
  ReadsStatus, loopback, at, seen_error, debit_done, credit_done, credit_failed,
}
use go_payment.Transfer.Funds.Moves.{entry, allow-success}

-- No answer of the wallet server counts as a failure of the circuit.
server_error_uncounted :
    (from_error : FromError) (e : GoError)
    → ReadsStatus from_error
    → counts (from_error (Server.map_err e)) ≡ false
unfolding Server.map_err
server_error_uncounted from_error e reads = grind (arith, reads)

give_back : (a b : ℤ) → b -ℤ a +ℤ a ≡ b
give_back a b = omega int_laws

covered_nonneg : (a b : ℤ) → a ≤ℤ b → neg_part (b -ℤ a) ≡ 0
unfolding ◌-ℤ◌
covered_nonneg a b h = ground arith

module _ (uuid : UuidPackage) (from_error : FromError) (src : String → Source)
    (repo : TransferRepository (Calling (Session WalletDb)))
    (cache : IdempotencyCache (Calling (Session WalletDb))) (q : CreateRequest) (tr : Transfer)
    (from : Uuid) (c : Circuit) (now : Time) (d : WalletDb) (b_from : Balance) where
  abbrev key_d : String
  key_d = debit_key uuid tr.id

  abbrev key_c : String
  key_c = credit_key uuid tr.id

  abbrev key_x : String
  key_x = compensation_key uuid tr.id

  abbrev tid : String
  tid = uuid.to_string tr.id

  abbrev wallets : WalletClient (Calling (Session WalletDb))
  wallets = client from_error (loopback uuid from_error src)

  abbrev taken : ℤ
  taken = b_from.balance_minor -ℤ q.amount

  abbrev debited : WalletDb
  debited = written (entry src from q.amount tr.id key_d debit) taken d

  abbrev restored : WalletDb
  restored = written (entry src from q.amount tr.id key_x credit) b_from.balance_minor debited

  debited_row :
      find_balance from d.account_balances ≡ some b_from
      → find_balance from debited.account_balances ≡ some (stepped taken b_from)
  debited_row row =
      rw (find_balance-set_balance from from taken d.account_balances, row) (ground arith)

  -- Through the client, its circuit, the gRPC server, the service and the tables, with every
  -- database call served and no other session: when the debit goes through and the credit of the
  -- other wallet fails with the tables as they were, and the compensation has room, the transfer
  -- fails with the error that the client sees and the first wallet has its balance again, with
  -- both entries in the ledger.
  pub funds_compensated :
      (e : GoError)
      → ReadsStatus from_error
      → Accepted uuid q.from_id q.amount tid key_d from tr.id
      → Accepted uuid q.from_id q.amount tid key_x from tr.id
      → find_balance from d.account_balances ≡ some b_from
      → Room (src key_d) key_d from b_from d
      → Room (src key_x) key_x from (stepped taken b_from) debited
      → IsInt64 b_from.balance_minor
      → q.amount ≤ℤ b_from.balance_minor
      → credit_wallet uuid pg_repo (src key_c) q.to_id q.amount tid key_c (quiet debited)
        ≡ (err e, quiet debited)
      → Breaker.allow now c ≡ true
      → (move_funds uuid repo wallets cache q tr (at uuid from_error src c now (quiet d)) ≡ (
        err (seen_error uuid from_error src e),
        at uuid from_error src (Breaker.success (Breaker.success c)) now (quiet restored),
      ))
        × (find_balance from restored.account_balances
            ≡ some (stepped b_from.balance_minor (stepped taken b_from)))
  unfolding move_funds
  funds_compensated e reads acc_d acc_x row room_d room_x fits covered fails closed =
      (rw (first, second, third), final_row)
    where
      first :
          WalletClient.debit wallets q.from_id q.amount tid key_d
            (at uuid from_error src c now (quiet d))
          ≡ (ok tt, at uuid from_error src (Breaker.success c) now (quiet debited))
      first =
          debit_done uuid from_error src q.from_id q.amount tid key_d c now (quiet d)
            (quiet debited) closed _
            (debit_applies uuid (src key_d) q.from_id q.amount tid key_d from tr.id acc_d d b_from
              row room_d fits covered)

      second :
          WalletClient.credit wallets q.to_id q.amount tid key_c
            (at uuid from_error src (Breaker.success c) now (quiet debited))
          ≡ (
            err (seen_error uuid from_error src e),
            at uuid from_error src (Breaker.success c) now (quiet debited),
          )
      second = rw (
        credit_failed uuid from_error src q.to_id q.amount tid key_c (Breaker.success c) now
            (quiet debited) (quiet debited) (allow-success now c) e fails,
        server_error_uncounted from_error e reads,
      )

      applied :
          credit_wallet uuid pg_repo (src key_x) q.from_id q.amount tid key_x (quiet debited) ≡ (
            ok (record {
              balance = record (stepped taken b_from) {
                balance_minor = taken +ℤ q.amount;
                version = b_from.version +ℤ pos 1 +ℤ pos 1;
              };
              entry_id = (src key_x).id 0;
            }),
            quiet
                (written (entry src from q.amount tr.id key_x credit) (taken +ℤ q.amount) debited),
          )
      applied =
          credit_applies uuid (src key_x) q.from_id q.amount tid key_x from tr.id acc_x debited
            (stepped taken b_from) (debited_row row) room_x
            (covered_nonneg q.amount b_from.balance_minor covered)
            (rw (give_back q.amount b_from.balance_minor) fits)

      third :
          WalletClient.credit wallets q.from_id q.amount tid key_x
            (at uuid from_error src (Breaker.success c) now (quiet debited))
          ≡ (
            ok tt,
            at uuid from_error src (Breaker.success (Breaker.success c)) now (quiet restored),
          )
      third =
          credit_done uuid from_error src q.from_id q.amount tid key_x (Breaker.success c) now
            (quiet debited) (quiet restored) (allow-success now c) _
            (rw (give_back q.amount b_from.balance_minor) at applied)

      final_row :
          find_balance from restored.account_balances
          ≡ some (stepped b_from.balance_minor (stepped taken b_from))
      final_row =
          rw
            (
              find_balance-set_balance from from b_from.balance_minor debited.account_balances,
              debited_row row,
            )
            (ground arith)
