-- ===== src/Transfer/Funds/Moves.antt =====
-- A transfer between two wallets moves the amount from one to the other.
use text.Mathlib.TextLemmas.{append_cancel_left}
use go_payment.Prelude.{
  ◌≡◌, ◌≢◌, String, true, some, ℤ, ◌+ℤ◌, ◌-ℤ◌, ◌≤ℤ◌, IsInt64, neg_part, arith, eq_iff,
}
use mathlib.Core.Bool.{false≢true}
use go_payment.Breaker
use go_payment.Breaker.{Circuit}
use go_payment.Exec.{ok}
use go_payment.Database.{Session, quiet}
use go_payment.Uuid.{Uuid, UuidPackage, Source, Time}
use go_payment.Wallet.Domain.{EntryType, debit, credit, Balance, LedgerEntry}
use go_payment.Wallet.Service.{new_entry}
use go_payment.Wallet.Tables.{WalletDb, find_balance}
use go_payment.Wallet.Ledger.Lookup.{
  find_entry-append, find_balance-set_balance, has_entry_id-append,
}
use go_payment.Wallet.Ledger.Transactions.{written}
use go_payment.Wallet.Replies.{Accepted, Room, debit_applies, credit_applies}
use go_payment.Transfer.Domain.{Transfer}
use go_payment.Transfer.Ports.{TransferRepository, WalletClient, IdempotencyCache}
use go_payment.Transfer.Service.{CreateRequest, debit_key, credit_key, move_funds}
use go_payment.Transfer.WalletClient.{FromError, Calling, client}
use go_payment.Transfer.Funds.{loopback, at, debit_done, credit_done}

abbrev debit_suffix : String
debit_suffix = ":debit"

abbrev credit_suffix : String
credit_suffix = ":credit"

suffixes_differ : debit_suffix ≢ credit_suffix
suffixes_differ e = false≢true ((eq_iff debit_suffix credit_suffix).1 e)

-- The keys of the two calls differ, whatever the transfer is.
pub debit_key-ne-credit_key :
    (uuid : UuidPackage) (id : Uuid) → debit_key uuid id ≢ credit_key uuid id
debit_key-ne-credit_key uuid id e = suffixes_differ (
    append_cancel_left (uuid.to_string id) debit_suffix credit_suffix
      (append_cancel_left "transfer:" _ _ e))

-- A row and a room that a change of another wallet leaves.
module _ (e : LedgerEntry) (new : ℤ) (d : WalletDb) where
  pub row-written :
      (wid : Uuid) (b : Balance)
      → e.wallet_id ≢ wid
      → find_balance wid d.account_balances ≡ some b
      → find_balance wid (written e new d).account_balances ≡ some b
  row-written wid b ne row =
      rw (find_balance-set_balance wid e.wallet_id new d.account_balances) (ground arith)

  pub Room-written :
      (src : Source) (key : String) (wid : Uuid) (b : Balance)
      → e.idempotency_key ≢ key
      → e.id ≢ src.id 0
      → Room src key wid b d
      → Room src key wid b (written e new d)
  Room-written src key wid b keys ids room = (
    rw (find_entry-append key e d.ledger_entries, room.0)
        (ground (arith, eq_iff e.idempotency_key key)),
    rw (has_entry_id-append (src.id 0) e d.ledger_entries, room.1) (ground arith),
    room.2,
    room.3,
    room.4,
  )

-- After a success every call is allowed.
pub allow-success : (now : Time) (c : Circuit) → Breaker.allow now (Breaker.success c) ≡ true
unfolding Breaker.allow Breaker.success
allow-success now c = ground arith

-- The entry that a wallet call of a transfer writes.
abbrev pub entry : (String → Source) → Uuid → ℤ → Uuid → String → EntryType → LedgerEntry
entry src wallet amount transfer key type =
    new_entry (src key) 0
      (record { wallet = wallet; transfer = transfer; amount = amount; key = key; type = type })

module _ (uuid : UuidPackage) (from_error : FromError) (src : String → Source)
    (repo : TransferRepository (Calling (Session WalletDb)))
    (cache : IdempotencyCache (Calling (Session WalletDb))) (q : CreateRequest) (tr : Transfer)
    (from to : Uuid) (c : Circuit) (now : Time) (d : WalletDb) (b_from b_to : Balance) where
  abbrev key_d : String
  key_d = debit_key uuid tr.id

  abbrev key_c : String
  key_c = credit_key uuid tr.id

  abbrev wallets : WalletClient (Calling (Session WalletDb))
  wallets = client from_error (loopback uuid from_error src)

  abbrev taken : ℤ
  taken = b_from.balance_minor -ℤ q.amount

  abbrev debited : WalletDb
  debited = written (entry src from q.amount tr.id key_d debit) taken d

  -- Through the client, its circuit, the gRPC server, the service and the tables, with every
  -- database call served and no other session, and for two different wallets with sound rows, a
  -- covered amount that fits the other balance, new ids and keys and a closed circuit, both
  -- wallet calls succeed, the amount is taken from the one balance and added to the other, and
  -- each wallet gets one entry.
  pub funds_move :
      Accepted uuid q.from_id q.amount (uuid.to_string tr.id) key_d from tr.id
      → Accepted uuid q.to_id q.amount (uuid.to_string tr.id) key_c to tr.id
      → find_balance from d.account_balances ≡ some b_from
      → find_balance to d.account_balances ≡ some b_to
      → from ≢ to
      → Room (src key_d) key_d from b_from d
      → Room (src key_c) key_c to b_to d
      → (src key_d).id 0 ≢ (src key_c).id 0
      → IsInt64 b_from.balance_minor
      → q.amount ≤ℤ b_from.balance_minor
      → neg_part b_to.balance_minor ≡ 0
      → IsInt64 (b_to.balance_minor +ℤ q.amount)
      → Breaker.allow now c ≡ true
      → move_funds uuid repo wallets cache q tr (at uuid from_error src c now (quiet d)) ≡ (
        ok tt,
        at uuid from_error src (Breaker.success (Breaker.success c)) now (
            quiet (
              written
                (entry src to q.amount tr.id key_c credit)
                (b_to.balance_minor +ℤ q.amount)
                debited)),
      )
  unfolding move_funds
  funds_move acc_d acc_c row_d row_c ne room_d room_c ids fits covered nonneg fits_to closed =
      rw (first, second)
    where
      first :
          WalletClient.debit wallets q.from_id q.amount
            (uuid.to_string tr.id)
            key_d
            (at uuid from_error src c now (quiet d))
          ≡ (ok tt, at uuid from_error src (Breaker.success c) now (quiet debited))
      first =
          debit_done uuid from_error src q.from_id q.amount (uuid.to_string tr.id) key_d c now
            (quiet d) (quiet debited) closed _
            (debit_applies uuid (src key_d) q.from_id q.amount (uuid.to_string tr.id) key_d from
              tr.id acc_d d b_from row_d room_d fits covered)

      second :
          WalletClient.credit wallets q.to_id q.amount
            (uuid.to_string tr.id)
            key_c
            (at uuid from_error src (Breaker.success c) now (quiet debited))
          ≡ (
            ok tt,
            at uuid from_error src (Breaker.success (Breaker.success c)) now (
                quiet (
                  written
                    (entry src to q.amount tr.id key_c credit)
                    (b_to.balance_minor +ℤ q.amount)
                    debited)),
          )
      second =
          credit_done uuid from_error src q.to_id q.amount (uuid.to_string tr.id) key_c
            (Breaker.success c) now (quiet debited) _ (allow-success now c) _
            (credit_applies uuid (src key_c) q.to_id q.amount (uuid.to_string tr.id) key_c to tr.id
              acc_c debited b_to
              (row-written (entry src from q.amount tr.id key_d debit) taken d to b_to ne row_c)
              (Room-written (entry src from q.amount tr.id key_d debit) taken d (src key_c) key_c to
                b_to (debit_key-ne-credit_key uuid tr.id) ids room_c)
              nonneg fits_to)
