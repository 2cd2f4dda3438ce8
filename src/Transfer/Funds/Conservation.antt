-- ===== src/Transfer/Funds/Conservation.antt =====
-- Whatever becomes of the two wallet calls of a transfer, they make no money, and lose none but a debit
-- that could not be given back.
use Prim.Native.String.{◌++◌}
use text.Mathlib.TextLemmas.{append_cancel_left, append-nil}
use mathlib.Core.Bool.{false≢true}
use go_payment.Prelude.{
  ◌+◌, ◌≡◌, ◌≢◌, ◌⊎◌, inl, inr, refl, sym, ◌∙◌, String, none, ℤ, pos_part, IsInt64, arith, eq_iff,
  Bool-cases,
}
use go_payment.Errors.{GoError, Sentinel, sentinel}
use go_payment.Exec.{ok, err}
use go_payment.Breaker
use go_payment.Breaker.{Circuit}
use go_payment.Database.{Session, quiet}
use go_payment.Uuid.{Uuid, UuidPackage, Source, Time}
use go_payment.Wallet.Domain.{debit as debit_entry, credit as credit_entry}
use go_payment.Wallet.Service.{debit_wallet, credit_wallet}
use go_payment.Wallet.Tables.{WalletDb, find_entry}
use go_payment.Wallet.Ledger.{IsConsistent}
use go_payment.Wallet.Replies.{Accepted}
use go_payment.Wallet.Total.{total, Moved, mutate_total}
use go_payment.Transfer.Domain.{Transfer}
use go_payment.Transfer.Ports.{TransferRepository, IdempotencyCache}
use go_payment.Transfer.Service.{CreateRequest, debit_key, credit_key, compensation_key, move_funds}
use go_payment.Transfer.WalletClient.{FromError, Calling, client, debit, credit}
use go_payment.Transfer.Funds.{loopback, at, debit_done, debit_failed, credit_done, credit_failed}
use go_payment.Transfer.Funds.Moves.{debit_key-ne-credit_key}

-- A text is not itself and more.
longer_differs : (s t : String) → t ≢ "" → s ≢ s ++ t
longer_differs s t ne e = ne (append_cancel_left s t "" (sym e ∙ sym (append-nil s)))

abbrev compensate_suffix : String
compensate_suffix = ":compensate"

abbrev empty : String
empty = ""

compensate_suffix-ne-empty : compensate_suffix ≢ empty
compensate_suffix-ne-empty e = false≢true ((eq_iff compensate_suffix empty).1 e)

debit_key-ne-compensation_key :
    (uuid : UuidPackage) (id : Uuid) → debit_key uuid id ≢ compensation_key uuid id
debit_key-ne-compensation_key uuid id =
    longer_differs (debit_key uuid id) ":compensate" compensate_suffix-ne-empty

module _ (uuid : UuidPackage) (from_error : FromError) (src : String → Source) (wallet_id : String)
    (amount : ℤ) (transfer_id key : String) (wid tid : Uuid) (now : Time) where
  debit_total :
      (c : Circuit) (d : WalletDb)
      → Accepted uuid wallet_id amount transfer_id key wid tid
      → IsInt64 amount
      → IsConsistent d
      → find_entry key d.ledger_entries ≡ none
      → let run =
          debit from_error
            (loopback uuid from_error src)
            wallet_id
            amount
            transfer_id
            key
            (at uuid from_error src c now (quiet d)) in
        ((e : GoError) × (c' : Circuit) × (run ≡ (err e, at uuid from_error src c' now (quiet d))))
        ⊎ ((c' : Circuit) × (d' : WalletDb) × (run
              ≡ (ok tt, at uuid from_error src c' now (quiet d')))
            × Moved debit_entry amount key d d')
  unfolding debit debit_wallet
  debit_total c d accepted int64 consistent fresh = elim (Bool-cases (Breaker.allow now c)) [
    | inr refused ↦ inl (sentinel Sentinel.circuit_open, c, rw refused refl)
    | inl allowed ↦
        elim (mutate_total uuid (src key) wallet_id amount transfer_id key wid tid debit_entry d
          accepted int64 consistent fresh) [
            | inl (e, failed) ↦ inl (
              _,
              _,
              debit_failed uuid from_error src wallet_id amount transfer_id key c now (quiet d)
                  (quiet d) allowed e failed,
            )
            | inr (r, d', done, moved) ↦ inr (
              _,
              d',
              debit_done uuid from_error src wallet_id amount transfer_id key c now (quiet d)
                  (quiet d') allowed r done,
              moved,
            )
          ]
  ]

  credit_total :
      (c : Circuit) (d : WalletDb)
      → Accepted uuid wallet_id amount transfer_id key wid tid
      → IsInt64 amount
      → IsConsistent d
      → find_entry key d.ledger_entries ≡ none
      → let run =
          credit from_error
            (loopback uuid from_error src)
            wallet_id
            amount
            transfer_id
            key
            (at uuid from_error src c now (quiet d)) in
        ((e : GoError) × (c' : Circuit) × (run ≡ (err e, at uuid from_error src c' now (quiet d))))
        ⊎ ((c' : Circuit) × (d' : WalletDb) × (run
              ≡ (ok tt, at uuid from_error src c' now (quiet d')))
            × Moved credit_entry amount key d d')
  unfolding credit credit_wallet
  credit_total c d accepted int64 consistent fresh = elim (Bool-cases (Breaker.allow now c)) [
    | inr refused ↦ inl (sentinel Sentinel.circuit_open, c, rw refused refl)
    | inl allowed ↦
        elim (mutate_total uuid (src key) wallet_id amount transfer_id key wid tid credit_entry d
          accepted int64 consistent fresh) [
            | inl (e, failed) ↦ inl (
              _,
              _,
              credit_failed uuid from_error src wallet_id amount transfer_id key c now (quiet d)
                  (quiet d) allowed e failed,
            )
            | inr (r, d', done, moved) ↦ inr (
              _,
              d',
              credit_done uuid from_error src wallet_id amount transfer_id key c now (quiet d)
                  (quiet d') allowed r done,
              moved,
            )
          ]
  ]

module _ (uuid : UuidPackage) (from_error : FromError) (src : String → Source)
    (repo : TransferRepository (Calling (Session WalletDb)))
    (cache : IdempotencyCache (Calling (Session WalletDb))) (q : CreateRequest) (tr : Transfer)
    (from to : Uuid) (c : Circuit) (now : Time) (d : WalletDb) where
  -- Through the client, its circuit, the gRPC server, the service and the tables, with every
  -- database call served and no other session, from consistent wallet tables, for arguments in
  -- order, an int64 amount and three keys that no entry has: whatever the balances, the ids, the
  -- circuit and the clock are, the two wallet calls of a transfer leave consistent tables; when
  -- they succeed the sum of all balances is what it was; when they fail it is too, or it is short
  -- of just the amount and no entry has the key of the compensation.
  pub funds_conserved :
      Accepted uuid q.from_id q.amount (uuid.to_string tr.id) (debit_key uuid tr.id) from tr.id
      → Accepted uuid q.to_id q.amount (uuid.to_string tr.id) (credit_key uuid tr.id) to tr.id
      → Accepted uuid q.from_id q.amount
          (uuid.to_string tr.id)
          (compensation_key uuid tr.id)
          from
          tr.id
      → IsInt64 q.amount
      → IsConsistent d
      → find_entry (debit_key uuid tr.id) d.ledger_entries ≡ none
      → find_entry (credit_key uuid tr.id) d.ledger_entries ≡ none
      → find_entry (compensation_key uuid tr.id) d.ledger_entries ≡ none
      → let run =
          move_funds uuid repo
            (client from_error (loopback uuid from_error src))
            cache
            q
            tr
            (at uuid from_error src c now (quiet d)) in
        (d' : WalletDb) × (c' : Circuit) × IsConsistent d'
        × (run.1 ≡ at uuid from_error src c' now (quiet d'))
        × (((run.0 ≡ ok tt) × (total d'.account_balances ≡ total d.account_balances))
            ⊎ ((e : GoError) × (run.0 ≡ err e)
                × ((total d'.account_balances ≡ total d.account_balances)
                    ⊎ ((total d'.account_balances + pos_part q.amount ≡ total d.account_balances)
                        × (find_entry (compensation_key uuid tr.id) d'.ledger_entries ≡ none)))))
  unfolding move_funds
  funds_conserved acc_d acc_c acc_x int64 consistent new_d new_c new_x =
      elim (debit_total uuid from_error src q.from_id q.amount (uuid.to_string tr.id)
        (debit_key uuid tr.id) from tr.id now c d acc_d int64 consistent new_d) [
          | inl (e, c1, refused) ↦ rw refused (d, c1, consistent, refl, inr (e, refl, inl refl))
          | inr (c1, d1, debited, taken) ↦
              let new_c1 =
                taken.others (credit_key uuid tr.id) (debit_key-ne-credit_key uuid tr.id) new_c in
              let new_x1 =
                taken.others (compensation_key uuid tr.id)
                  (debit_key-ne-compensation_key uuid tr.id) new_x in
              elim (credit_total uuid from_error src q.to_id q.amount (uuid.to_string tr.id)
                (credit_key uuid tr.id) to tr.id now c1 d1 acc_c int64 taken.consistent new_c1) [
                  | inr (c2, d2, credited, given) ↦
                      rw (debited, credited)
                        (
                          d2,
                          c2,
                          given.consistent,
                          refl,
                          inl (refl, omega (arith, taken.sum, given.sum)),
                        )
                  | inl (e, c2, failed) ↦
                      elim (credit_total uuid from_error src q.from_id q.amount
                        (uuid.to_string tr.id) (compensation_key uuid tr.id) from tr.id now c2 d1
                        acc_x int64 taken.consistent new_x1) [
                          | inr (c3, d3, restored, back) ↦
                              rw (debited, failed, restored)
                                (
                                  d3,
                                  c3,
                                  back.consistent,
                                  refl,
                                  inr (e, refl, inl (omega (arith, taken.sum, back.sum))),
                                )
                          | inl (e', c3, lost) ↦
                              rw (debited, failed, lost)
                                (
                                  d1,
                                  c3,
                                  taken.consistent,
                                  refl,
                                  inr (e, refl, inr (omega (arith, taken.sum), new_x1)),
                                )
                        ]
                ]
        ]
