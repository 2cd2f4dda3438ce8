-- ===== src/Wallet/Currency.antt =====
-- A user has one wallet in a currency: UNIQUE (user_id, currency) of the table wallets.
use Prim.Native.String.{len}
use go_payment.Prelude.{
  ◌≡◌, ◌∙◌, sym, ◌⊎◌, inl, inr, refl, String, true, false, List, [], ◌∷◌, ◌++◌, arith, ◌==◌, ◌||◌,
  not, eq_iff, str_eq, Bool-cases, Option-cases,
}
use mathlib.Core.Bool.{false≢true}
use go_payment.Errors.{
  GoError, Code, status, Sentinel, sentinel, pg_error, wrapped, is, has_pg_code, text,
}
use go_payment.Exec.{ok, err, Result-cases}
use go_payment.Database.{quiet, tx_exec, in_transaction}
use go_payment.Uuid.{Uuid, Time, UuidPackage}
use go_payment.Wallet.Domain.{Wallet, new_wallet}
use go_payment.Wallet.Tables.{
  WalletDb, find_wallet, has_currency, insert_wallet, insert_balance, is_some, unique_violation,
}
use go_payment.Wallet.Postgres.{pg_repo, create_wallet}
use go_payment.Wallet.Service
use go_payment.Wallet.Server

has_currency-append :
    (user : Uuid) (cur : String) (ws : List Wallet) (w : Wallet)
    → w.user_id ≡ user
    → w.currency ≡ cur
    → has_currency user cur (ws ++ w ∷ []) ≡ true
unfolding has_currency
has_currency-append user cur [] w u c = ground (arith, eq_iff w.currency cur)
has_currency-append user cur (x ∷ ws) w u c = ground (arith, has_currency-append user cur ws w)

insert_wallet-cases :
    (w : Wallet) (d : WalletDb)
    → (insert_wallet w d ≡ err (pg_error unique_violation))
      ⊎ ((insert_wallet w d ≡ ok (tt, record d { wallets = d.wallets ++ w ∷ [] }))
          × (has_currency w.user_id w.currency d.wallets ≡ false))
unfolding insert_wallet
insert_wallet-cases w d =
    elim (Bool-cases
      (is_some (find_wallet w.id d.wallets) || has_currency w.user_id w.currency d.wallets)) [
        | inl there ↦ inl (rw there refl)
        | inr new ↦ inr (rw new refl, ground (arith, new))
      ]

insert_balance_wallets :
    (id : Uuid) (d d' : WalletDb) → insert_balance id d ≡ ok (tt, d') → d'.wallets ≡ d.wallets
unfolding insert_balance
insert_balance_wallets id d d' h = ground arith

pub create_wallet_refused :
    (w : Wallet) (d : WalletDb)
    → has_currency w.user_id w.currency d.wallets ≡ true
    → create_wallet w (quiet d) ≡ (err (sentinel Sentinel.already_exists), quiet d)
unfolding create_wallet in_transaction tx_exec has_pg_code
create_wallet_refused w d taken = elim (insert_wallet-cases w d) [
  | inl refused ↦ rw refused refl
  | inr (done, new) ↦ absurd (false≢true (sym new ∙ taken))
]

pub create_wallet_taken :
    (w : Wallet) (d : WalletDb)
    → ((e : GoError) × ((create_wallet w (quiet d)).0 ≡ err e))
      ⊎ ((d' : WalletDb) × (create_wallet w (quiet d) ≡ (ok tt, quiet d'))
          × (has_currency w.user_id w.currency d'.wallets ≡ true))
unfolding create_wallet in_transaction tx_exec has_pg_code
create_wallet_taken w d = elim (insert_wallet-cases w d) [
  | inl refused ↦ inl (sentinel Sentinel.already_exists, rw refused refl)
  | inr (done, new) ↦
      let d1 : WalletDb = record d { wallets = d.wallets ++ w ∷ [] } in
      elim (Result-cases (insert_balance w.id d1)) [
        | inr (e, failed) ↦ inl (wrapped "insert balance: " e "", rw (done, failed) refl)
        | inl ((u, d2), inserted) ↦ inr (
          d2,
          rw (done, inserted) refl,
          rw (insert_balance_wallets w.id d1 d2 inserted)
              (has_currency-append w.user_id w.currency d.wallets w refl refl),
        )
      ]
]

-- CreateWallet of the server, twice for one user and currency.
pub create_wallet_once :
    (uuid : UuidPackage) (id id' : Uuid) (now now' : Time) (user currency : String) (d : WalletDb)
    → let call = Server.create_wallet uuid pg_repo in
      ((e : GoError) × ((call id now user currency (quiet d)).0 ≡ err e))
      ⊎ ((d' : WalletDb) × ((call id now user currency (quiet d)).1 ≡ quiet d')
          × (call id' now' user currency (quiet d') ≡ (
            err (status Code.already_exists (text (sentinel Sentinel.already_exists))),
            quiet d',
          )))
unfolding Server.create_wallet Service.create_wallet new_wallet Server.map_err is
create_wallet_once uuid id id' now now' user currency d = elim (Option-cases (uuid.parse user)) [
  | inl unread ↦ inl (Server.map_err (sentinel Sentinel.invalid_argument), rw unread refl)
  | inr (uid, reads) ↦ elim (Bool-cases (str_eq currency "" || not (len currency == 3))) [
    | inl bad ↦ inl (Server.map_err (sentinel Sentinel.invalid_currency), rw (reads, bad) refl)
    | inr fine ↦
        elim (create_wallet_taken
          (record { id = id; user_id = uid; currency = currency; created_at = now }) d) [
            | inl (e, failed) ↦ inl (Server.map_err e, rw (reads, fine, failed) refl)
            | inr (d', made, taken) ↦ inr (
              d',
              rw (reads, fine, made) refl,
              rw
                  (
                    reads,
                    fine,
                    create_wallet_refused
                        (record { id = id'; user_id = uid; currency = currency; created_at = now' })
                        d' taken,
                  )
                  refl,
            )
          ]
  ]
]
