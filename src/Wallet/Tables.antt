-- ===== src/Wallet/Tables.antt =====
-- The tables of db/migrations/wallet/00001_ledger.sql with their constraints, and the statements of
-- internal/wallet/adapters/postgres/repo.go on them. A constraint that fails has its SQLSTATE code.
use go_payment.Prelude.{
  ◌-◌, ◌^◌, String, Bool, true, false, Option, none, some, List, [], ◌∷◌, ◌++◌, ℤ, pos, ◌+ℤ◌, ltb_ℤ,
  leb_ℤ, ◌==ℤ◌, ◌==◌, ◌&&◌, ◌||◌, not, str_eq, if◌then◌else◌,
}
use go_payment.Errors.{pg_error}
use go_payment.Exec.{Result, ok, err}
use go_payment.Uuid.{Uuid}
use go_payment.Wallet.Domain.{EntryType, debit, credit, other, Wallet, Balance, LedgerEntry}

pub record WalletDb : Type 0 where
  pub wallets : List Wallet
  pub account_balances : List Balance
  pub ledger_entries : List LedgerEntry

abbrev pub unique_violation : String
unique_violation = "23505"

abbrev pub foreign_key_violation : String
foreign_key_violation = "23503"

abbrev pub check_violation : String
check_violation = "23514"

abbrev pub out_of_range : String
out_of_range = "22003"

-- SELECT ... FROM wallets WHERE id = $1
unfoldable pub find_wallet : Uuid → List Wallet → Option Wallet
find_wallet id [] = none
find_wallet id (w ∷ ws) = if w.id == id then some w else find_wallet id ws

-- SELECT ... FROM account_balances WHERE wallet_id = $1
unfoldable pub find_balance : Uuid → List Balance → Option Balance
find_balance id [] = none
find_balance id (b ∷ bs) = if b.wallet_id == id then some b else find_balance id bs

-- SELECT ... FROM ledger_entries WHERE idempotency_key = $1
unfoldable pub find_entry : String → List LedgerEntry → Option LedgerEntry
find_entry key [] = none
find_entry key (e ∷ es) = if str_eq e.idempotency_key key then some e else find_entry key es

-- UNIQUE (user_id, currency)
unfoldable pub has_currency : Uuid → String → List Wallet → Bool
has_currency user cur [] = false
has_currency user cur (w ∷ ws) =
    (w.user_id == user && str_eq w.currency cur) || has_currency user cur ws

-- PRIMARY KEY (id) of ledger_entries
unfoldable pub has_entry_id : Uuid → List LedgerEntry → Bool
has_entry_id id [] = false
has_entry_id id (e ∷ es) = (e.id == id) || has_entry_id id es

abbrev pub is_some : {A : Type 0} → Option A → Bool
is_some none = false
is_some (some _) = true

-- CHECK (entry_type IN ('debit', 'credit'))
abbrev pub known_type : EntryType → Bool
known_type debit = true
known_type credit = true
known_type (other t) = str_eq t "debit" || str_eq t "credit"

-- INSERT INTO wallets
unfoldable pub insert_wallet : Wallet → WalletDb → Result (Unit {0} × WalletDb)
insert_wallet w d =
    if is_some (find_wallet w.id d.wallets) || has_currency w.user_id w.currency d.wallets
    then err (pg_error unique_violation)
    else ok (tt, record d { wallets = d.wallets ++ w ∷ [] })

-- INSERT INTO account_balances (wallet_id, balance_minor, version) VALUES ($1, 0, 0)
unfoldable pub insert_balance : Uuid → WalletDb → Result (Unit {0} × WalletDb)
insert_balance id d =
    if is_some (find_balance id d.account_balances)
    then err (pg_error unique_violation)
    else if is_some (find_wallet id d.wallets)
    then ok (
      tt,
      record d {
        account_balances =
            d.account_balances
            ++ record { wallet_id = id; balance_minor = pos 0; version = pos 0 } ∷ [];
      },
    )
    else err (pg_error foreign_key_violation)

-- The rows after SET balance_minor = $1, version = version + 1 WHERE wallet_id = $2.
unfoldable pub set_balance : Uuid → ℤ → List Balance → List Balance
set_balance id new [] = []
set_balance id new (b ∷ bs) =
    if b.wallet_id == id
    then record b { balance_minor = new; version = b.version +ℤ pos 1 } ∷ bs
    else b ∷ set_balance id new bs

abbrev pub update_found : Uuid → ℤ → ℤ → WalletDb → Option Balance → Result (Bool × WalletDb)
update_found id new expected d none = ok (false, d)
update_found id new expected d (some b) =
    if not (b.version ==ℤ expected)
    then ok (false, d)
    else if ltb_ℤ new (pos 0)
    then err (pg_error check_violation)
    else if leb_ℤ (pos (2 ^ 63 - 1)) b.version
    then err (pg_error out_of_range)
    else ok (true, record d { account_balances = set_balance id new d.account_balances })

-- UPDATE account_balances SET balance_minor = $1, version = version + 1 WHERE wallet_id = $2 AND
-- version = $3; whether a row was affected.
unfoldable pub update_balance : Uuid → ℤ → ℤ → WalletDb → Result (Bool × WalletDb)
unfolding find_balance set_balance
update_balance id new expected d =
    update_found id new expected d (find_balance id d.account_balances)

-- INSERT INTO ledger_entries
unfoldable pub insert_entry : LedgerEntry → WalletDb → Result (Unit {0} × WalletDb)
insert_entry e d =
    if not (known_type e.type) || leb_ℤ e.amount_minor (pos 0)
    then err (pg_error check_violation)
    else if has_entry_id e.id d.ledger_entries
        || is_some (find_entry e.idempotency_key d.ledger_entries)
    then err (pg_error unique_violation)
    else if is_some (find_wallet e.wallet_id d.wallets)
    then ok (tt, record d { ledger_entries = d.ledger_entries ++ e ∷ [] })
    else err (pg_error foreign_key_violation)
