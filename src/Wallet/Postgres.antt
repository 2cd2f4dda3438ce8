-- ===== src/Wallet/Postgres.antt =====
-- internal/wallet/adapters/postgres/repo.go
use go_payment.Prelude.{String, Option, none, some, ℤ, not, if◌then◌else◌}
use go_payment.Errors.{GoError, sentinel, wrapped, has_pg_code, already_exists, not_found}
use go_payment.Errors.{version_conflict}
use go_payment.Exec.{Result, ok, err, Exec, pure, fail, attempt, fail_if, ◌>>=◌, ◌>>◌}
use go_payment.Database.{Session, query, tx_exec, in_transaction}
use go_payment.Uuid.{Uuid}
use go_payment.Wallet.Domain.{Wallet, Balance, LedgerEntry}
use go_payment.Wallet.Ports.{WalletRepository}
use go_payment.Wallet.Tables.{
  WalletDb, unique_violation, find_wallet, find_balance, find_entry, insert_wallet, insert_balance,
  update_balance, insert_entry,
}

abbrev pub WalletExec : Type 0 → Type 0
WalletExec A = Exec (Session WalletDb) A

-- pgx.ErrNoRows becomes ErrNotFound
abbrev pub row_or_not_found : {A : Type 0} → Option A → Result A
row_or_not_found none = err (sentinel not_found)
row_or_not_found (some a) = ok a

-- A unique violation becomes ErrAlreadyExists; any other error is passed through `other`.
abbrev pub unique_or : {A : Type 0} → (GoError → GoError) → Result A → WalletExec A
unique_or other (ok a) = pure a
unique_or other (err e) =
    if has_pg_code e unique_violation then fail (sentinel already_exists) else fail (other e)

abbrev pub or_wrapped : {A : Type 0} → String → Result A → WalletExec A
or_wrapped before (ok a) = pure a
or_wrapped before (err e) = fail (wrapped before e "")

-- fmt.Errorf("insert wallet: %w", err)
abbrev pub insert_failed : GoError → GoError
insert_failed e = wrapped "insert wallet: " e ""

-- The statements of CreateWallet's transaction.
unfoldable pub create_wallet_tx : Wallet → WalletExec (Unit {0})
create_wallet_tx w = do
  r ← attempt (tx_exec (insert_wallet w))
  unique_or insert_failed r
  r' ← attempt (tx_exec (insert_balance w.id))
  or_wrapped "insert balance: " r'

unfoldable pub create_wallet : Wallet → WalletExec (Unit {0})
unfolding create_wallet_tx
create_wallet w = in_transaction (create_wallet_tx w)

unfoldable pub get_wallet : Uuid → WalletExec Wallet
get_wallet id = query (λ d. row_or_not_found (find_wallet id d.wallets))

unfoldable pub get_balance : Uuid → WalletExec Balance
get_balance id = query (λ d. row_or_not_found (find_balance id d.account_balances))

unfoldable pub get_entry_by_idempotency : String → WalletExec (Option LedgerEntry)
get_entry_by_idempotency key = query (λ d. ok (find_entry key d.ledger_entries))

-- The statements of MutateBalance's transaction.
unfoldable pub mutate_balance_tx : Uuid → ℤ → ℤ → LedgerEntry → WalletExec (Unit {0})
mutate_balance_tx wallet expected new entry = do
  affected ← tx_exec (update_balance wallet new expected)
  fail_if (not affected) (sentinel version_conflict)
  r ← attempt (tx_exec (insert_entry entry))
  unique_or (λ e. e) r

unfoldable pub mutate_balance : Uuid → ℤ → ℤ → LedgerEntry → WalletExec (Unit {0})
unfolding mutate_balance_tx
mutate_balance wallet expected new entry =
    in_transaction (mutate_balance_tx wallet expected new entry)

abbrev pub pg_repo : WalletRepository (Session WalletDb)
pg_repo = record {
  create_wallet = create_wallet;
  get_wallet = get_wallet;
  get_balance = get_balance;
  get_entry_by_idempotency = get_entry_by_idempotency;
  mutate_balance = mutate_balance;
}
