-- ===== src/Wallet/Contract.antt =====
-- What the wallet service relies on of its repository, and the proof that the PostgreSQL repository
-- gives it: each call takes a step, and a balance that was read stays known.
use go_payment.Prelude.{arith, refl, eq_iff, ◌≡◌, String, some, ℤ, IsInt64}
use go_payment.Exec.{ok}
use go_payment.Database.{Session, after_others}
use go_payment.Uuid.{Uuid}
use go_payment.Wallet.Domain.{Wallet, Balance, LedgerEntry}
use go_payment.Wallet.Ports.{WalletRepository}
use go_payment.Wallet.Service.{apply}
use go_payment.Wallet.Tables.{WalletDb, find_entry}
use go_payment.Wallet.Postgres.{
  pg_repo, mutate_balance, mutate_balance_tx, get_entry_by_idempotency,
}
use go_payment.Wallet.Ledger.Lookup.{find_entry-append}
use go_payment.Wallet.Ledger.Statements.{insert_entry_ok}
use go_payment.Wallet.Ledger.Transactions.{Seen, mutate_balance_tx_ok}
use go_payment.Wallet.Ledger.Sessions.{
  Sound, Step, Step-refl, Step-trans, Step-Sound, get_balance-Seen, query_ok, in_transaction_ok,
}
use go_payment.Wallet.Ledger.Calls.{
  create_wallet-Step, get_wallet-Step, get_balance-Step, get_entry-Step, mutate_balance-Step,
}

-- `Inv` holds between two calls, `Next` relates the states before and after one, and `Knows b`
-- says that the balance `b` was read earlier; `Holds k id` that the entry with key `k` has this id.
pub record IsRepository {S : Type 0} (repo : WalletRepository S) (Inv : S → Type 0)
    (Next : S → S → Type 0) (Knows : Balance → S → Type 0) (Holds : String → Uuid → S → Type 0)
    : Type 0 where
  pub stay : (s : S) → Next s s
  pub trans : (a b c : S) → Next a b → Next b c → Next a c
  pub keep : (s s' : S) → Next s s' → Inv s → Inv s'
  pub create_wallet : (w : Wallet) (s : S) → Inv s → Next s (repo.create_wallet w s).1
  pub get_wallet : (id : Uuid) (s : S) → Inv s → Next s (repo.get_wallet id s).1
  pub get_balance : (id : Uuid) (s : S) → Inv s → Next s (repo.get_balance id s).1
  pub get_entry : (k : String) (s : S) → Inv s → Next s (repo.get_entry_by_idempotency k s).1
  pub knows :
      (id : Uuid) (b : Balance) (s : S)
      → Inv s
      → (repo.get_balance id s).0 ≡ ok b
      → Knows b (repo.get_balance id s).1 × (b.wallet_id ≡ id)
  pub mutate_balance :
      (b next : Balance) (e : LedgerEntry) (s : S)
      → b.wallet_id ≡ e.wallet_id
      → IsInt64 e.amount_minor
      → apply e.type b e.amount_minor ≡ ok next
      → Inv s
      → Knows b s
      → Next s (repo.mutate_balance e.wallet_id b.version next.balance_minor e s).1
  pub holds : (k : String) (id : Uuid) (s s' : S) → Next s s' → Holds k id s → Holds k id s'
  pub found :
      (k : String) (e : LedgerEntry) (s : S)
      → (repo.get_entry_by_idempotency k s).0 ≡ ok (some e)
      → Holds k e.id (repo.get_entry_by_idempotency k s).1
  pub committed :
      (w : Uuid) (v new : ℤ) (e : LedgerEntry) (s : S)
      → (repo.mutate_balance w v new e s).0 ≡ ok tt
      → Holds e.idempotency_key e.id (repo.mutate_balance w v new e s).1

abbrev pub KnowsRow : Balance → Session WalletDb → Type 0
KnowsRow b s = Seen b s.tables

abbrev pub HoldsEntry : String → Uuid → Session WalletDb → Type 0
HoldsEntry k id s =
    (e : LedgerEntry) × (find_entry k s.tables.ledger_entries ≡ some e) × (e.id ≡ id)

get_entry_ok :
    (k : String) (e : LedgerEntry) (s : Session WalletDb)
    → (get_entry_by_idempotency k s).0 ≡ ok (some e)
    → find_entry k (get_entry_by_idempotency k s).1.tables.ledger_entries ≡ some e
unfolding get_entry_by_idempotency
get_entry_ok k e s h = cc (query_ok (λ d. ok (find_entry k d.ledger_entries)) s (some e) h)

committed-HoldsEntry :
    (w : Uuid) (v new : ℤ) (e : LedgerEntry) (s : Session WalletDb)
    → (mutate_balance w v new e s).0 ≡ ok tt
    → HoldsEntry e.idempotency_key e.id (mutate_balance w v new e s).1
unfolding mutate_balance
committed-HoldsEntry w v new e s h =
    let (ended, same) = in_transaction_ok (mutate_balance_tx w v new e) s tt h in
    let (d', _, inserted) = mutate_balance_tx_ok w v new e (after_others s) ended in
    let (fresh, rows) = insert_entry_ok e d' _ inserted in
    (
      e,
      rw (same, rows, find_entry-append e.idempotency_key e d'.ledger_entries, fresh)
          (ground (arith, eq_iff e.idempotency_key e.idempotency_key)),
      refl,
    )

-- The PostgreSQL repository keeps the contract on every schedule of admissible sessions.
pub pg_repo-IsRepository : IsRepository pg_repo Sound Step KnowsRow HoldsEntry
pg_repo-IsRepository = record {
  stay = Step-refl;
  trans = λ a b c p q. Step-trans p q;
  keep = λ s s' p h. Step-Sound p h;
  create_wallet = create_wallet-Step;
  get_wallet = get_wallet-Step;
  get_balance = get_balance-Step;
  get_entry = get_entry-Step;
  knows = get_balance-Seen;
  mutate_balance = λ b next e s same int64 applied h seen.
      mutate_balance-Step b next e same int64 applied s h seen;
  holds = λ k id s s' p h. (h.0, p.extends.entries k h.0 h.1, h.2);
  found = λ k e s h. (e, get_entry_ok k e s h, refl);
  committed = committed-HoldsEntry;
}
