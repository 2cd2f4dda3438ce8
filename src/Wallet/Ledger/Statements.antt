-- ===== src/Wallet/Ledger/Statements.antt =====
-- The writing statements of the repository, and what they do to the promise of the tables.
use go_payment.Prelude.{
  ◌+◌, ◌^◌, ◌<◌, ◌≡◌, refl, true, none, some, List, [], ◌∷◌, ◌++◌, ℤ, pos_part, neg_part, IsInt64,
  ◌+ℤ◌, ◌-ℤ◌, ◌==◌, eq_iff, arith, ==ℤ→eq, wrap64, Option-cases, inl, inr, if◌then◌else◌,
}
use go_payment.Exec.{ok}
use go_payment.Uuid.{Uuid}
use go_payment.Wallet.Domain.{EntryType, debit, credit, other, Balance, LedgerEntry}
use go_payment.Wallet.Service.{apply}
use go_payment.Wallet.Tables.{
  WalletDb, find_balance, find_entry, set_balance, update_balance, insert_entry,
}
use go_payment.Wallet.Ledger.{credited, debited, credit_part, debit_part, UniqueKeys}
use go_payment.Wallet.Ledger.Lookup.{find_entry-append}

-- A balance that an operation computes and that is not negative is the exact one: a credit that
-- overflows int64 comes out negative.
pub apply_exact :
    (t : EntryType) (b next : Balance) (a : ℤ)
    → neg_part b.balance_minor ≡ 0
    → pos_part b.balance_minor < 2 ^ 63
    → IsInt64 a
    → apply t b a ≡ ok next
    → neg_part next.balance_minor ≡ 0
    → (pos_part next.balance_minor + debit_part t a ≡ pos_part b.balance_minor + credit_part t a)
      × (pos_part next.balance_minor < 2 ^ 63)
unfolding apply wrap64 ◌+ℤ◌ ◌-ℤ◌
apply_exact credit b next a h0 h1 ha e hn = ground arith
apply_exact debit b next a h0 h1 ha e hn = ground arith
apply_exact (other _) b next a h0 h1 ha e hn = ground arith

pub update_balance_ok :
    (id : Uuid) (new expected : ℤ) (d d' : WalletDb)
    → update_balance id new expected d ≡ ok (true, d')
    → (b : Balance) × (find_balance id d.account_balances ≡ some b)
      × (b.version ≡ expected)
      × (neg_part new ≡ 0)
      × (d' ≡ record d { account_balances = set_balance id new d.account_balances })
unfolding update_balance
update_balance_ok id new expected d d' h =
    elim (Option-cases (find_balance id d.account_balances)) [
      | inl missing ↦ ground arith
      | inr (b, found) ↦
          (b, found, ground (arith, ==ℤ→eq b.version expected), ground arith, ground arith)
    ]

pub insert_entry_ok :
    (e : LedgerEntry) (d : WalletDb) (r : Unit {0} × WalletDb)
    → insert_entry e d ≡ ok r
    → (find_entry e.idempotency_key d.ledger_entries ≡ none)
      × (r.1 ≡ record d { ledger_entries = d.ledger_entries ++ e ∷ [] })
unfolding insert_entry
insert_entry_ok e d r h = ground arith

module _ (w : Uuid) (e : LedgerEntry) where
  pub credited-append :
      (es : List LedgerEntry)
      → credited w (es ++ e ∷ [])
        ≡ credited w es + (if e.wallet_id == w then credit_part e.type e.amount_minor else 0)
  unfolding credited
  credited-append [] = ground arith
  credited-append (x ∷ es) = omega (arith, credited-append es)

  pub debited-append :
      (es : List LedgerEntry)
      → debited w (es ++ e ∷ [])
        ≡ debited w es + (if e.wallet_id == w then debit_part e.type e.amount_minor else 0)
  unfolding debited
  debited-append [] = ground arith
  debited-append (x ∷ es) = omega (arith, debited-append es)

pub UniqueKeys-append :
    (e : LedgerEntry) (es : List LedgerEntry)
    → UniqueKeys es
    → find_entry e.idempotency_key es ≡ none
    → UniqueKeys (es ++ e ∷ [])
unfolding find_entry
UniqueKeys-append e [] u h = (refl, tt)
UniqueKeys-append e (x ∷ es) u h = ground (
  arith,
  UniqueKeys-append e es u.1,
  find_entry-append x.idempotency_key e es,
  eq_iff e.idempotency_key x.idempotency_key,
  eq_iff x.idempotency_key e.idempotency_key,
)
