-- ===== src/Wallet/Ledger/Calls.antt =====
-- Each call of the wallet repository is a step: it extends the tables, whatever the schedule is.
use go_payment.Prelude.{
  ◌≡◌, refl, sym, ◌∙◌, ap, String, none, [], ◌∷◌, ◌++◌, ℤ, pos, IsInt64, arith, inl, inr, Bool, not,
  Bool-cases,
}
use go_payment.Exec.{Result, ok, err, attempt, continue, fail_if, ◌>>=◌}
use go_payment.Errors.{GoError, has_pg_code}
use go_payment.Database.{
  Session, tx_exec, settle, later, first_verdict, Verdict, served, refused, lost,
}
use go_payment.Uuid.{Uuid}
use go_payment.Wallet.Domain.{Wallet, Balance, LedgerEntry}
use go_payment.Wallet.Service.{apply}
use go_payment.Wallet.Tables.{
  WalletDb, find_balance, find_entry, update_balance, insert_entry, insert_wallet, insert_balance,
  unique_violation,
}
use go_payment.Wallet.Postgres.{
  WalletExec, unique_or, insert_failed, or_wrapped, create_wallet_tx, create_wallet,
  mutate_balance_tx, mutate_balance, get_wallet, get_balance, get_entry_by_idempotency,
}
use go_payment.Wallet.Ledger.{Extends}
use go_payment.Wallet.Ledger.Lookup.{find_balance-append}
use go_payment.Wallet.Ledger.Statements.{update_balance_ok, insert_entry_ok}
use go_payment.Wallet.Ledger.Transactions.{Seen, written, written-Extends, mutate_balance_tx_ok}
use go_payment.Wallet.Ledger.Sessions.{
  Sound, Step, Admissible, later-Admissible, query-Step, in_transaction-Step,
}

-- A caller's knowledge of a balance survives the steps of others.
pub Seen-Step :
    {s s' : Session WalletDb} (b : Balance) → Step s s' → Seen b s.tables → Seen b s'.tables
Seen-Step b p h = record {
  positive = h.positive;
  fits = h.fits;
  follows = p.extends.balances b.wallet_id b h.follows;
}

settle-turns :
    {A : Type 0} (s : Session WalletDb) (v : Verdict) (r : Result (A × WalletDb))
    → (settle s v r).1.turns ≡ s.turns
settle-turns s served (ok r) = refl
settle-turns s served (err e) = refl
settle-turns s (refused e) (ok r) = refl
settle-turns s (refused e) (err x) = refl
settle-turns s (lost e) (ok r) = refl
settle-turns s (lost e) (err x) = refl

-- A transaction's body only goes on in the schedule; one rule for each way to build a body.
record KeepsTurns {A : Type 0} (m : WalletExec A) : Type 0 where
  at : (s : Session WalletDb) → Admissible s.turns → Admissible (m s).1.turns

module _ {A : Type 0} where
  KeepsTurns-tx_exec : (f : WalletDb → Result (A × WalletDb)) → KeepsTurns (tx_exec f)
  unfolding tx_exec
  KeepsTurns-tx_exec f = record {
    at = λ s a.
        rw (settle-turns (record s { turns = later s.turns }) (first_verdict s.turns) (f s.tables))
          (later-Admissible s.turns a);
  }

  KeepsTurns-attempt : (m : WalletExec A) → KeepsTurns m → KeepsTurns (attempt m)
  KeepsTurns-attempt m k = record { at = k.at }

  KeepsTurns-or_wrapped : (t : String) (r : Result A) → KeepsTurns (or_wrapped t r)
  KeepsTurns-or_wrapped t (ok a) = record { at = λ s a. a }
  KeepsTurns-or_wrapped t (err e) = record { at = λ s a. a }

  KeepsTurns-unique_or : (f : GoError → GoError) (r : Result A) → KeepsTurns (unique_or f r)
  KeepsTurns-unique_or f (ok a) = record { at = λ s a. a }
  KeepsTurns-unique_or f (err e) = record {
    at = λ s a. elim (Bool-cases (has_pg_code e unique_violation)) [
      | inl dup ↦ rw dup a
      | inr other ↦ rw other a
    ];
  }

  KeepsTurns-continue :
      {B : Type 0} (f : A → WalletExec B) (r : Result A) (s : Session WalletDb)
      → ((a : A) → KeepsTurns (f a))
      → Admissible s.turns
      → Admissible (continue f r s).1.turns
  KeepsTurns-continue f (ok a) s k h = (k a).at s h
  KeepsTurns-continue f (err e) s k h = h

  KeepsTurns-bind :
      {B : Type 0} (m : WalletExec A) (f : A → WalletExec B)
      → KeepsTurns m
      → ((a : A) → KeepsTurns (f a))
      → KeepsTurns (m >>= f)
  KeepsTurns-bind m f km kf = record {
    at = λ s a. KeepsTurns-continue f (m s).0 (m s).1 kf (km.at s a);
  }

KeepsTurns-fail_if : (c : Bool) (e : GoError) → KeepsTurns (fail_if c e)
KeepsTurns-fail_if c e = record { at = λ s a. a }

mutate_balance_tx-KeepsTurns :
    (w : Uuid) (v new : ℤ) (e : LedgerEntry) → KeepsTurns (mutate_balance_tx w v new e)
unfolding mutate_balance_tx
mutate_balance_tx-KeepsTurns w v new e =
    KeepsTurns-bind (tx_exec (update_balance w new v)) _ (KeepsTurns-tx_exec _) λ affected.
      KeepsTurns-bind (fail_if (not affected) _) _ (KeepsTurns-fail_if _ _) λ u.
        KeepsTurns-bind (attempt (tx_exec (insert_entry e))) _
          (KeepsTurns-attempt _ (KeepsTurns-tx_exec _)) λ r. KeepsTurns-unique_or (λ x. x) r

create_wallet_tx-KeepsTurns : (w : Wallet) → KeepsTurns (create_wallet_tx w)
unfolding create_wallet_tx
create_wallet_tx-KeepsTurns w =
    KeepsTurns-bind (attempt (tx_exec (insert_wallet w))) _
      (KeepsTurns-attempt _ (KeepsTurns-tx_exec _))
      λ r. KeepsTurns-bind (unique_or insert_failed r) _ (KeepsTurns-unique_or insert_failed r) λ u.
        KeepsTurns-bind (attempt (tx_exec (insert_balance w.id))) _
          (KeepsTurns-attempt _ (KeepsTurns-tx_exec _))
          λ r'. KeepsTurns-or_wrapped "insert balance: " r'

abbrev with_entry : LedgerEntry → WalletDb → WalletDb
with_entry e d = record d { ledger_entries = d.ledger_entries ++ e ∷ [] }

module _ (b next : Balance) (e : LedgerEntry) (same : b.wallet_id ≡ e.wallet_id)
    (int64 : IsInt64 e.amount_minor) (applied : apply e.type b e.amount_minor ≡ ok next) where
  abbrev body : WalletExec (Unit {0})
  body = mutate_balance_tx e.wallet_id b.version next.balance_minor e

  body-Extends :
      (s : Session WalletDb)
      → Seen b s.tables
      → (body s).0 ≡ ok tt
      → Extends s.tables (body s).1.tables
  body-Extends s seen h =
      let (d', updated, inserted) =
        mutate_balance_tx_ok e.wallet_id b.version next.balance_minor e s h in
      let (row, found, version, nonneg, d'_eq) =
        update_balance_ok e.wallet_id next.balance_minor b.version s.tables d' updated in
      let (fresh, end) = insert_entry_ok e d' _ inserted in
      let fresh_before : find_entry e.idempotency_key s.tables.ledger_entries ≡ none =
        ap (λ (x : WalletDb). find_entry e.idempotency_key x.ledger_entries) (sym d'_eq) ∙ fresh in
      let tables : (body s).1.tables ≡ written e next.balance_minor s.tables =
        end ∙ ap (with_entry e) d'_eq in
      rw tables (
        written-Extends e b row next s.tables seen same int64 applied found version nonneg
          fresh_before)

  -- MutateBalance with the version and the new balance of a balance that was read before.
  pub mutate_balance-Step :
      (s : Session WalletDb)
      → Sound s
      → Seen b s.tables
      → Step s (mutate_balance e.wallet_id b.version next.balance_minor e s).1
  unfolding mutate_balance
  mutate_balance-Step s h seen = in_transaction-Step body s h λ s1 p. (
    λ u ended. body-Extends s1 (Seen-Step b p seen) ended,
    (mutate_balance_tx-KeepsTurns _ _ _ e).at s1,
  )

pub get_wallet-Step : (id : Uuid) (s : Session WalletDb) → Sound s → Step s (get_wallet id s).1
unfolding get_wallet
get_wallet-Step id s h = query-Step _ s h

pub get_balance-Step : (id : Uuid) (s : Session WalletDb) → Sound s → Step s (get_balance id s).1
unfolding get_balance
get_balance-Step id s h = query-Step _ s h

pub get_entry-Step :
    (k : String) (s : Session WalletDb) → Sound s → Step s (get_entry_by_idempotency k s).1
unfolding get_entry_by_idempotency
get_entry-Step k s h = query-Step _ s h

-- What a body of CreateWallet that ends without an error has done.
create_wallet_tx_ok :
    (w : Wallet) (s : Session WalletDb)
    → (create_wallet_tx w s).0 ≡ ok tt
    → (find_balance w.id s.tables.account_balances ≡ none)
      × ((create_wallet_tx w s).1.tables ≡ record {
        wallets = s.tables.wallets ++ w ∷ [];
        account_balances =
            s.tables.account_balances
            ++ record { wallet_id = w.id; balance_minor = pos 0; version = pos 0 } ∷ [];
        ledger_entries = s.tables.ledger_entries;
      })
unfolding create_wallet_tx tx_exec insert_wallet insert_balance
create_wallet_tx_ok w s h = ground arith

abbrev new_row : Uuid → Balance
new_row id = record { wallet_id = id; balance_minor = pos 0; version = pos 0 }

new_row-Extends :
    (id : Uuid) (d d' : WalletDb)
    → find_balance id d.account_balances ≡ none
    → d'.account_balances
      ≡ d.account_balances ++ record { wallet_id = id; balance_minor = pos 0; version = pos 0 } ∷ []
    → d'.ledger_entries ≡ d.ledger_entries
    → Extends d d'
new_row-Extends id d d' fresh rows same = record {
  consistent = λ c. record {
    backed = λ w.
        rw (rows, same, find_balance-append w (new_row id) d.account_balances)
          (ground (arith, c.backed w));
    keys = rw same c.keys;
  };
  balances =
      λ w b f. rw (rows, find_balance-append w (new_row id) d.account_balances) (ground arith);
  entries = λ k e h. rw same h;
}

pub create_wallet-Step :
    (w : Wallet) (s : Session WalletDb) → Sound s → Step s (create_wallet w s).1
unfolding create_wallet
create_wallet-Step w s h = in_transaction-Step (create_wallet_tx w) s h λ s1 p. (
  λ u ended.
      let (fresh, tables) = create_wallet_tx_ok w s1 ended in
      new_row-Extends w.id s1.tables _ fresh (ap (λ (d : WalletDb). d.account_balances) tables)
        (ap (λ (d : WalletDb). d.ledger_entries) tables),
  (create_wallet_tx-KeepsTurns w).at s1,
)
