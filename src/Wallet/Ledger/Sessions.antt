-- ===== src/Wallet/Ledger/Sessions.antt =====
-- The repository on a schedule: whatever the turns are, as long as the other sessions extend the
-- tables, each call of the repository extends them too.
use go_payment.Prelude.{◌≡◌, refl, Option, none, some, List, [], ◌∷◌, arith}
use go_payment.Exec.{Result, ok, err}
use go_payment.Database.{
  Session, Turn, Verdict, served, refused, lost, first_verdict, later, interfere, after_others,
  answer, query, in_transaction, commit, finish, began,
}
use go_payment.Uuid.{Uuid}
use go_payment.Wallet.Domain.{Balance}
use go_payment.Wallet.Tables.{WalletDb, find_balance}
use go_payment.Wallet.Postgres.{WalletExec, row_or_not_found, get_balance}
use go_payment.Wallet.Ledger.{IsConsistent, Extends, Extends-refl, Extends-trans}
use go_payment.Wallet.Ledger.Lookup.{find_balance-wallet_id}
use go_payment.Wallet.Ledger.Transactions.{Seen}

-- The other sessions take consistent tables to tables that extend them.
abbrev pub Admissible : List (Turn WalletDb) → Type 0
Admissible [] = Unit
Admissible (t ∷ ts) = ((d : WalletDb) → IsConsistent d → Extends d (t.others d)) × Admissible ts

pub record Sound (s : Session WalletDb) : Type 0 where
  pub consistent : IsConsistent s.tables
  pub admissible : Admissible s.turns

pub record Step (s s' : Session WalletDb) : Type 0 where
  pub extends : Extends s.tables s'.tables
  pub turns : Admissible s.turns → Admissible s'.turns

pub Step-refl : (s : Session WalletDb) → Step s s
Step-refl s = record { extends = Extends-refl s.tables; turns = λ a. a }

pub Step-trans : {a b c : Session WalletDb} → Step a b → Step b c → Step a c
Step-trans p q = record {
  extends = Extends-trans p.extends q.extends;
  turns = λ a. q.turns (p.turns a);
}

pub Step-Sound : {s s' : Session WalletDb} → Step s s' → Sound s → Sound s'
Step-Sound p h = record {
  consistent = p.extends.consistent h.consistent;
  admissible = p.turns h.admissible;
}

interfere-Extends :
    (ts : List (Turn WalletDb)) (d : WalletDb)
    → Admissible ts
    → IsConsistent d
    → Extends d (interfere ts d)
interfere-Extends [] d a c = Extends-refl d
interfere-Extends (t ∷ ts) d a c = a.0 d c

pub later-Admissible : (ts : List (Turn WalletDb)) → Admissible ts → Admissible (later ts)
later-Admissible [] a = tt
later-Admissible (t ∷ ts) a = a.1

pub after_others-Step : (s : Session WalletDb) → Sound s → Step s (after_others s)
after_others-Step s h = record {
  extends = interfere-Extends s.turns s.tables h.admissible h.consistent;
  turns = later-Admissible s.turns;
}

-- A read leaves the session where the others have brought it.
pub query-Step :
    {A : Type 0} (f : WalletDb → Result A) (s : Session WalletDb) → Sound s → Step s (query f s).1
unfolding query
query-Step f s h = after_others-Step s h

finish-Step :
    {A : Type 0} (before : WalletDb) (r : Result A) (s : Session WalletDb)
    → ((a : A) → r ≡ ok a → Extends before s.tables)
    → Extends before (finish before (r, s)).1.tables
finish-Step before (err e) s h = Extends-refl before
finish-Step before (ok a) s h = go (first_verdict s.turns)
  where
    go :
        (v : Verdict)
        → Extends before (commit before a v (record s { turns = later s.turns })).1.tables
    go served = h a refl
    go (refused e) = Extends-refl before
    go (lost e) = h a refl

finish-turns :
    {A : Type 0} (before : WalletDb) (r : Result A) (s : Session WalletDb)
    → Admissible s.turns
    → Admissible (finish before (r, s)).1.turns
finish-turns before (err e) s h = h
finish-turns before (ok a) s h = go (first_verdict s.turns)
  where
    go : (v : Verdict) → Admissible (commit before a v (record s { turns = later s.turns })).1.turns
    go served = later-Admissible s.turns h
    go (refused e) = later-Admissible s.turns h
    go (lost e) = later-Admissible s.turns h

-- A transaction extends the tables if a body that ends without an error does.
pub in_transaction-Step :
    {A : Type 0} (body : WalletExec A) (s : Session WalletDb)
    → Sound s
    → ((s1 : Session WalletDb)
        → Step s s1
        → ((a : A) → (body s1).0 ≡ ok a → Extends s1.tables (body s1).1.tables)
          × (Admissible s1.turns → Admissible (body s1).1.turns))
    → Step s (in_transaction body s).1
unfolding in_transaction
in_transaction-Step body s h body_ok = go (first_verdict s.turns)
  where
    s1 : Session WalletDb
    s1 = after_others s

    others : Step s s1
    others = after_others-Step s h

    go : (v : Verdict) → Step s (began v body s1).1
    go served = Step-trans others (record {
      extends = finish-Step s1.tables (body s1).0 (body s1).1 (body_ok s1 others).0;
      turns = λ a. finish-turns s1.tables (body s1).0 (body s1).1 ((body_ok s1 others).1 a);
    })
    go (refused e) = others
    go (lost e) = others

answer_ok : {A : Type 0} (v : Verdict) (r : Result A) (a : A) → answer v r ≡ ok a → r ≡ ok a
answer_ok served r a e = e
answer_ok (refused x) r a e = absurd (ground arith)
answer_ok (lost x) r a e = absurd (ground arith)

pub query_ok :
    {A : Type 0} (f : WalletDb → Result A) (s : Session WalletDb) (a : A)
    → (query f s).0 ≡ ok a
    → f (query f s).1.tables ≡ ok a
unfolding query
query_ok f s a e = answer_ok (first_verdict s.turns) (f (interfere s.turns s.tables)) a e

row_ok : {A : Type 0} (o : Option A) (a : A) → row_or_not_found o ≡ ok a → o ≡ some a
row_ok none a e = absurd (ground arith)
row_ok (some x) a e = ground arith

row-Seen :
    (id : Uuid) (b : Balance) (d : WalletDb)
    → IsConsistent d
    → find_balance id d.account_balances ≡ some b
    → Seen b d × (b.wallet_id ≡ id)
row-Seen id b d c e =
    let w : b.wallet_id ≡ id = find_balance-wallet_id id b d.account_balances e in
    (ground (arith, c.backed id), w)

-- A balance that is read is sound, and nothing has happened since.
pub get_balance-Seen :
    (id : Uuid) (b : Balance) (s : Session WalletDb)
    → Sound s
    → (get_balance id s).0 ≡ ok b
    → Seen b (get_balance id s).1.tables × (b.wallet_id ≡ id)
unfolding get_balance
get_balance-Seen id b s h e =
    let f : WalletDb → Result Balance =
      λ d. row_or_not_found (find_balance id d.account_balances) in
    row-Seen id b (query f s).1.tables (Step-Sound (query-Step f s h) h).consistent
      (row_ok (find_balance id (query f s).1.tables.account_balances) b (query_ok f s b e))

finish_ok :
    {A : Type 0} (before : WalletDb) (r : Result A) (s : Session WalletDb) (a : A)
    → (finish before (r, s)).0 ≡ ok a
    → (r ≡ ok a) × ((finish before (r, s)).1.tables ≡ s.tables)
finish_ok before (err e) s a h = absurd (ground arith)
finish_ok before (ok x) s a h = go (first_verdict s.turns) h
  where
    after : Session WalletDb
    after = record s { turns = later s.turns }

    go :
        (v : Verdict)
        → (commit before x v after).0 ≡ ok a
        → (Result.ok x ≡ ok a) × ((commit before x v after).1.tables ≡ s.tables)
    go served e = (e, refl)
    go (refused y) e = absurd (ground arith)
    go (lost y) e = absurd (ground arith)

-- A transaction that succeeds has begun, and leaves what its body left.
pub in_transaction_ok :
    {A : Type 0} (body : WalletExec A) (s : Session WalletDb) (a : A)
    → (in_transaction body s).0 ≡ ok a
    → ((body (after_others s)).0 ≡ ok a)
      × ((in_transaction body s).1.tables ≡ (body (after_others s)).1.tables)
unfolding in_transaction
in_transaction_ok body s a h = go (first_verdict s.turns) h
  where
    s1 : Session WalletDb
    s1 = after_others s

    go :
        (v : Verdict)
        → (began v body s1).0 ≡ ok a
        → ((body s1).0 ≡ ok a) × ((began v body s1).1.tables ≡ (body s1).1.tables)
    go served e = finish_ok s1.tables (body s1).0 (body s1).1 a e
    go (refused y) e = absurd (ground arith)
    go (lost y) e = absurd (ground arith)
