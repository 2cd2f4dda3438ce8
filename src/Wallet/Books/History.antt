-- ===== src/Wallet/Books/History.antt =====
-- A sequence of calls of Credit and Debit is the sequence of their operations on the books.
use go_payment.Prelude.{
  ℕ, suc, ◌+◌, ◌<◌, ◌^◌, ◌≡◌, ◌≢◌, ◌⊎◌, ◌∙◌, ap, sym, subst, ◌≤ℤ◌, ◌<ℤ◌, refl, String, false, true,
  some, List, [], ◌∷◌, ℤ, pos, pos_part, neg_part, ◌+ℤ◌, IsInt64, arith, ◌==◌, Bool-cases,
  Option-cases, inl, inr,
}
use go_payment.Exec.{Result}
use go_payment.Database.{Session, quiet}
use go_payment.Uuid.{Uuid, UuidPackage, Source}
use go_payment.Wallet.Domain.{Balance, LedgerEntry}
use go_payment.Wallet.Tables.{
  WalletDb, find_balance, find_entry, find_wallet, has_entry_id, is_some,
}
use go_payment.Wallet.Postgres.{pg_repo}
use go_payment.Wallet.Service.{Change, MutateResult, mutate, new_entry}
use go_payment.Wallet.Ledger.{IsConsistent}
use go_payment.Wallet.Ledger.Lookup.{find_balance-set_balance, has_entry_id-append, stepped}
use go_payment.Wallet.Ledger.Transactions.{written}
use go_payment.Wallet.Replies.{Accepted, mutate_replays}
use go_payment.Wallet.Quiet.{Outcome, nothing, wrote, mutate-Outcome}
use go_payment.Wallet.Concurrency.{mutate-IsConsistent}
use go_payment.Wallet.Books.{Books, transact, books}
use go_payment.Wallet.Books.Refinement.{balance_of, seen, mutate_refines}

-- A call with its arguments as they arrive, what they parse to, and what it draws.
pub record Request : Type 0 where
  pub wallet_id : String
  pub transfer_id : String
  pub change : Change
  pub source : Source

abbrev pub call : UuidPackage → Request → Session WalletDb → Result MutateResult × Session WalletDb
call uuid r =
    mutate uuid pg_repo r.source r.wallet_id r.change.amount r.transfer_id r.change.key
      r.change.type

unfoldable pub history :
    UuidPackage → List Request → Session WalletDb → List (Result MutateResult) × Session WalletDb
history uuid [] s = ([], s)
history uuid (r ∷ rs) s =
    let (a, s') = call uuid r s in let (rest, end) = history uuid rs s' in (a ∷ rest, end)

unfoldable pub transactions : List Request → Books → List (Result ℤ) × Books
transactions [] b = ([], b)
transactions (r ∷ rs) b =
    let (a, b') = transact r.change b in let (rest, end) = transactions rs b' in (a ∷ rest, end)

abbrev pub balances_of : List (Result MutateResult) → List (Result ℤ)
balances_of [] = []
balances_of (a ∷ rest) = balance_of a ∷ balances_of rest

abbrev pub length : List Request → ℕ
length [] = 0
length (r ∷ rs) = suc (length rs)

-- Arguments in order, a wallet with its row, a version that can be counted up so many times, and a
-- new entry id. The key may be new or not.
pub record IsReady (uuid : UuidPackage) (left : ℕ) (r : Request) (d : WalletDb) : Type 0 where
  pub accepted :
      Accepted uuid r.wallet_id r.change.amount r.transfer_id r.change.key r.change.wallet
        r.change.transfer
  pub int64 : IsInt64 r.change.amount
  pub row : Balance
  pub found : find_balance r.change.wallet d.account_balances ≡ some row
  pub there : is_some (find_wallet r.change.wallet d.wallets) ≡ true
  pub counted : neg_part row.version ≡ 0
  pub more : pos_part row.version + left < 2 ^ 63
  pub new_id : has_entry_id (r.source.id 0) d.ledger_entries ≡ false

abbrev pub AllReady : UuidPackage → ℕ → List Request → WalletDb → Type 0
AllReady uuid n [] d = Unit
AllReady uuid n (r ∷ rs) d = IsReady uuid n r d × AllReady uuid n rs d

abbrev pub NotAmong : Uuid → List Request → Type 0
NotAmong id [] = Unit
NotAmong id (r ∷ rs) = (id ≢ r.source.id 0) × NotAmong id rs

-- The calls draw different ids.
abbrev pub DistinctIds : List Request → Type 0
DistinctIds [] = Unit
DistinctIds (r ∷ rs) = NotAmong (r.source.id 0) rs × DistinctIds rs

next_version :
    (n : ℕ) (v : ℤ)
    → neg_part v ≡ 0
    → pos_part v + suc n < 2 ^ 63
    → (pos 0 ≤ℤ v) × (v +ℤ pos 1 <ℤ pos (2 ^ 63))
unfolding ◌+ℤ◌
next_version n v h more = ground arith

module _ (uuid : UuidPackage) where
  -- What the calls to come need survives a call.
  IsReady-later :
      (n : ℕ) (r : Request) (d : WalletDb) → IsReady uuid (suc n) r d → IsReady uuid n r d
  IsReady-later n r d ready = record {
    accepted = ready.accepted;
    int64 = ready.int64;
    row = ready.row;
    found = ready.found;
    there = ready.there;
    counted = ready.counted;
    more = omega (arith, ready.more);
    new_id = ready.new_id;
  }

  IsReady-written :
      (n : ℕ) (r : Request) (e : LedgerEntry) (new : ℤ) (d : WalletDb)
      → e.id ≢ r.source.id 0
      → IsReady uuid (suc n) r d
      → IsReady uuid n r (written e new d)
  unfolding ◌+ℤ◌
  IsReady-written n r e new d differ ready = elim (Bool-cases (e.wallet_id == r.change.wallet)) [
    | inl same ↦ record {
      accepted = ready.accepted;
      int64 = ready.int64;
      row = stepped new ready.row;
      found =
          rw
            (
              find_balance-set_balance r.change.wallet e.wallet_id new d.account_balances,
              same,
              ready.found,
            )
            refl;
      there = ready.there;
      counted = ground (arith, ready.counted);
      more = ground (arith, ready.counted, ready.more);
      new_id =
          rw (has_entry_id-append (r.source.id 0) e d.ledger_entries, ready.new_id)
            (ground (arith, differ));
    }
    | inr elsewhere ↦ record {
      accepted = ready.accepted;
      int64 = ready.int64;
      row = ready.row;
      found =
          rw
            (
              find_balance-set_balance r.change.wallet e.wallet_id new d.account_balances,
              elsewhere,
              ready.found,
            )
            refl;
      there = ready.there;
      counted = ready.counted;
      more = omega (arith, ready.more);
      new_id =
          rw (has_entry_id-append (r.source.id 0) e d.ledger_entries, ready.new_id)
            (ground (arith, differ));
    }
  ]

  AllReady-later :
      (n : ℕ) (rs : List Request) (d : WalletDb) → AllReady uuid (suc n) rs d → AllReady uuid n rs d
  AllReady-later n [] d ready = tt
  AllReady-later n (r ∷ rs) d ready = (IsReady-later n r d ready.0, AllReady-later n rs d ready.1)

  AllReady-written :
      (n : ℕ) (rs : List Request) (e : LedgerEntry) (new : ℤ) (d : WalletDb)
      → NotAmong e.id rs
      → AllReady uuid (suc n) rs d
      → AllReady uuid n rs (written e new d)
  AllReady-written n [] e new d differ ready = tt
  AllReady-written n (r ∷ rs) e new d differ ready =
      (IsReady-written n r e new d differ.0 ready.0, AllReady-written n rs e new d differ.1 ready.1)

  -- A call leaves the tables as they are or writes its entry.
  call_writes :
      (n : ℕ) (r : Request) (d : WalletDb)
      → IsReady uuid n r d
      → ((call uuid r (quiet d)).1 ≡ quiet d)
        ⊎ ((new : ℤ) × ((call uuid r (quiet d)).1
              ≡ quiet (written (new_entry r.source 0 r.change) new d)))
  call_writes n r d ready = elim (Option-cases (find_entry r.change.key d.ledger_entries)) [
    | inr (e, known) ↦ inl (
        ap (λ x. x.1)
          (mutate_replays uuid r.source r.wallet_id r.change.amount r.transfer_id r.change.key
            r.change.wallet r.change.transfer ready.accepted d ready.row ready.found r.change.type e
            known))
    | inl new ↦ from_outcome (
        mutate-Outcome uuid r.source r.wallet_id r.change.amount r.transfer_id r.change.key
          r.change.wallet r.change.transfer r.change.type d ready.accepted new)
  ]
    where
      from_outcome :
          Outcome r.change r.source d (call uuid r (quiet d))
          → ((call uuid r (quiet d)).1 ≡ quiet d)
            ⊎ ((new : ℤ) × ((call uuid r (quiet d)).1
                  ≡ quiet (written (new_entry r.source 0 r.change) new d)))
      from_outcome (nothing x e) = inl (ap (λ y. y.1) e)
      from_outcome (wrote b next found applies nonneg e) = inr (next.balance_minor, ap (λ y. y.1) e)

  after_call :
      (r : Request) (rs : List Request) (d : WalletDb)
      → NotAmong (r.source.id 0) rs
      → IsReady uuid (length (r ∷ rs)) r d
      → AllReady uuid (length (r ∷ rs)) rs d
      → (d' : WalletDb) × ((call uuid r (quiet d)).1 ≡ quiet d') × AllReady uuid (length rs) rs d'
  after_call r rs d differ now later = elim (call_writes (length (r ∷ rs)) r d now) [
    | inl same ↦ (d, same, AllReady-later (length rs) rs d later)
    | inr (new, changed) ↦ (
      written (new_entry r.source 0 r.change) new d,
      changed,
      AllReady-written (length rs) rs (new_entry r.source 0 r.change) new d differ later,
    )
  ]

  call_refines :
      (n : ℕ) (r : Request) (d : WalletDb)
      → IsConsistent d
      → IsReady uuid (suc n) r d
      → seen (call uuid r (quiet d)) ≡ transact r.change (books d)
  call_refines n r d consistent ready =
      let (low, high) = next_version n ready.row.version ready.counted ready.more in
      mutate_refines uuid r.source r.wallet_id r.change.amount r.transfer_id r.change.key
        r.change.wallet r.change.transfer ready.accepted d ready.row ready.found ready.int64
        consistent r.change.type ready.new_id ready.there low high

  -- The calls of Credit and Debit refine operations on books, which are lists of changes up to
  -- the sums of each wallet and the keys: a used key answers the funds of the wallet and changes
  -- nothing, a credit is posted unless the sum passes the largest int64, a debit is posted when
  -- the funds cover it, a third type of entry is a bad argument, and the answer is the new funds
  -- or the error. With every database call served and no other session, from consistent tables,
  -- for any sequence of calls with arguments in order, int64 amounts and new and different entry
  -- ids, on wallets whose rows are there with versions that can be counted up once for each call,
  -- and with keys that are new or not: the balances and errors answered are those of the
  -- operations on the books of the tables, and the tables that are left stand for the books that
  -- are left.
  pub history_refines :
      (rs : List Request) (d : WalletDb)
      → IsConsistent d
      → DistinctIds rs
      → AllReady uuid (length rs) rs d
      → let (answers, end) = history uuid rs (quiet d) in
        (balances_of answers, books end.tables) ≡ transactions rs (books d)
  unfolding history transactions
  history_refines [] d consistent distinct ready = refl
  history_refines (r ∷ rs) d consistent distinct ready =
      let (d', same, later) = after_call r rs d distinct.0 ready.0 ready.1 in
      let one = call_refines (length rs) r d consistent ready.0 in
      let consistent' =
        subst (λ s. IsConsistent s.tables) same
          (mutate-IsConsistent uuid r.source r.wallet_id r.change.amount r.transfer_id r.change.key
            r.change.type (quiet d) ready.0.int64
            (record { consistent = consistent; admissible = tt })).0 in
      let rest = history_refines rs d' consistent' distinct.1 later in
      let answer = balance_of (call uuid r (quiet d)).0 in
      ap
        (λ (s : Session WalletDb).
          (answer ∷ balances_of (history uuid rs s).0, books (history uuid rs s).1.tables))
        same
      ∙ ap (λ (x : List (Result ℤ) × Books). (answer ∷ x.0, x.1)) rest
      ∙ ap (λ (b : Books). (answer ∷ (transactions rs b).0, (transactions rs b).1))
          (ap (λ (s : Session WalletDb). books s.tables) (sym same) ∙ ap (λ x. x.1) one)
      ∙ ap
          (λ (a : Result ℤ). (
            a ∷ (transactions rs (transact r.change (books d)).1).0,
            (transactions rs (transact r.change (books d)).1).1,
          ))
          (ap (λ x. x.0) one)
