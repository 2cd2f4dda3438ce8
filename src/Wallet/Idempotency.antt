-- ===== src/Wallet/Idempotency.antt =====
-- A call of Credit or Debit that succeeds has its key in the ledger: the entry that it returns is
-- the one with that key, written by this call or by an earlier one.
use go_payment.Prelude.{
  ℕ, zero, suc, ◌+◌, ◌≡◌, refl, subst, String, Option, none, some, ℤ, pos, leb_ℤ, IsInt64, arith,
  ◌||◌, str_eq, Bool-cases, inl, inr, if◌then◌else◌,
}
use go_payment.Errors.{GoError, Sentinel, is}
use go_payment.Exec.{Result, ok, err, Exec, continue, or_fail, ◌>>=◌}
use go_payment.Uuid.{Uuid, UuidPackage, Source}
use go_payment.Wallet.Domain.{EntryType, Balance, LedgerEntry}
use go_payment.Wallet.Ports.{WalletRepository}
use go_payment.Wallet.Contract.{IsRepository}
use go_payment.Wallet.Service.{
  MutateResult, Change, apply, new_entry, max_attempts, replay, replay_or_fail, conclude, attempts,
  replay_or_attempt, mutate,
}

module _ {S : Type 0} {repo : WalletRepository S} {Inv : S → Type 0} {Next : S → S → Type 0}
    {Knows : Balance → S → Type 0} {Holds : String → Uuid → S → Type 0}
    (laws : IsRepository repo Inv Next Knows Holds) (key : String) where
  -- From `s`, a success of the method names the entry of the key.
  pub record Answers (s : S) (m : Exec S MutateResult) : Type 0 where
    pub at : (r : MutateResult) → (m s).0 ≡ ok r → Holds key r.entry_id (m s).1

  -- After a first step that answered `r` and left `s'`.
  continue-Answers :
      {A : Type 0} (f : A → Exec S MutateResult) (r : Result A) (s' : S)
      → ((a : A) → r ≡ ok a → Answers s' (f a))
      → (x : MutateResult) → (continue f r s').0 ≡ ok x
      → Holds key x.entry_id (continue f r s').1
  continue-Answers f (ok a) s' h x e = (h a refl).at x e
  continue-Answers f (err e') s' h x e = absurd (ground arith)

  fail-Answers : (s : S) (e : GoError) → Answers s (λ s'. (err e, s'))
  fail-Answers s e = record { at = λ r h. absurd (ground arith) }

  replay-Answers :
      (w : Uuid) (e : LedgerEntry) (s : S) → Inv s → Holds key e.id s → Answers s (replay repo w e)
  unfolding replay
  replay-Answers w e s i h = record {
    at = λ r.
        continue-Answers _ (repo.get_balance w s).0 (repo.get_balance w s).1
          (λ b _. record {
            at = λ x eq.
                let same : x ≡ record { balance = b; entry_id = e.id } = cc in
                rw same (laws.holds key e.id s (repo.get_balance w s).1 (laws.get_balance w s i) h);
          })
          r;
  }

  done-Answers : (s : S) (d : MutateResult) → Holds key d.entry_id s → Answers s (λ s'. (ok d, s'))
  done-Answers s d h = record {
    at = λ r e. let same : d ≡ r = ground arith in subst (λ x. Holds key x.entry_id s) same h;
  }

  -- What follows a lookup of the key.
  lookup-Answers :
      (s : S) (f : Option LedgerEntry → Exec S MutateResult)
      → Inv s
      → ((s' : S) → Inv s' → Answers s' (f none))
      → ((s' : S) (e : LedgerEntry) → Inv s' → Holds key e.id s' → Answers s' (f (some e)))
      → Answers s (repo.get_entry_by_idempotency key >>= f)
  lookup-Answers s f i missing there = record {
    at = λ r.
        let s' = (repo.get_entry_by_idempotency key s).1 in
        let i' : Inv s' = laws.keep s s' (laws.get_entry key s i) i in
        continue-Answers f (repo.get_entry_by_idempotency key s).0 s'
          (elim [ none ↦ λ _. missing s' i' | some e ↦ λ h. there s' e i' (laws.found key e s h) ])
          r;
  }

  replay_or_fail-Answers :
      (w : Uuid) (x : GoError) (s : S) (e : LedgerEntry)
      → Inv s
      → Holds key e.id s
      → Answers s (replay_or_fail repo w x (some e))
  unfolding replay_or_fail
  replay_or_fail-Answers w x s e i h = replay-Answers w e s i h

  conclude-Answers :
      (c : Change) (d : MutateResult) (again : Exec S MutateResult) (r : Result (Unit {0})) (s : S)
      → c.key ≡ key
      → Inv s
      → (r ≡ ok tt → Holds key d.entry_id s)
      → Answers s again
      → Answers s (conclude repo c d again r)
  unfolding conclude
  conclude-Answers c d again (ok _) s k i h a = done-Answers s d (h refl)
  conclude-Answers c d again (err e) s k i h a =
      elim (Bool-cases (is e Sentinel.version_conflict || is e Sentinel.pkg_version_conflict)) [
        | inl retry ↦ rw retry a
        | inr other ↦ rw other (elim (Bool-cases (is e Sentinel.already_exists)) [
          | inl dup ↦
              rw (dup, k)
                (lookup-Answers s (replay_or_fail repo c.wallet e) i (λ s' _. missing s')
                  (λ s' x. replay_or_fail-Answers c.wallet e s' x))
          | inr final ↦ rw final (fail-Answers s e)
        ])
      ]
    where
      missing : (s' : S) → Answers s' (replay_or_fail repo c.wallet e none)
      missing s' = unfold replay_or_fail in fail-Answers s' e

  attempts-Answers :
      (left n : ℕ) (src : Source) (c : Change) (s : S)
      → c.key ≡ key
      → IsInt64 c.amount
      → Inv s
      → Answers s (attempts repo left n src c)
  unfolding attempts
  attempts-Answers zero n src c s k h i = fail-Answers s _
  attempts-Answers (suc left) n src c s k h i = record {
    at =
        let s1 = (repo.get_balance c.wallet s).1 in
        let i1 : Inv s1 = laws.keep s s1 (laws.get_balance c.wallet s i) i in
        continue-Answers _ (repo.get_balance c.wallet s).0 s1 λ b e1. record {
          at = continue-Answers _ (apply c.type b c.amount) s1 λ next e2.
              let entry = new_entry src n c in
              let m = repo.mutate_balance c.wallet b.version next.balance_minor entry in
              let (known, own) = laws.knows c.wallet b s i e1 in
              let i2 : Inv (m s1).1 =
                laws.keep s1 (m s1).1 (laws.mutate_balance b next entry s1 own h e2 i1 known) i1 in
              record {
                at =
                    (conclude-Answers c _ _ (m s1).0 (m s1).1 k i2
                      (λ e3.
                        subst (λ x. Holds x entry.id (m s1).1) k
                          (laws.committed c.wallet b.version next.balance_minor entry s1 e3))
                      (attempts-Answers left (n + 1) src c (m s1).1 k h i2)).at;
              };
        };
  }

  skip_fail-Answers :
      {A : Type 0} (r : Result A) (f : A → Exec S MutateResult) (s : S)
      → ((a : A) → Answers s (f a))
      → Answers s (λ s'. continue f r s')
  skip_fail-Answers (ok a) f s h = h a
  skip_fail-Answers (err e) f s h = fail-Answers s e

  or_fail-Answers :
      {A : Type 0} (o : Option A) (e : GoError) (f : A → Exec S MutateResult) (s : S)
      → ((a : A) → Answers s (f a))
      → Answers s (or_fail o e >>= f)
  or_fail-Answers none e f s h = fail-Answers s e
  or_fail-Answers (some a) e f s h = record { at = (h a).at }

  pub mutate-Answers :
      (uuid : UuidPackage) (src : Source) (wallet_id : String) (amount : ℤ) (transfer_id : String)
      (type : EntryType) (s : S)
      → IsInt64 amount
      → Inv s
      → Answers s (mutate uuid repo src wallet_id amount transfer_id key type)
  unfolding mutate replay_or_attempt
  mutate-Answers uuid src wallet_id amount transfer_id type s h i =
      skip_fail-Answers (if leb_ℤ amount (pos 0) then err _ else ok tt) _ s λ _.
        or_fail-Answers (uuid.parse wallet_id) _ _ s λ wid.
          or_fail-Answers (uuid.parse transfer_id) _ _ s λ tid.
            skip_fail-Answers (if str_eq key "" then err _ else ok tt) _ s λ _.
              lookup-Answers s _ i (λ s' i'. attempts-Answers max_attempts 0 src _ s' refl h i')
                (λ s' e i' there. replay-Answers wid e s' i' there)
