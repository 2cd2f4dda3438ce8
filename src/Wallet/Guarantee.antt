-- ===== src/Wallet/Guarantee.antt =====
-- Every call of the wallet service takes a step of its repository, whatever the repository answers:
-- with the PostgreSQL repository the ledger stays balanced under every schedule.
use go_payment.Prelude.{
  ℕ, zero, suc, ◌+◌, ◌≡◌, refl, String, Option, none, some, ℤ, pos, leb_ℤ, IsInt64, ◌||◌, str_eq,
  Bool-cases, inl, inr,
}
use go_payment.Errors.{GoError, Sentinel, is}
use go_payment.Exec.{Result, ok, err, Exec, continue, fail_if, or_fail, ◌>>=◌}
use go_payment.Uuid.{Uuid, Time, UuidPackage, Source}
use go_payment.Wallet.Domain.{EntryType, Balance, LedgerEntry, new_wallet}
use go_payment.Wallet.Ports.{WalletRepository}
use go_payment.Wallet.Contract.{IsRepository}
use go_payment.Wallet.Service.{
  MutateResult, Change, apply, new_entry, max_attempts, replay, replay_or_fail, conclude, attempts,
  replay_or_attempt, mutate, create_wallet, get_balance,
}

module _ {S : Type 0} {repo : WalletRepository S} {Inv : S → Type 0} {Next : S → S → Type 0}
    {Knows : Balance → S → Type 0} {Holds : String → Uuid → S → Type 0}
    (laws : IsRepository repo Inv Next Knows Holds) where
  -- A method is safe if it takes a step from every state with the invariant.
  pub record Safe {A : Type 0} (m : Exec S A) : Type 0 where
    pub at : (s : S) → Inv s → Next s (m s).1

  -- The rest of a method, after a first call that answered `r` and left `s'`.
  pub continue-Next :
      {A B : Type 0} (f : A → Exec S B) (r : Result A) (s s' : S)
      → Next s s'
      → ((a : A) → r ≡ ok a → Next s' (f a s').1)
      → Next s (continue f r s').1
  continue-Next f (ok a) s s' p h = laws.trans s s' (f a s').1 p (h a refl)
  continue-Next f (err e) s s' p h = p

  pub bind-Safe :
      {A B : Type 0} (m : Exec S A) (f : A → Exec S B)
      → Safe m
      → ((a : A) → Safe (f a))
      → Safe (m >>= f)
  bind-Safe m f hm hf = record {
    at = λ s i.
        continue-Next f (m s).0 s (m s).1 (hm.at s i)
          λ a e. (hf a).at (m s).1 (laws.keep s (m s).1 (hm.at s i) i);
  }

  pub lift-Safe : {A : Type 0} (r : Result A) → Safe (λ s. (r, s))
  lift-Safe r = record { at = λ s i. laws.stay s }

  pub get_entry-Safe : (k : String) → Safe (repo.get_entry_by_idempotency k)
  get_entry-Safe k = record { at = laws.get_entry k }

  pub replay-Safe : (w : Uuid) (e : LedgerEntry) → Safe (replay repo w e)
  unfolding replay
  replay-Safe w e =
      bind-Safe (repo.get_balance w) _ (record { at = laws.get_balance w }) λ b. lift-Safe (ok _)

  replay_or_fail-Safe :
      (w : Uuid) (x : GoError) (o : Option LedgerEntry) → Safe (replay_or_fail repo w x o)
  unfolding replay_or_fail
  replay_or_fail-Safe w x none = lift-Safe (err x)
  replay_or_fail-Safe w x (some e) = replay-Safe w e

  conclude-Safe :
      (c : Change) (done : MutateResult) (again : Exec S MutateResult) (r : Result (Unit {0}))
      → Safe again
      → Safe (conclude repo c done again r)
  unfolding conclude
  conclude-Safe c done again (ok _) h = lift-Safe (ok done)
  conclude-Safe c done again (err e) h =
      elim (Bool-cases (is e Sentinel.version_conflict || is e Sentinel.pkg_version_conflict)) [
        | inl retry ↦ rw retry h
        | inr other ↦ rw other (elim (Bool-cases (is e Sentinel.already_exists)) [
          | inl dup ↦ rw dup (
              bind-Safe (repo.get_entry_by_idempotency c.key) _ (get_entry-Safe c.key)
                (replay_or_fail-Safe c.wallet e))
          | inr final ↦ rw final (lift-Safe (err e))
        ])
      ]

  pub attempts-Safe :
      (left n : ℕ) (src : Source) (c : Change)
      → IsInt64 c.amount
      → Safe (attempts repo left n src c)
  unfolding attempts
  attempts-Safe zero n src c h = lift-Safe (err _)
  attempts-Safe (suc left) n src c h = record {
    at = λ s i.
        let known = laws.knows c.wallet in
        let s1 = (repo.get_balance c.wallet s).1 in
        let p : Next s s1 = laws.get_balance c.wallet s i in
        let i1 : Inv s1 = laws.keep s s1 p i in
        continue-Next _ (repo.get_balance c.wallet s).0 s s1 p λ b e1.
          continue-Next _ (apply c.type b c.amount) s1 s1 (laws.stay s1) λ next e2.
            let entry = new_entry src n c in
            let m = repo.mutate_balance c.wallet b.version next.balance_minor entry in
            let q : Next s1 (m s1).1 =
              laws.mutate_balance b next entry s1 (known b s i e1).1 h e2 i1 (known b s i e1).0 in
            laws.trans s1 (m s1).1 _ q (
              (conclude-Safe c _ _ (m s1).0 (attempts-Safe left (n + 1) src c h)).at (m s1).1
                (laws.keep s1 (m s1).1 q i1));
  }

  pub replay_or_attempt-Safe :
      (src : Source) (c : Change) (o : Option LedgerEntry)
      → IsInt64 c.amount
      → Safe (replay_or_attempt repo src c o)
  unfolding replay_or_attempt
  replay_or_attempt-Safe src c (some e) h = replay-Safe c.wallet e
  replay_or_attempt-Safe src c none h = attempts-Safe max_attempts 0 src c h

  or_fail-Safe : {A : Type 0} (o : Option A) (e : GoError) → Safe (or_fail o e)
  or_fail-Safe none e = lift-Safe (err e)
  or_fail-Safe (some a) e = lift-Safe (ok a)

  -- Service.Credit and Service.Debit, with any arguments.
  pub mutate-Safe :
      (uuid : UuidPackage) (src : Source) (wallet_id : String) (amount : ℤ)
      (transfer_id key : String) (type : EntryType)
      → IsInt64 amount
      → Safe (mutate uuid repo src wallet_id amount transfer_id key type)
  unfolding mutate
  mutate-Safe uuid src wallet_id amount transfer_id key type h =
      bind-Safe (fail_if (leb_ℤ amount (pos 0)) _) _ (lift-Safe _) λ _.
        bind-Safe (or_fail (uuid.parse wallet_id) _) _ (or_fail-Safe _ _) λ wid.
          bind-Safe (or_fail (uuid.parse transfer_id) _) _ (or_fail-Safe _ _) λ tid.
            bind-Safe (fail_if (str_eq key "") _) _ (lift-Safe _) λ _.
              bind-Safe (repo.get_entry_by_idempotency key) _ (get_entry-Safe key)
                λ o. replay_or_attempt-Safe src _ o h

  pub create_wallet-Safe :
      (uuid : UuidPackage) (id : Uuid) (now : Time) (user_id currency : String)
      → Safe (create_wallet uuid repo id now user_id currency)
  unfolding create_wallet
  create_wallet-Safe uuid id now user_id currency =
      bind-Safe (or_fail (uuid.parse user_id) _) _ (or_fail-Safe _ _) λ uid.
        bind-Safe (λ s. (new_wallet id now uid currency, s)) _ (lift-Safe _)
          λ w.
            bind-Safe (repo.create_wallet w) _ (record { at = laws.create_wallet w })
              λ _. lift-Safe (ok w)

  pub get_balance-Safe :
      (uuid : UuidPackage) (wallet_id : String) → Safe (get_balance uuid repo wallet_id)
  unfolding get_balance
  get_balance-Safe uuid wallet_id =
      bind-Safe (or_fail (uuid.parse wallet_id) _) _ (or_fail-Safe _ _) λ id.
        bind-Safe (repo.get_wallet id) _ (record { at = laws.get_wallet id })
          λ w.
            bind-Safe (repo.get_balance id) _ (record { at = laws.get_balance id })
              λ b. lift-Safe (ok (b, w))
