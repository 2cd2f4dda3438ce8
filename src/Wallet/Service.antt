-- ===== src/Wallet/Service.antt =====
-- internal/wallet/app/service.go
use go_payment.Prelude.{
  ℕ, zero, suc, ◌+◌, String, Option, none, some, ℤ, pos, leb_ℤ, ◌||◌, str_eq, if◌then◌else◌,
}
use go_payment.Errors.{
  GoError, sentinel, wrapped, is, invalid_amount, version_conflict, pkg_version_conflict,
}
use go_payment.Errors
use go_payment.Exec.{
  Result, ok, err, Exec, pure, fail, lift, attempt, fail_if, or_fail, ◌>>=◌, ◌>>◌,
}
use go_payment.Uuid.{Uuid, Time, UuidPackage, Source}
use go_payment.Wallet.Domain.{
  EntryType, debit, credit, other, Wallet, Balance, LedgerEntry, new_wallet, apply_credit,
  apply_debit,
}
use go_payment.Wallet.Ports.{WalletRepository}

abbrev pub bad_argument : GoError
bad_argument = sentinel Errors.Sentinel.invalid_argument

pub record MutateResult : Type 0 where
  pub balance : Balance
  pub entry_id : Uuid

-- The arguments of `mutate` once they are parsed.
pub record Change : Type 0 where
  pub wallet : Uuid
  pub transfer : Uuid
  pub amount : ℤ
  pub key : String
  pub type : EntryType

-- The switch on `typ`.
unfoldable pub apply : EntryType → Balance → ℤ → Result Balance
unfolding apply_credit apply_debit
apply credit b amount = apply_credit b amount
apply debit b amount = apply_debit b amount
apply (other _) b amount = err bad_argument

-- The entry that attempt `n` writes.
abbrev pub new_entry : Source → ℕ → Change → LedgerEntry
new_entry src n c = record {
  id = src.id n;
  wallet_id = c.wallet;
  transfer_id = c.transfer;
  type = c.type;
  amount_minor = c.amount;
  idempotency_key = c.key;
  created_at = src.time n;
}

abbrev pub max_attempts : ℕ
max_attempts = 8

module _ {S : Type 0} (uuid : UuidPackage) (repo : WalletRepository S) where
  unfoldable pub create_wallet : Uuid → Time → String → String → Exec S Wallet
  create_wallet id now user_id currency = do
    uid ← or_fail (uuid.parse user_id) bad_argument
    w ← lift (new_wallet id now uid currency)
    repo.create_wallet w
    pure w

  unfoldable pub get_balance : String → Exec S (Balance × Wallet)
  get_balance wallet_id = do
    id ← or_fail (uuid.parse wallet_id) bad_argument
    w ← repo.get_wallet id
    b ← repo.get_balance id
    pure (b, w)

module _ {S : Type 0} (repo : WalletRepository S) where
  -- The answer when an entry with the key is there already.
  unfoldable pub replay : Uuid → LedgerEntry → Exec S MutateResult
  replay wallet existing = do
    b ← repo.get_balance wallet
    pure (record { balance = b; entry_id = existing.id })

  -- ErrAlreadyExists from MutateBalance: another call has written the key meanwhile.
  unfoldable pub replay_or_fail : Uuid → GoError → Option LedgerEntry → Exec S MutateResult
  unfolding replay
  replay_or_fail wallet e none = fail e
  replay_or_fail wallet e (some existing) = replay wallet existing

  -- What the loop does with the result of MutateBalance; `again` is the next round.
  unfoldable pub conclude :
      Change → MutateResult → Exec S MutateResult → Result (Unit {0}) → Exec S MutateResult
  unfolding replay_or_fail
  conclude c done again (ok _) = pure done
  conclude c done again (err e) =
      if is e version_conflict || is e pkg_version_conflict
      then again
      else if is e Errors.Sentinel.already_exists
      then (repo.get_entry_by_idempotency c.key >>= replay_or_fail c.wallet e)
      else fail e

  -- The loop: the first number counts the attempts left, the second those made.
  unfoldable pub attempts : ℕ → ℕ → Source → Change → Exec S MutateResult
  unfolding conclude apply
  attempts zero n src c = fail (wrapped "" (sentinel version_conflict) ": exhausted retries")
  attempts (suc left) n src c = do
    b ← repo.get_balance c.wallet
    next ← lift (apply c.type b c.amount)
    let entry = new_entry src n c
    r ← attempt (repo.mutate_balance c.wallet b.version next.balance_minor entry)
    conclude c (record { balance = next; entry_id = entry.id }) (attempts left (n + 1) src c) r

  unfoldable pub replay_or_attempt : Source → Change → Option LedgerEntry → Exec S MutateResult
  unfolding attempts replay
  replay_or_attempt src c (some existing) = replay c.wallet existing
  replay_or_attempt src c none = attempts max_attempts 0 src c

module _ {S : Type 0} (uuid : UuidPackage) (repo : WalletRepository S) (src : Source) where
  unfoldable pub mutate : String → ℤ → String → String → EntryType → Exec S MutateResult
  unfolding replay_or_attempt
  mutate wallet_id amount transfer_id key type = do
    fail_if (leb_ℤ amount (pos 0)) (sentinel invalid_amount)
    wid ← or_fail (uuid.parse wallet_id) bad_argument
    tid ← or_fail (uuid.parse transfer_id) bad_argument
    fail_if (str_eq key "") bad_argument
    existing ← repo.get_entry_by_idempotency key
    let c : Change = record {
      wallet = wid;
      transfer = tid;
      amount = amount;
      key = key;
      type = type;
    }
    replay_or_attempt repo src c existing

  unfoldable pub credit_wallet : String → ℤ → String → String → Exec S MutateResult
  unfolding mutate
  credit_wallet wallet_id amount transfer_id key = mutate wallet_id amount transfer_id key credit

  unfoldable pub debit_wallet : String → ℤ → String → String → Exec S MutateResult
  unfolding mutate
  debit_wallet wallet_id amount transfer_id key = mutate wallet_id amount transfer_id key debit
