-- ===== src/Wallet/Retries.antt =====
-- The retry loop of Credit and Debit against other writers: a repository that answers a number of
-- calls of MutateBalance with ErrVersionConflict and takes the next.
use go_payment.Prelude.{ℕ, zero, suc, ◌+◌, ◌-◌, ◌<◌, ◌≤◌, ◌≡◌, String, none, ℤ, arith}
use go_payment.Errors.{sentinel, wrapped, version_conflict, not_found, is}
use go_payment.Exec.{ok, err, Exec, pure, fail}
use go_payment.Uuid.{Uuid, UuidPackage, Source}
use go_payment.Wallet.Domain.{EntryType, Balance}
use go_payment.Wallet.Ports.{WalletRepository}
use go_payment.Wallet.Replies.{Accepted}
use go_payment.Wallet.Service.{Change, apply, mutate, attempts}

-- The state is the number of conflicts to come.
abbrev pub beaten : Exec ℕ (Unit {0})
beaten zero = (ok tt, zero)
beaten (suc n) = (err (sentinel version_conflict), n)

abbrev pub contended : Balance → WalletRepository ℕ
contended b = record {
  create_wallet = λ w. pure tt;
  get_wallet = λ id. fail (sentinel not_found);
  get_balance = λ id. pure b;
  get_entry_by_idempotency = λ key. pure none;
  mutate_balance = λ id version new entry. beaten;
}

module _ (src : Source) (b : Balance) (c : Change) (next : Balance)
    (applies : apply c.type b c.amount ≡ ok next) where
  attempts_win :
      (left made n : ℕ)
      → n < left
      → attempts (contended b) left made src c n
        ≡ (ok (record { balance = next; entry_id = src.id (made + n) }), 0)
  unfolding attempts is
  attempts_win zero made n h = absurd (omega arith)
  attempts_win (suc left) made zero h = rw applies (ground arith)
  attempts_win (suc left) made (suc n) h =
      rw (applies, attempts_win left (made + 1) n (omega arith)) (ground arith)

  attempts_lose :
      (left made n : ℕ)
      → left ≤ n
      → attempts (contended b) left made src c n
        ≡ (err (wrapped "" (sentinel version_conflict) ": exhausted retries"), n - left)
  unfolding attempts is
  attempts_lose zero made n h = ground arith
  attempts_lose (suc left) made zero h = absurd (omega arith)
  attempts_lose (suc left) made (suc n) h =
      rw (applies, attempts_lose left (made + 1) n (omega arith)) (ground arith)

module _ (uuid : UuidPackage) (src : Source) (wallet_id : String) (amount : ℤ)
    (transfer_id key : String) (wid tid : Uuid)
    (accepted : Accepted uuid wallet_id amount transfer_id key wid tid) (type : EntryType)
    (b next : Balance) (applies : apply type b amount ≡ ok next) where
  -- On a repository that answers fewer than eight calls of MutateBalance with ErrVersionConflict
  -- and takes the next, Credit and Debit with arguments in order and a change that applies
  -- succeed, with the entry of the attempt after the conflicts.
  pub mutate_retries :
      (n : ℕ)
      → n < 8
      → mutate uuid (contended b) src wallet_id amount transfer_id key type n
        ≡ (ok (record { balance = next; entry_id = src.id n }), 0)
  unfolding mutate
  mutate_retries n few =
      rw
        (
          accepted.reads_wallet,
          accepted.reads_transfer,
          accepted.positive,
          accepted.has_key,
          attempts_win src b
              (record { wallet = wid; transfer = tid; amount = amount; key = key; type = type })
              next applies 8 0 n few,
        )
        (ground arith)

  -- On a repository that answers eight calls of MutateBalance or more with ErrVersionConflict,
  -- Credit and Debit with arguments in order and a change that applies end after the eighth, with
  -- ErrVersionConflict.
  pub mutate_gives_up :
      (n : ℕ)
      → 8 ≤ n
      → mutate uuid (contended b) src wallet_id amount transfer_id key type n
        ≡ (err (wrapped "" (sentinel version_conflict) ": exhausted retries"), n - 8)
  unfolding mutate
  mutate_gives_up n many = rw (
    accepted.reads_wallet,
    accepted.reads_transfer,
    accepted.positive,
    accepted.has_key,
    attempts_lose src b
        (record { wallet = wid; transfer = tid; amount = amount; key = key; type = type }) next
        applies 8 0 n many,
  )
