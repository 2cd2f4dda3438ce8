-- ===== src/Wallet/Quiet.antt =====
-- One call of Credit or Debit with a new key, when every call of the database is served and no other
-- session writes: it fails and writes nothing, or it has written one entry and the balance for it.
use go_payment.Prelude.{
  ℕ, suc, ◌^◌, ◌≡◌, ◌⊎◌, inl, inr, refl, String, true, false, none, some, [], ◌∷◌, ◌++◌, ℤ, pos,
  neg_part, arith, ==ℤ_refl, Option-cases, Bool-cases, not, ◌||◌, ◌-◌, str_eq, ltb_ℤ, leb_ℤ,
}
use go_payment.Errors.{GoError, Sentinel, sentinel, pg_error, is, has_pg_code}
use go_payment.Wallet.Replies.{Accepted}
use go_payment.Exec.{Result, ok, err, Result-cases}
use go_payment.Database.{Session, quiet, query, in_transaction, tx_exec}
use go_payment.Uuid.{Uuid, UuidPackage, Source}
use go_payment.Wallet.Domain.{EntryType, Balance, LedgerEntry}
use go_payment.Wallet.Tables.{
  WalletDb, find_balance, find_entry, find_wallet, has_entry_id, is_some, known_type, set_balance,
  update_balance, insert_entry, check_violation, unique_violation, foreign_key_violation,
  out_of_range,
}
use go_payment.Wallet.Postgres.{pg_repo, get_balance, mutate_balance, get_entry_by_idempotency}
use go_payment.Wallet.Service.{Change, MutateResult, apply, new_entry, attempts, mutate}
use go_payment.Wallet.Ledger.Transactions.{written}

insert_entry-cases :
    (e : LedgerEntry) (d : WalletDb)
    → ((code : String) × (insert_entry e d ≡ err (pg_error code)))
      ⊎ (insert_entry e d ≡ ok (tt, record d { ledger_entries = d.ledger_entries ++ e ∷ [] }))
unfolding insert_entry
insert_entry-cases e d =
    elim (Bool-cases (not (known_type e.type) || leb_ℤ e.amount_minor (pos 0))) [
      | inl bad ↦ inl (check_violation, rw bad refl)
      | inr good ↦
          elim (Bool-cases (
            has_entry_id e.id d.ledger_entries
            || is_some (find_entry e.idempotency_key d.ledger_entries))) [
              | inl dup ↦ inl (unique_violation, rw (good, dup) refl)
              | inr new ↦ elim (Bool-cases (is_some (find_wallet e.wallet_id d.wallets))) [
                | inl there ↦ inr (rw (good, new, there) refl)
                | inr gone ↦ inl (foreign_key_violation, rw (good, new, gone) refl)
              ]
            ]
    ]

update_balance-cases :
    (id : Uuid) (b : Balance) (new : ℤ) (d : WalletDb)
    → find_balance id d.account_balances ≡ some b
    → ((code : String) × (update_balance id new b.version d ≡ err (pg_error code)))
      ⊎ ((update_balance id new b.version d
            ≡ ok (true, record d { account_balances = set_balance id new d.account_balances }))
          × (neg_part new ≡ 0))
unfolding update_balance
update_balance-cases id b new d row = elim (Bool-cases (ltb_ℤ new (pos 0))) [
  | inl low ↦ inl (check_violation, rw (row, ==ℤ_refl b.version, low) refl)
  | inr fine ↦ elim (Bool-cases (leb_ℤ (pos (2 ^ 63 - 1)) b.version)) [
    | inl last ↦ inl (out_of_range, rw (row, ==ℤ_refl b.version, fine, last) refl)
    | inr more ↦ inr (rw (row, ==ℤ_refl b.version, fine, more) refl, ground (arith, fine))
  ]
]

-- The transaction finds the version that was read.
mutate_balance_quiet :
    (id : Uuid) (b : Balance) (new : ℤ) (e : LedgerEntry) (d : WalletDb)
    → find_balance id d.account_balances ≡ some b
    → e.wallet_id ≡ id
    → ((x : GoError) × (mutate_balance id b.version new e (quiet d) ≡ (err x, quiet d))
        × (is x Sentinel.version_conflict ≡ false)
        × (is x Sentinel.pkg_version_conflict ≡ false))
      ⊎ ((mutate_balance id b.version new e (quiet d) ≡ (ok tt, quiet (written e new d)))
          × (neg_part new ≡ 0))
unfolding mutate_balance in_transaction tx_exec is has_pg_code
mutate_balance_quiet id b new e d row same = elim (update_balance-cases id b new d row) [
  | inl (code, failed) ↦ inl (pg_error code, rw failed refl, refl, refl)
  | inr (updated, nonneg) ↦
      elim (insert_entry-cases e
        (record d { account_balances = set_balance id new d.account_balances })) [
          | inl (code, failed) ↦ elim (Bool-cases (str_eq code unique_violation)) [
            | inl dup ↦
                inl (sentinel Sentinel.already_exists, rw (updated, failed, dup) refl, refl, refl)
            | inr other ↦ inl (pg_error code, rw (updated, failed, other) refl, refl, refl)
          ]
          | inr inserted ↦ inr (rw (updated, inserted, same) refl, nonneg)
        ]
]

-- What a call may have done: nothing, or a change that applies to the row of its wallet.
pub data Outcome (c : Change) (src : Source) (d : WalletDb)
    (r : Result MutateResult × Session WalletDb) : Type 0 where
  nothing : (x : GoError) → r ≡ (err x, quiet d) → Outcome c src d r
  wrote :
      (b next : Balance)
      → find_balance c.wallet d.account_balances ≡ some b
      → apply c.type b c.amount ≡ ok next
      → neg_part next.balance_minor ≡ 0
      → r ≡ (
        ok (record { balance = next; entry_id = src.id 0 }),
        quiet (written (new_entry src 0 c) next.balance_minor d),
      )
      → Outcome c src d r

attempts-Outcome :
    (left : ℕ) (src : Source) (c : Change) (d : WalletDb)
    → find_entry c.key d.ledger_entries ≡ none
    → Outcome c src d (attempts pg_repo (suc left) 0 src c (quiet d))
unfolding attempts get_balance get_entry_by_idempotency query
attempts-Outcome left src c d fresh =
    elim (Option-cases (find_balance c.wallet d.account_balances)) [
      | inl gone ↦ nothing (sentinel Sentinel.not_found) (rw gone refl)
      | inr (b, row) ↦ elim (Result-cases (apply c.type b c.amount)) [
        | inr (x, refused) ↦ nothing x (rw (row, refused) refl)
        | inl (next, applies) ↦
            elim (mutate_balance_quiet c.wallet b next.balance_minor (new_entry src 0 c) d row
              refl) [
                | inr (done, nonneg) ↦
                    wrote b next row applies nonneg (rw (row, applies, done) refl)
                | inl (x, failed, n1, n2) ↦ elim (Bool-cases (is x Sentinel.already_exists)) [
                  | inl dup ↦ nothing x (rw (row, applies, failed, n1, n2, dup, fresh) refl)
                  | inr other ↦ nothing x (rw (row, applies, failed, n1, n2, other) refl)
                ]
              ]
      ]
    ]

-- With arguments in order.
pub mutate-Outcome :
    (uuid : UuidPackage) (src : Source) (wallet_id : String) (amount : ℤ) (transfer_id key : String)
    (wid tid : Uuid) (type : EntryType) (d : WalletDb)
    → Accepted uuid wallet_id amount transfer_id key wid tid
    → find_entry key d.ledger_entries ≡ none
    → Outcome
        (record { wallet = wid; transfer = tid; amount = amount; key = key; type = type })
        src
        d
        (mutate uuid pg_repo src wallet_id amount transfer_id key type (quiet d))
unfolding mutate get_entry_by_idempotency query
mutate-Outcome uuid src wallet_id amount transfer_id key wid tid type d accepted fresh =
    rw (accepted.reads_wallet, accepted.reads_transfer, accepted.positive, accepted.has_key, fresh)
      (attempts-Outcome 7 src
        (record { wallet = wid; transfer = tid; amount = amount; key = key; type = type }) d fresh)
