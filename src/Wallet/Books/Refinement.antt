-- ===== src/Wallet/Books/Refinement.antt =====
-- One call of Credit or Debit on the tables is one operation on the books.
use go_payment.Prelude.{
  ℕ, ◌+◌, ◌-◌, ◌^◌, ◌<◌, ◌≡◌, ◌∙◌, ap, refl, String, true, false, some, List, [], ◌∷◌, ◌++◌, ℤ, pos,
  pos_part, ◌+ℤ◌, ◌-ℤ◌, IsInt64, ◌≤ℤ◌, ◌<ℤ◌, arith, ltb, leb, leb_ℤ, Bool-cases, Option-cases, inl,
  inr,
}
use go_payment.Exec.{Result, ok, err}
use go_payment.Database.{Session, quiet, query}
use go_payment.Uuid.{Uuid, UuidPackage, Source}
use go_payment.Wallet.Domain.{EntryType, debit, credit, other, Balance, LedgerEntry}
use go_payment.Wallet.Tables.{
  WalletDb, find_balance, find_entry, find_wallet, has_entry_id, is_some,
}
use go_payment.Wallet.Postgres.{pg_repo, get_balance, get_entry_by_idempotency}
use go_payment.Wallet.Service.{
  Change, MutateResult, mutate, attempts, apply, new_entry, credit_wallet, debit_wallet,
}
use go_payment.Wallet.Ledger.{credited, debited, IsConsistent}
use go_payment.Wallet.Ledger.Transactions.{written}
use go_payment.Wallet.Replies.{
  Accepted, Room, mutate_replays, debit_refused, credit_overflows, credit_applies, debit_applies,
}
use go_payment.Wallet.Books.{
  Books, credits_in, debits_in, has_key, credits, debits, used, funds, post, transact, changes,
  change_of, books, of_list, post_last,
}

credits-changes : (w : Uuid) (es : List LedgerEntry) → credits_in w (changes es) ≡ credited w es
unfolding credits_in credited
credits-changes w [] = refl
credits-changes w (e ∷ es) = omega (arith, credits-changes w es)

debits-changes : (w : Uuid) (es : List LedgerEntry) → debits_in w (changes es) ≡ debited w es
unfolding debits_in debited
debits-changes w [] = refl
debits-changes w (e ∷ es) = omega (arith, debits-changes w es)

has_key-changes :
    (k : String) (es : List LedgerEntry) → has_key k (changes es) ≡ is_some (find_entry k es)
unfolding has_key find_entry
has_key-changes k [] = refl
has_key-changes k (e ∷ es) = ground (arith, has_key-changes k es)

changes-append :
    (es : List LedgerEntry) (e : LedgerEntry)
    → changes (es ++ e ∷ []) ≡ changes es ++ change_of e ∷ []
changes-append [] e = refl
changes-append (x ∷ es) e = ap (λ l. change_of x ∷ l) (changes-append es e)

pub used-books :
    (k : String) (d : WalletDb) → used k (books d) ≡ is_some (find_entry k d.ledger_entries)
unfolding used
used-books k d = has_key-changes k d.ledger_entries

pub funds-books :
    (w : Uuid) (b : Balance) (d : WalletDb)
    → IsConsistent d
    → find_balance w d.account_balances ≡ some b
    → (b.balance_minor ≡ pos (funds w (books d))) × (funds w (books d) < 2 ^ 63)
unfolding credits debits
funds-books w b d c row =
    ground (
      arith,
      c.backed w,
      row,
      credits-changes w d.ledger_entries,
      debits-changes w d.ledger_entries,
    )

pub books-written :
    (src : Source) (c : Change) (new : ℤ) (d : WalletDb)
    → books (written (new_entry src 0 c) new d) ≡ post c (books d)
books-written src c new d =
    ap of_list (changes-append d.ledger_entries (new_entry src 0 c))
    ∙ post_last c (changes d.ledger_entries)

sum_exact : (b a : ℤ) (n : ℕ) → b ≡ pos n → leb_ℤ a (pos 0) ≡ false → b +ℤ a ≡ pos (n + pos_part a)
unfolding ◌+ℤ◌
sum_exact b a n e positive = ground arith

difference_exact :
    (b a : ℤ) (n : ℕ)
    → b ≡ pos n
    → leb_ℤ a (pos 0) ≡ false
    → leb (pos_part a) n ≡ true
    → b -ℤ a ≡ pos (n - pos_part a)
unfolding ◌-ℤ◌
difference_exact b a n e positive covered = ground arith

-- What a caller sees, and the books that are left.
abbrev pub balance_of : Result MutateResult → Result ℤ
balance_of (ok r) = ok r.balance.balance_minor
balance_of (err e) = err e

abbrev pub seen : Result MutateResult × Session WalletDb → Result ℤ × Books
seen (r, s) = (balance_of r, books s.tables)

module _ (uuid : UuidPackage) (src : Source) (wallet_id : String) (amount : ℤ)
    (transfer_id key : String) (wid tid : Uuid)
    (accepted : Accepted uuid wallet_id amount transfer_id key wid tid) (d : WalletDb) (b : Balance)
    (row : find_balance wid d.account_balances ≡ some b) (int64 : IsInt64 amount)
    (consistent : IsConsistent d) where
  abbrev c : EntryType → Change
  c type = record { wallet = wid; transfer = tid; amount = amount; key = key; type = type }

  abbrev call : EntryType → Result MutateResult × Session WalletDb
  call type = mutate uuid pg_repo src wallet_id amount transfer_id key type (quiet d)

  replayed :
      (type : EntryType) (e : LedgerEntry)
      → find_entry key d.ledger_entries ≡ some e
      → seen (call type) ≡ transact (c type) (books d)
  replayed type e there =
      rw
        (
          mutate_replays uuid src wallet_id amount transfer_id key wid tid accepted d b row type e
              there,
          used-books key d,
          there,
          (funds-books wid b d consistent row).0,
        )
        refl

  abbrev n : ℕ
  n = funds wid (books d)

  worth : (b.balance_minor ≡ pos n) × (n < 2 ^ 63)
  worth = funds-books wid b d consistent row

  module _ (room : Room src key wid b d) where
    fresh : used key (books d) ≡ false
    fresh = rw (used-books key d, room.0) refl

    credited_once : seen (call credit) ≡ transact (c credit) (books d)
    unfolding credit_wallet
    credited_once = elim (Bool-cases (ltb (n + pos_part amount) (2 ^ 63))) [
      | inl fits ↦
          rw
            (
              credit_applies uuid src wallet_id amount transfer_id key wid tid accepted d b row room
                  (ground (arith, worth))
                  (ground
                    (arith, sum_exact b.balance_minor amount n worth.0 accepted.positive, fits)),
              books-written src (c credit) (b.balance_minor +ℤ amount) d,
              sum_exact b.balance_minor amount n worth.0 accepted.positive,
              fresh,
              fits,
            )
            refl
      | inr over ↦
          rw
            (
              credit_overflows uuid src wallet_id amount transfer_id key wid tid accepted d b row
                  room.0 int64 (ground (arith, worth)) (ground (arith, worth))
                  (ground
                    (arith, sum_exact b.balance_minor amount n worth.0 accepted.positive, over)),
              fresh,
              over,
            )
            refl
    ]

    debited_once : seen (call debit) ≡ transact (c debit) (books d)
    unfolding debit_wallet
    debited_once = elim (Bool-cases (leb (pos_part amount) n)) [
      | inl covered ↦
          rw
            (
              debit_applies uuid src wallet_id amount transfer_id key wid tid accepted d b row room
                  (ground (arith, worth)) (ground (arith, worth, covered, accepted.positive)),
              books-written src (c debit) (b.balance_minor -ℤ amount) d,
              difference_exact b.balance_minor amount n worth.0 accepted.positive covered,
              fresh,
              covered,
            )
            refl
      | inr short ↦
          rw
            (
              debit_refused uuid src wallet_id amount transfer_id key wid tid accepted d b row
                  room.0 (ground (arith, worth, short, accepted.positive)),
              fresh,
              short,
            )
            refl
    ]

  settled :
      (type : EntryType) → Room src key wid b d → seen (call type) ≡ transact (c type) (books d)
  unfolding mutate attempts apply get_balance get_entry_by_idempotency query
  settled credit room = credited_once room
  settled debit room = debited_once room
  settled (other t) room =
      rw
        (
          accepted.reads_wallet,
          accepted.reads_transfer,
          accepted.positive,
          accepted.has_key,
          room.0,
          row,
          fresh room,
        )
        refl

  -- One call on the tables, with a new key or a used one, is the operation on their books.
  pub mutate_refines :
      (type : EntryType)
      → has_entry_id (src.id 0) d.ledger_entries ≡ false
      → is_some (find_wallet wid d.wallets) ≡ true
      → pos 0 ≤ℤ b.version
      → b.version +ℤ pos 1 <ℤ pos (2 ^ 63)
      → seen (call type) ≡ transact (c type) (books d)
  mutate_refines type new_id there counted more =
      elim (Option-cases (find_entry key d.ledger_entries)) [
        | inl new ↦ settled type (new, new_id, there, counted, more)
        | inr (e, known) ↦ replayed type e known
      ]
