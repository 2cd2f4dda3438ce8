-- ===== src/Wallet/Books.antt =====
-- What the wallet service promises, without its tables: books of changes that forget the order, the
-- entry ids and the times of the ledger, and one operation on them.
pub mod Refinement
pub mod History
mod Tests
use mathlib.Core.Quot
use mathlib.Core.Quot.{Quot, Quot-set}
use go_payment.Prelude.{
  ℕ, ◌+◌, ◌-◌, ◌^◌, ◌≡◌, refl, String, Bool, true, false, List, [], ◌∷◌, ◌++◌, ℤ, pos, pos_part,
  arith, ◌==◌, ◌||◌, str_eq, ltb, leb, if◌then◌else◌,
}
use go_payment.Errors.{GoError, sentinel, pg_error, insufficient_funds}
use go_payment.Exec.{ok, err, Exec}
use go_payment.Uuid.{Uuid}
use go_payment.Wallet.Domain.{EntryType, debit, credit, other, LedgerEntry}
use go_payment.Wallet.Tables.{WalletDb, check_violation}
use go_payment.Wallet.Service.{Change, bad_argument}
use go_payment.Wallet.Ledger.{credit_part, debit_part}

unfoldable pub credits_in : Uuid → List Change → ℕ
credits_in w [] = 0
credits_in w (c ∷ cs) = (if c.wallet == w then credit_part c.type c.amount else 0) + credits_in w cs

unfoldable pub debits_in : Uuid → List Change → ℕ
debits_in w [] = 0
debits_in w (c ∷ cs) = (if c.wallet == w then debit_part c.type c.amount else 0) + debits_in w cs

unfoldable pub has_key : String → List Change → Bool
has_key k [] = false
has_key k (c ∷ cs) = str_eq c.key k || has_key k cs

-- The same sums for every wallet, and the same keys.
pub record SameBooks (xs ys : List Change) : Type 0 where
  pub credits : (w : Uuid) → credits_in w xs ≡ credits_in w ys
  pub debits : (w : Uuid) → debits_in w xs ≡ debits_in w ys
  pub keys : (k : String) → has_key k xs ≡ has_key k ys

abbrev pub Books : Type 0
Books = Quot SameBooks

abbrev pub of_list : List Change → Books
of_list = Quot.mk

unfoldable pub credits : Uuid → Books → ℕ
credits w = Quot.lift (hlevel) (credits_in w) (λ xs ys h. h.credits w)

unfoldable pub debits : Uuid → Books → ℕ
debits w = Quot.lift (hlevel) (debits_in w) (λ xs ys h. h.debits w)

-- A call with the key has gone through.
unfoldable pub used : String → Books → Bool
used k = Quot.lift (hlevel) (has_key k) (λ xs ys h. h.keys k)

abbrev pub funds : Uuid → Books → ℕ
funds w b = credits w b - debits w b

SameBooks-cons : (c : Change) (xs ys : List Change) → SameBooks xs ys → SameBooks (c ∷ xs) (c ∷ ys)
unfolding credits_in debits_in has_key
SameBooks-cons c xs ys h = record {
  credits = λ w. omega (arith, h.credits w);
  debits = λ w. omega (arith, h.debits w);
  keys = λ k. rw (h.keys k) refl;
}

unfoldable pub post : Change → Books → Books
unfolding SameBooks-cons
post c =
    Quot.lift Quot-set (λ xs. of_list (c ∷ xs)) (λ xs ys h. Quot.sound (SameBooks-cons c xs ys h))

-- A new key: a credit goes through when the sum fits an int64, a debit when it is covered.
abbrev pub settle : EntryType → Change → Exec Books ℤ
settle credit c b =
    let n = funds c.wallet b + pos_part c.amount in
    if ltb n (2 ^ 63) then (ok (pos n), post c b) else (err (pg_error check_violation), b)
settle debit c b =
    let n = funds c.wallet b in
    if leb (pos_part c.amount) n
    then (ok (pos (n - pos_part c.amount)), post c b)
    else (err (sentinel insufficient_funds), b)
settle (other t) c b = (err bad_argument, b)

-- One call of Credit or Debit: its answer is the balance of the wallet.
abbrev pub transact : Change → Exec Books ℤ
transact c b = if used c.key b then (ok (pos (funds c.wallet b)), b) else settle c.type c b

abbrev pub change_of : LedgerEntry → Change
change_of e = record {
  wallet = e.wallet_id;
  transfer = e.transfer_id;
  amount = e.amount_minor;
  key = e.idempotency_key;
  type = e.type;
}

abbrev pub changes : List LedgerEntry → List Change
changes [] = []
changes (e ∷ es) = change_of e ∷ changes es

-- The books that the tables stand for.
abbrev pub books : WalletDb → Books
books d = of_list (changes d.ledger_entries)

SameBooks-last : (c : Change) (xs : List Change) → SameBooks (xs ++ c ∷ []) (c ∷ xs)
unfolding credits_in debits_in has_key
SameBooks-last c xs = record {
  credits = λ w. last_credit w xs;
  debits = λ w. last_debit w xs;
  keys = λ k. last_key k xs;
}
  where
    last_credit :
        (w : Uuid) (xs : List Change) → credits_in w (xs ++ c ∷ []) ≡ credits_in w (c ∷ xs)
    last_credit w [] = refl
    last_credit w (x ∷ xs) = omega (arith, last_credit w xs)

    last_debit : (w : Uuid) (xs : List Change) → debits_in w (xs ++ c ∷ []) ≡ debits_in w (c ∷ xs)
    last_debit w [] = refl
    last_debit w (x ∷ xs) = omega (arith, last_debit w xs)

    last_key : (k : String) (xs : List Change) → has_key k (xs ++ c ∷ []) ≡ has_key k (c ∷ xs)
    last_key k [] = refl
    last_key k (x ∷ xs) = ground (arith, last_key k xs)

-- The place of an entry in the ledger is forgotten.
pub post_last : (c : Change) (xs : List Change) → of_list (xs ++ c ∷ []) ≡ post c (of_list xs)
unfolding post
post_last c xs = Quot.sound (SameBooks-last c xs)
