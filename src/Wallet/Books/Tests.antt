-- ===== src/Wallet/Books/Tests.antt =====
-- A sequence of calls on small tables: a debit, the same key again, and a debit that is not covered.
use go_payment.Prelude.{
  ℕ, ◌<◌, false, IsInt64, leb_ℤ, str_eq, ◌≡◌, refl, List, [], ◌∷◌, ℤ, pos, arith, String,
}
use go_payment.Errors.{sentinel, insufficient_funds}
use go_payment.Exec.{ok, err}
use go_payment.Database.{quiet}
use go_payment.Samples.{unary_uuid, unary, counting}
use go_payment.Wallet.Domain.{debit}
use go_payment.Wallet.Tables.{find_balance, find_wallet, has_entry_id}
use go_payment.Wallet.Samples.{row, funded, funded-IsConsistent}
use go_payment.Wallet.Books.{books, credits, debits, used, post, credits_in, debits_in, has_key}
use go_payment.Wallet.Books.History.{
  Request, history, transactions, balances_of, IsReady, history_refines,
}

abbrev taking : ℤ → String → ℕ → Request
taking amount key id = record {
  wallet_id = unary 7;
  transfer_id = unary 3;
  change = record { wallet = 7; transfer = 3; amount = amount; key = key; type = debit };
  source = counting id;
}

abbrev requests : List Request
requests = taking (pos 300) "d1" 40 ∷ taking (pos 300) "d1" 41 ∷ taking (pos 5000) "d2" 42 ∷ []

-- What the books say to it.
answers :
    (transactions requests (books funded)).0
    ≡ ok (pos 700) ∷ ok (pos 700) ∷ err (sentinel insufficient_funds) ∷ []
unfolding transactions credits debits used post credits_in debits_in has_key
answers = refl

ready :
    (amount : ℤ) (key : String) (id : ℕ)
    → leb_ℤ amount (pos 0) ≡ false
    → str_eq key "" ≡ false
    → IsInt64 amount
    → 20 < id
    → IsReady unary_uuid 3 (taking amount key id) funded
unfolding find_balance find_wallet has_entry_id
ready amount key id positive named int64 new = record {
  accepted = record {
    reads_wallet = refl;
    reads_transfer = refl;
    positive = positive;
    has_key = named;
  };
  int64 = int64;
  row = row (pos 1000) (pos 1);
  found = refl;
  there = refl;
  counted = refl;
  more = omega arith;
  new_id = ground (arith, new);
}

history_refines_example :
    let (answers, end) = history unary_uuid requests (quiet funded) in
    (balances_of answers, books end.tables) ≡ transactions requests (books funded)
history_refines_example =
    history_refines unary_uuid requests funded funded-IsConsistent (omega arith) (
      ready (pos 300) "d1" 40 refl refl (ground arith) (omega arith),
      (
        ready (pos 300) "d1" 41 refl refl (ground arith) (omega arith),
        (ready (pos 5000) "d2" 42 refl refl (ground arith) (omega arith), tt),
      ),
    )
