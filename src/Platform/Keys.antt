-- ===== src/Platform/Keys.antt =====
-- The keys of the wallet calls of a transfer are in order.
use Prim.Native.String.{◌++◌}
use text.Mathlib.TextLemmas.{append-eq-nil_iff}
use mathlib.Core.Bool.{false≢true}
use go_payment.Prelude.{
  ◌≡◌, ◌≢◌, String, false, some, ℤ, pos, leb_ℤ, str_eq, eq_iff, Bool-cases, inl, inr,
}
use go_payment.Uuid.{Uuid, UuidPackage, ReadsBack}
use go_payment.Wallet.Replies.{Accepted}
use go_payment.Transfer.Service.{debit_key, credit_key}

abbrev prefix : String
prefix = "transfer:"

abbrev empty : String
empty = ""

prefix-ne-empty : prefix ≢ empty
prefix-ne-empty e = false≢true ((eq_iff prefix empty).1 e)

prefixed-ne-empty : (s : String) → str_eq (prefix ++ s) empty ≡ false
prefixed-ne-empty s = elim (Bool-cases (str_eq (prefix ++ s) empty)) [
  | inl same ↦
      absurd (prefix-ne-empty (append-eq-nil_iff.0 ((eq_iff (prefix ++ s) empty).0 same)).0)
  | inr differs ↦ differs
]

module _ (uuid : UuidPackage) (readable : ReadsBack uuid) (wallet_id : String) (amount : ℤ)
    (wid tid : Uuid) (reads_wallet : uuid.parse wallet_id ≡ some wid)
    (positive : leb_ℤ amount (pos 0) ≡ false) where
  pub debit-Accepted :
      Accepted uuid wallet_id amount (uuid.to_string tid) (debit_key uuid tid) wid tid
  debit-Accepted = record {
    reads_wallet = reads_wallet;
    reads_transfer = readable tid;
    positive = positive;
    has_key = prefixed-ne-empty _;
  }

  pub credit-Accepted :
      Accepted uuid wallet_id amount (uuid.to_string tid) (credit_key uuid tid) wid tid
  credit-Accepted = record {
    reads_wallet = reads_wallet;
    reads_transfer = readable tid;
    positive = positive;
    has_key = prefixed-ne-empty _;
  }
