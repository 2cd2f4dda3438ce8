-- ===== src/Transfer/Service/Begun.antt =====
-- What a request to Create has to be for its transfer to begin, and the transfer that begins.
use go_payment.Prelude.{
  ◌≡◌, refl, Bool-cases, inl, inr, String, false, some, pos, leb_ℤ, ◌==◌, str_eq,
}
use go_payment.Exec.{ok}
use go_payment.Uuid.{Uuid, UuidPackage}
use go_payment.Transfer.Domain.{Transfer, new_transfer, pending}
use go_payment.Transfer.Service.{Draw, CreateRequest, finished, or_rub}

-- The transfer of a request before the wallet calls.
abbrev pub begun : Draw → CreateRequest → Uuid → Uuid → Uuid → Transfer
begun draw q from to user = record {
  id = draw.transfer_id;
  from_wallet_id = from;
  to_wallet_id = to;
  amount_minor = q.amount;
  currency = or_rub q.currency;
  status = pending;
  user_id = user;
  idempotency_key = q.key;
  created_at = draw.created;
  updated_at = draw.created;
}

abbrev pub done : UuidPackage → Draw → CreateRequest → Uuid → Uuid → Uuid → Transfer
done uuid draw q from to user = finished uuid draw (begun draw q from to user)

-- Ids that parse, two wallets, a positive amount and a key.
pub record IsValid (uuid : UuidPackage) (q : CreateRequest) (from to user : Uuid) : Type 0 where
  pub reads_from : uuid.parse q.from_id ≡ some from
  pub reads_to : uuid.parse q.to_id ≡ some to
  pub reads_user : uuid.parse q.user_id ≡ some user
  pub two_wallets : (from == to) ≡ false
  pub positive : leb_ℤ q.amount (pos 0) ≡ false
  pub has_key : str_eq q.key "" ≡ false

or_rub-ne-empty : (c : String) → str_eq (or_rub c) "" ≡ false
or_rub-ne-empty c = elim (Bool-cases (str_eq c "")) [ inl e ↦ rw e refl | inr e ↦ rw (e, e) ]

pub new_transfer-begun :
    (uuid : UuidPackage) (draw : Draw) (q : CreateRequest) (from to user : Uuid)
    → IsValid uuid q from to user
    → new_transfer draw.transfer_id draw.created from to q.amount (or_rub q.currency) q.key user
      ≡ ok (begun draw q from to user)
unfolding new_transfer
new_transfer-begun uuid draw q from to user valid =
    rw (valid.two_wallets, valid.positive, or_rub-ne-empty q.currency, valid.has_key)
