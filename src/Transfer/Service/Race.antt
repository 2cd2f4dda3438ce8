-- ===== src/Transfer/Service/Race.antt =====
-- Two requests with one key at the same time. Create looks the key up before it calls the wallets, and
-- the table refuses a key that is taken only afterwards.
use go_payment.Prelude.{
  ◌≡◌, ◌∙◌, ap, sym, subst, refl, pos, leb_ℤ, false, none, some, [], ◌∷◌, arith,
}
use go_payment.Transfer.Domain.{Transfer}
use go_payment.Errors.{GoError, pg_error, Sentinel, sentinel, is, has_pg_code}
use go_payment.Exec.{Result, ok, err}
use go_payment.Database.{Turn, served, quiet, query, tx_exec, in_transaction}
use go_payment.Uuid.{Uuid, UuidPackage}
use go_payment.Transfer.Tables.{TransferDb, find_by_key, find_transfer, has_event, insert_transfer}
use go_payment.Transfer.Postgres.{get_by_idempotency_key, insert_completed_with_outbox, scan}
use go_payment.Transfer.Postgres.Atomic.{with_transfer}
use go_payment.Transfer.Service.{Draw, CreateRequest, event_of, CreateResult, create}
use go_payment.Transfer.Service.Begun.{done, IsValid, new_transfer-begun}
use go_payment.Transfer.Service.Replay.{find_by_key-append}
use go_payment.Transfer.Service.Retry.{
  Recorded, recorded_repo, recording, empty_cache, answering, moved, repeated,
}

insert_transfer-taken :
    (t x : Transfer) (d : TransferDb)
    → leb_ℤ t.amount_minor (pos 0) ≡ false
    → find_by_key t.idempotency_key d.transfers ≡ some x
    → insert_transfer t d ≡ err (pg_error "23505")
unfolding insert_transfer
insert_transfer-taken t x d positive taken = ground arith

-- The other call runs from its lookup to its commit before our transaction begins.
abbrev pub overtaken : UuidPackage → GoError → CreateRequest → Draw → Turn TransferDb
overtaken uuid parse_error q other = record {
  others = λ d.
      (create uuid recorded_repo recording empty_cache parse_error other q
        (record { db = quiet d; calls = [] })).1.db.tables;
  verdict = served;
}

module _ (uuid : UuidPackage) (parse_error : GoError) (q : CreateRequest) (from to user : Uuid)
    (d : TransferDb) (valid : IsValid uuid q from to user)
    (fresh : find_by_key q.key d.transfers ≡ none) where
  -- The key is there when our transaction begins: the unique index refuses the row.
  create-taken :
      (ours : Draw) (turn : Turn TransferDb) (tr : Transfer)
      → turn.verdict ≡ served
      → find_by_key q.key (turn.others d).transfers ≡ some tr
      → create uuid recorded_repo recording empty_cache parse_error ours q
          (record { db = record { tables = d; turns = answering ∷ turn ∷ [] }; calls = [] })
        ≡ (
          err (sentinel Sentinel.already_exists),
          record { db = quiet (turn.others d); calls = moved uuid q ours },
        )
  unfolding create scan query get_by_idempotency_key insert_completed_with_outbox in_transaction
      tx_exec is has_pg_code
  create-taken ours turn tr serves taken = rw (
    valid.has_key,
    fresh,
    valid.reads_from,
    valid.reads_to,
    valid.reads_user,
    new_transfer-begun uuid ours q from to user valid,
    serves,
    insert_transfer-taken (done uuid ours q from to user) tr (turn.others d) valid.positive taken,
  )

  -- Two calls of Create with the same valid request, whose key is new, at the same time, each
  -- with a wallet service that accepts every call and a cache that holds nothing, with every
  -- database call served and no third session: when one of them runs from its lookup to its
  -- commit after the lookup of the other and before the transaction of the other, it succeeds and
  -- stores its transfer, and the other fails with ErrAlreadyExists; each has debited and credited
  -- the amount, under the keys of its own transfer id, and only the transfer and the event of the
  -- first are stored.
  pub race_moves_twice :
      (ours other : Draw)
      → find_transfer other.transfer_id d.transfers ≡ none
      → has_event other.event_id d.outbox_events ≡ false
      → let call = create uuid recorded_repo recording empty_cache parse_error in
        let tr = done uuid other q from to user in
        let (r', s') = call other q (record { db = quiet d; calls = [] }) in
        let (r, s) = call ours q (record {
          db = record { tables = d; turns = answering ∷ overtaken uuid parse_error q other ∷ [] };
          calls = [];
        }) in
        (r' ≡ ok (record { transfer = tr; idempotent_replay = false }))
        × (s'.calls ≡ moved uuid q other)
        × (r ≡ err (sentinel Sentinel.already_exists))
        × (s.calls ≡ moved uuid q ours)
        × (s.db.tables ≡ with_transfer tr (event_of uuid other tr) d)
  race_moves_twice ours other new_id new_event =
      let tr = done uuid other q from to user in
      let first =
        repeated uuid parse_error q from to user d valid fresh other [] new_id new_event in
      let turn = overtaken uuid parse_error q other in
      let tables = λ (r : Result CreateResult × Recorded). r.1.db.tables in
      let calls = λ (r : Result CreateResult × Recorded). r.1.calls in
      let e : turn.others d ≡ with_transfer tr (event_of uuid other tr) d = ap tables first in
      let there = find_by_key-append q.key tr d.transfers refl fresh in
      let taken = subst (λ t. find_by_key q.key t.transfers ≡ some tr) (sym e) there in
      let second = create-taken ours turn tr refl taken in
      (
        ap (λ r. r.0) first,
        ap calls first,
        ap (λ r. r.0) second,
        ap calls second,
        ap tables second ∙ e,
      )
