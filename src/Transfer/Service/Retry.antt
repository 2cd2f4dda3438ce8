-- ===== src/Transfer/Service/Retry.antt =====
-- A client that repeats a request after a failed insert: the money of the first attempt has moved, and
-- the second attempt moves it again under new keys.
use go_payment.Prelude.{◌≡◌, refl, String, false, none, List, [], ◌∷◌, ◌++◌, ℤ}
use go_payment.Errors.{GoError, is}
use go_payment.Exec.{ok, err, Exec}
use go_payment.Database.{Session, Turn, served, refused, quiet, query, tx_exec, in_transaction}
use go_payment.Uuid.{Uuid, UuidPackage}
use go_payment.Transfer.Domain.{Transfer}
use go_payment.Transfer.Ports.{TransferRepository, WalletClient, IdempotencyCache}
use go_payment.Transfer.Tables.{
  TransferDb, find_by_key, find_transfer, has_event, insert_transfer, insert_event,
}
use go_payment.Transfer.Postgres.{
  pg_repo, get_by_idempotency_key, insert_completed_with_outbox, scan,
}
use go_payment.Transfer.Postgres.Atomic.{with_transfer}
use go_payment.Transfer.Service.{Draw, CreateRequest, debit_key, credit_key, event_of, create}
use go_payment.Transfer.Service.Begun.{done, IsValid, new_transfer-begun}

-- A wallet service that accepts every call and keeps a list of them.
pub data Call : Type 0 where
  debited credited : String → ℤ → String → Call

pub record Recorded : Type 0 where
  pub db : Session TransferDb
  pub calls : List Call

abbrev pub recording : WalletClient Recorded
recording = record {
  debit = λ w a t k s. (ok tt, record s { calls = s.calls ++ debited w a k ∷ [] });
  credit = λ w a t k s. (ok tt, record s { calls = s.calls ++ credited w a k ∷ [] });
}

abbrev pub on_db : {A : Type 0} → Exec (Session TransferDb) A → Exec Recorded A
on_db m s = let (r, db) = m s.db in (r, record s { db = db })

abbrev pub recorded_repo : TransferRepository Recorded
recorded_repo = record {
  get_by_idempotency_key = λ k. on_db (get_by_idempotency_key k);
  get_by_id = λ id. on_db (TransferRepository.get_by_id pg_repo id);
  insert_completed_with_outbox = λ tr ev. on_db (insert_completed_with_outbox tr ev);
}

-- A cache that holds nothing.
abbrev pub empty_cache : IdempotencyCache Recorded
empty_cache = record { get = λ k s. (ok none, s); set = λ k v s. (ok tt, s) }

abbrev pub answering : Turn TransferDb
answering = record { others = λ d. d; verdict = served }

abbrev pub failing : GoError → Turn TransferDb
failing e = record { others = λ d. d; verdict = refused e }

-- The wallet calls of a transfer.
abbrev pub moved : UuidPackage → CreateRequest → Draw → List Call
moved uuid q draw =
    debited q.from_id q.amount (debit_key uuid draw.transfer_id)
    ∷ credited q.to_id q.amount (credit_key uuid draw.transfer_id)
    ∷ []

module _ (uuid : UuidPackage) (parse_error : GoError) (q : CreateRequest) (from to user : Uuid)
    (d : TransferDb) (valid : IsValid uuid q from to user)
    (fresh : find_by_key q.key d.transfers ≡ none) where
  abbrev start : Turn TransferDb → Recorded
  start turn = record { db = record { tables = d; turns = answering ∷ turn ∷ [] }; calls = [] }

  abbrev complete : Draw → Transfer
  complete draw = done uuid draw q from to user

  abbrev completed : Draw → TransferDb
  completed draw = with_transfer (complete draw) (event_of uuid draw (complete draw)) d

  -- The transaction cannot begin: the call fails, and both wallet calls have been made.
  failed_insert :
      (draw : Draw) (e : GoError)
      → create uuid recorded_repo recording empty_cache parse_error draw q (start (failing e))
        ≡ (err e, record { db = quiet d; calls = moved uuid q draw })
  unfolding create scan query get_by_idempotency_key insert_completed_with_outbox in_transaction is
  failed_insert draw e = rw (
    valid.has_key,
    fresh,
    valid.reads_from,
    valid.reads_to,
    valid.reads_user,
    new_transfer-begun uuid draw q from to user valid,
  )

  -- The same request again, when the database answers.
  pub repeated :
      (draw : Draw) (calls : List Call)
      → find_transfer draw.transfer_id d.transfers ≡ none
      → has_event draw.event_id d.outbox_events ≡ false
      → create uuid recorded_repo recording empty_cache parse_error draw q
          (record { db = quiet d; calls = calls })
        ≡ (
          ok (record { transfer = complete draw; idempotent_replay = false }),
          record {
            db = quiet (completed draw);
            calls =
                (calls ++ debited q.from_id q.amount (debit_key uuid draw.transfer_id) ∷ [])
                ++ credited q.to_id q.amount (credit_key uuid draw.transfer_id) ∷ [];
          },
        )
  unfolding create scan query get_by_idempotency_key insert_completed_with_outbox in_transaction
      tx_exec insert_transfer insert_event is
  repeated draw calls new_id new_event = rw (
    valid.has_key,
    fresh,
    valid.reads_from,
    valid.reads_to,
    valid.reads_user,
    new_transfer-begun uuid draw q from to user valid,
    valid.positive,
    new_id,
    fresh,
    new_event,
  )

  -- With a wallet service that accepts every call and a cache that holds nothing, a valid request
  -- with a new key whose insert cannot begin its transaction is answered with that error after
  -- the debit and the credit have been made, and nothing stores the transfer. Sent again, it
  -- debits and credits a second time, under the keys of another transfer id, and succeeds as a
  -- new transfer.
  pub retry_moves_twice :
      (first second : Draw) (e : GoError)
      → find_transfer second.transfer_id d.transfers ≡ none
      → has_event second.event_id d.outbox_events ≡ false
      → let call = create uuid recorded_repo recording empty_cache parse_error in
        let (r1, s1) = call first q (start (failing e)) in
        let (r2, s2) = call second q s1 in
        (r1 ≡ err e)
        × (s1.db.tables ≡ d)
        × (r2 ≡ ok (record { transfer = complete second; idempotent_replay = false }))
        × (s2.calls ≡ moved uuid q first ++ moved uuid q second)
  retry_moves_twice first second e new_id new_event =
      rw (failed_insert first e, repeated second (moved uuid q first) new_id new_event)
        (refl, refl, refl, refl)
