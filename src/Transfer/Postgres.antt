-- ===== src/Transfer/Postgres.antt =====
-- internal/transfer/adapters/postgres/repo.go
pub mod Atomic
use go_payment.Prelude.{ℕ, String, Option, none, some, List, if◌then◌else◌}
use go_payment.Errors.{Sentinel, sentinel, wrapped, is, has_pg_code}
use go_payment.Exec.{Result, ok, err, Exec, pure, fail, attempt, ◌>>=◌, ◌>>◌}
use go_payment.Database.{Session, query, exec, tx_exec, in_transaction}
use go_payment.Outbox.{Event, Store}
use go_payment.Uuid.{Uuid, Time}
use go_payment.Transfer.Domain.{Transfer}
use go_payment.Transfer.Ports.{TransferRepository}
use go_payment.Transfer.Tables.{
  TransferDb, find_transfer, find_by_key, insert_transfer, insert_event, sort_by_time, unpublished,
  take, set_published,
}

abbrev pub TransferExec : Type 0 → Type 0
TransferExec A = Exec (Session TransferDb) A

-- Repo.scan: the first row of a query, or ErrNotFound
unfoldable pub scan : (TransferDb → Option Transfer) → TransferExec Transfer
scan q = query (λ d. elim (q d) [ none ↦ err (sentinel Sentinel.not_found) | some tr ↦ ok tr ])

-- A lookup by key that finds nothing is no error.
abbrev pub found_or_none : Result Transfer → TransferExec (Option Transfer)
found_or_none (ok tr) = pure (some tr)
found_or_none (err e) = if is e Sentinel.not_found then pure none else fail e

unfoldable pub get_by_idempotency_key : String → TransferExec (Option Transfer)
unfolding scan
get_by_idempotency_key key = do
  r ← attempt (scan (λ d. find_by_key key d.transfers))
  found_or_none r

unfoldable pub get_by_id : Uuid → TransferExec Transfer
unfolding scan
get_by_id id = scan (λ d. find_transfer id d.transfers)

abbrev pub transfer_inserted : Result (Unit {0}) → TransferExec (Unit {0})
transfer_inserted (ok _) = pure tt
transfer_inserted (err e) =
    if has_pg_code e "23505"
    then fail (sentinel Sentinel.already_exists)
    else fail (wrapped "insert transfer: " e "")

abbrev pub event_inserted : Result (Unit {0}) → TransferExec (Unit {0})
event_inserted (ok _) = pure tt
event_inserted (err e) = fail (wrapped "insert outbox: " e "")

-- The statements of InsertCompletedWithOutbox's transaction.
unfoldable pub insert_completed_tx : Transfer → Event → TransferExec (Unit {0})
insert_completed_tx tr ev = do
  r ← attempt (tx_exec (insert_transfer tr))
  transfer_inserted r
  r' ← attempt (tx_exec (insert_event ev))
  event_inserted r'

unfoldable pub insert_completed_with_outbox : Transfer → Event → TransferExec (Unit {0})
unfolding insert_completed_tx
insert_completed_with_outbox tr ev = in_transaction (insert_completed_tx tr ev)

abbrev pub pg_repo : TransferRepository (Session TransferDb)
pg_repo = record {
  get_by_idempotency_key = get_by_idempotency_key;
  get_by_id = get_by_id;
  insert_completed_with_outbox = insert_completed_with_outbox;
}

-- OutboxStore
unfoldable pub insert : Event → TransferExec (Unit {0})
insert e = exec (insert_event e)

unfoldable pub fetch_unpublished : ℕ → TransferExec (List Event)
fetch_unpublished limit = query (λ d. ok (take limit (sort_by_time (unpublished d.outbox_events))))

unfoldable pub mark_published : Uuid → Time → TransferExec (Unit {0})
mark_published id at =
    exec (λ d. ok (tt, record d { outbox_events = set_published id at d.outbox_events }))

abbrev pub outbox_store : Store (Session TransferDb)
outbox_store = record {
  insert = insert;
  fetch_unpublished = fetch_unpublished;
  mark_published = mark_published;
}
