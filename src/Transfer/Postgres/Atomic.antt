-- ===== src/Transfer/Postgres/Atomic.antt =====
-- The transactional outbox: a completed transfer and its event are stored together or not at all.
use go_payment.Prelude.{◌≡◌, ◌⊎◌, inl, inr, ◌∙◌, none, ◌∷◌, [], ◌++◌, arith, false}
use go_payment.Errors.{GoError}
use go_payment.Exec.{ok, err}
use go_payment.Database.{Session, after_others, tx_exec}
use go_payment.Database.Outcome.{in_transaction-Outcome}
use go_payment.Outbox.{Event}
use go_payment.Transfer.Domain.{Transfer}
use go_payment.Transfer.Tables.{
  TransferDb, insert_transfer, insert_event, find_transfer, find_by_key, has_event,
}
use go_payment.Transfer.Postgres.{insert_completed_tx, insert_completed_with_outbox}

-- The two rows that a completed transfer adds.
abbrev pub with_transfer : Transfer → Event → TransferDb → TransferDb
with_transfer tr ev d = record {
  transfers = d.transfers ++ tr ∷ [];
  outbox_events = d.outbox_events ++ record ev { published_at = none } ∷ [];
}

-- What lets the two rows in: nothing has the ids or the key yet.
abbrev pub IsNew : Transfer → Event → TransferDb → Type 0
IsNew tr ev d =
    (find_transfer tr.id d.transfers ≡ none)
    × (find_by_key tr.idempotency_key d.transfers ≡ none)
    × (has_event ev.id d.outbox_events ≡ false)

insert_completed_tx_ok :
    (tr : Transfer) (ev : Event) (s : Session TransferDb)
    → (insert_completed_tx tr ev s).0 ≡ ok tt
    → IsNew tr ev s.tables × ((insert_completed_tx tr ev s).1.tables ≡ with_transfer tr ev s.tables)
unfolding insert_completed_tx tx_exec insert_transfer insert_event
insert_completed_tx_ok tr ev s h = ground arith

-- On any schedule of other sessions and failures, InsertCompletedWithOutbox either fails and
-- leaves the tables as the other sessions left them, or has added the transfer and its event,
-- neither of which was there; a success is the second.
pub insert_completed_atomic :
    (tr : Transfer) (ev : Event) (s : Session TransferDb)
    → let d = (after_others s).tables in
      let end = insert_completed_with_outbox tr ev s in
      ((e : GoError) × (end.0 ≡ err e) × (end.1.tables ≡ d))
      ⊎ (IsNew tr ev d × (end.1.tables ≡ with_transfer tr ev d))
unfolding insert_completed_with_outbox
insert_completed_atomic tr ev s = elim (in_transaction-Outcome (insert_completed_tx tr ev) s) [
  | inl failed ↦ inl failed
  | inr (u, ended, same) ↦
      let (new, rows) = insert_completed_tx_ok tr ev (after_others s) ended in
      inr (new, same ∙ rows)
]
