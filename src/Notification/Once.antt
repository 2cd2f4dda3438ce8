-- ===== src/Notification/Once.antt =====
-- Deliveries of one event to Handle on PostgreSQL: what a redelivery does.
use go_payment.Prelude.{◌≡◌, String, true, false, List, [], ◌∷◌, ◌++◌, arith, eq_iff}
use go_payment.Errors.{GoError, has_pg_code}
use go_payment.Exec.{ok, err}
use go_payment.Database.{Turn, served, refused, quiet, exec}
use go_payment.Outbox.{Payload, TransferCompleted, json}
use go_payment.Uuid.{Uuid}
use go_payment.Notification.Service.{handle, notification}
use go_payment.Notification.Postgres.{
  NotificationDb, pg_store, is_processed, collides, insert_processed, insert_notification,
  try_claim_event, save_notification,
}

pub is_processed-append : (id : String) (xs : List String) → is_processed id (xs ++ id ∷ []) ≡ true
unfolding is_processed
is_processed-append id [] = ground (arith, eq_iff id id)
is_processed-append id (x ∷ xs) = ground (arith, is_processed-append id xs)

pub processed_again :
    (id : Uuid) (event_id : String) (p : Payload) (d : NotificationDb)
    → is_processed event_id d.processed_events ≡ true
    → handle pg_store id event_id p (quiet d) ≡ (ok tt, quiet d)
unfolding handle try_claim_event exec insert_processed has_pg_code
processed_again id event_id p d h = rw h (ground arith)

abbrev pub claimed : String → NotificationDb → NotificationDb
claimed event_id d = record d { processed_events = d.processed_events ++ event_id ∷ [] }

-- With every database call served and no other session, an event that was not seen before is
-- claimed and its notification stored; delivered again, with whatever payload, it is acknowledged
-- and changes nothing.
pub handle_once :
    (id id' : Uuid) (event_id : String) (ev : TransferCompleted) (p' : Payload) (d : NotificationDb)
    → is_processed event_id d.processed_events ≡ false
    → collides (notification id event_id (json ev) ev) d.notifications ≡ false
    → let stored = record (claimed event_id d) {
      notifications = d.notifications ++ notification id event_id (json ev) ev ∷ [];
    } in
      (handle pg_store id event_id (json ev) (quiet d) ≡ (ok tt, quiet stored))
      × (handle pg_store id' event_id p' (quiet stored) ≡ (ok tt, quiet stored))
unfolding handle try_claim_event save_notification exec insert_processed insert_notification
handle_once id id' event_id ev p' d new free = (
  rw (new, free),
  processed_again id' event_id p'
      (record (claimed event_id d) {
        notifications = d.notifications ++ notification id event_id (json ev) ev ∷ [];
      })
      (is_processed-append event_id d.processed_events),
)

abbrev answering : Turn NotificationDb
answering = record { others = λ d. d; verdict = served }

abbrev failing : GoError → Turn NotificationDb
failing e = record { others = λ d. d; verdict = refused e }

-- With no other session, when the claim of a new event is stored and then the database refuses
-- the notification, the call fails, and the event delivered again is acknowledged without a
-- notification.
pub notification_lost :
    (id id' : Uuid) (event_id : String) (ev : TransferCompleted) (e : GoError) (d : NotificationDb)
    → is_processed event_id d.processed_events ≡ false
    → (handle pg_store id event_id
          (json ev)
          (record { tables = d; turns = answering ∷ failing e ∷ [] })
        ≡ (err e, quiet (claimed event_id d)))
      × (handle pg_store id' event_id (json ev) (quiet (claimed event_id d))
          ≡ (ok tt, quiet (claimed event_id d)))
unfolding handle try_claim_event save_notification exec insert_processed
notification_lost id id' event_id ev e d new = (
  rw new,
  processed_again id' event_id (json ev) (claimed event_id d)
      (is_processed-append event_id d.processed_events),
)
