-- ===== src/Notification/Postgres.antt =====
-- internal/notification/adapters/postgres/store.go on the tables of
-- db/migrations/notification/00001_notifications.sql.
use go_payment.Prelude.{
  ℕ, suc, String, Bool, true, false, List, [], ◌∷◌, ◌++◌, ◌==◌, ◌||◌, str_eq, if◌then◌else◌,
}
use go_payment.Errors.{pg_error, wrapped, has_pg_code}
use go_payment.Exec.{Result, ok, err, Exec, pure, fail, attempt, ◌>>=◌}
use go_payment.Database.{Session, query, exec}
use go_payment.Outbox.{json, malformed}
use go_payment.Notification.Service.{Notification, Store}

pub record NotificationDb : Type 0 where
  pub processed_events : List String
  pub notifications : List Notification

abbrev pub NotificationExec : Type 0 → Type 0
NotificationExec A = Exec (Session NotificationDb) A

unfoldable pub is_processed : String → List String → Bool
is_processed id [] = false
is_processed id (x ∷ xs) = str_eq x id || is_processed id xs

-- PRIMARY KEY (id), UNIQUE (event_id)
unfoldable pub collides : Notification → List Notification → Bool
collides n [] = false
collides n (x ∷ xs) = ((x.id == n.id) || str_eq x.event_id n.event_id) || collides n xs

-- INSERT INTO processed_events (event_id) VALUES ($1)
unfoldable pub insert_processed : String → NotificationDb → Result (Unit {0} × NotificationDb)
insert_processed id d =
    if is_processed id d.processed_events
    then err (pg_error "23505")
    else ok (tt, record d { processed_events = d.processed_events ++ id ∷ [] })

-- INSERT INTO notifications; the payload column is JSONB
abbrev pub insert_json : Notification → NotificationDb → Bool → Result (Unit {0} × NotificationDb)
insert_json n d false = err (pg_error "22P02")
insert_json n d true =
    if collides n d.notifications
    then err (pg_error "23505")
    else ok (tt, record d { notifications = d.notifications ++ n ∷ [] })

unfoldable pub insert_notification :
    Notification → NotificationDb → Result (Unit {0} × NotificationDb)
insert_notification n d = insert_json n d (elim n.payload [ json t ↦ true | malformed m ↦ false ])

abbrev pub claimed : Result (Unit {0}) → NotificationExec Bool
claimed (ok _) = pure true
claimed (err e) = if has_pg_code e "23505" then pure false else fail (wrapped "claim event: " e "")

unfoldable pub try_claim_event : String → NotificationExec Bool
try_claim_event event_id = do r ← attempt (exec (insert_processed event_id)); claimed r

unfoldable pub save_notification : Notification → NotificationExec (Unit {0})
save_notification n = exec (insert_notification n)

unfoldable pub length : List Notification → ℕ
length [] = 0
length (n ∷ ns) = suc (length ns)

unfoldable pub count_notifications : NotificationExec ℕ
count_notifications = query (λ d. ok (length d.notifications))

abbrev pub pg_store : Store (Session NotificationDb)
pg_store = record {
  try_claim_event = try_claim_event;
  save_notification = save_notification;
  count_notifications = count_notifications;
}
