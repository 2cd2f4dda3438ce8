-- ===== src/Notification/Stream/Counts.antt =====
-- However often its messages come, an event gets one notification.
use go_payment.Prelude.{
  not, ◌&&◌, ℕ, suc, ◌+◌, ◌<◌, ◌≡◌, refl, String, Bool, true, false, List, [], ◌∷◌, ◌++◌, arith,
  ◌||◌, str_eq, eq_iff, Bool-cases, inl, inr, if◌then◌else◌,
}
use go_payment.Exec.{ok}
use go_payment.Database.{quiet}
use go_payment.Outbox.{Payload, json, malformed}
use go_payment.Uuid.{Uuid}
use go_payment.Notification.Service.{Notification, notification}
use go_payment.Notification.Postgres.{NotificationDb, is_processed}
use go_payment.Notification.Consumer.{Fetched, stop, run}
use go_payment.Notification.Commits.Loop.{store, reader}
use go_payment.Notification.Stream.{
  IsReady, is_json, is_processed-more, noted, event_of, after_message, stored, acknowledged,
}
use go_payment.Notification.Stream.Runs.{length, run_stores}

unfoldable pub count : String → List Notification → ℕ
count ev [] = 0
count ev (x ∷ xs) = if str_eq x.event_id ev then suc (count ev xs) else count ev xs

count-append :
    (ev : String) (ns : List Notification) (x : Notification)
    → count ev (ns ++ x ∷ []) ≡ count ev ns + (if str_eq x.event_id ev then 1 else 0)
unfolding count
count-append ev [] x = ground arith
count-append ev (y ∷ ns) x = ground (arith, count-append ev ns x)

noted_counts :
    (ev : String) (id : Uuid) (k : String) (p : Payload) (d : NotificationDb)
    → is_json p ≡ true
    → let d' = if is_processed k d.processed_events then d else noted id k p d in
      (count ev d'.notifications
        ≡ count ev d.notifications
          + (if not (is_processed k d.processed_events) && str_eq k ev then 1 else 0))
      × (is_processed ev d'.processed_events ≡ (is_processed ev d.processed_events || str_eq k ev))
noted_counts ev id k (malformed m) d j = absurd (ground (arith, j))
noted_counts ev id k (json t) d j = elim (Bool-cases (is_processed k d.processed_events)) [
  | inl known ↦ rw known (ground arith, ground (arith, known, eq_iff k ev))
  | inr new ↦ rw new (
    count-append ev d.notifications (notification id k (json t) t),
    is_processed-more ev k d.processed_events,
  )
]

abbrev pub AllJson : List Fetched → Type 0
AllJson [] = Unit
AllJson (m ∷ ms) = (is_json m.value ≡ true) × AllJson ms

module _ (show : ℕ → String) (ids : ℕ → Uuid) where
  unfoldable pub mentions : String → List Fetched → Bool
  mentions ev [] = false
  mentions ev (m ∷ ms) = str_eq (event_of show ids m) ev || mentions ev ms

  stored_counts :
      (ev : String) (n : ℕ) (ms : List Fetched) (d : NotificationDb)
      → AllJson ms
      → count ev (stored show ids n ms d).notifications
        ≡ count ev d.notifications
          + (if not (is_processed ev d.processed_events) && mentions ev ms then 1 else 0)
  unfolding stored mentions
  stored_counts ev n [] d j = ground arith
  stored_counts ev n (m ∷ ms) d j =
      let one = noted_counts ev (ids n) (event_of show ids m) m.value d j.0 in
      rw (stored_counts ev (n + 1) ms (after_message show ids n m d) j.1)
        (ground (arith, one.0, one.1, eq_iff (event_of show ids m) ev))

  acknowledged_all :
      (n : ℕ) (ms : List Fetched) (d : NotificationDb)
      → AllJson ms
      → acknowledged show ids n ms d ≡ ms
  unfolding acknowledged
  acknowledged_all n [] d j = refl
  acknowledged_all n (m ∷ ms) d j =
      rw (acknowledged_all (n + 1) ms (after_message show ids n m d) j.1, j.0) (ground arith)

  -- With every database call served and no other session, over any list of messages with JSON
  -- values, in any order and with any repetitions, when the ids to be drawn are new and different
  -- and every notification belongs to a processed event: with more rounds than messages the loop
  -- of the consumer ends, all messages are committed, and the notifications of an event have
  -- grown by one if it is among the messages and was not processed before, and by none otherwise.
  pub run_announces :
      (fuel n : ℕ) (ms c : List Fetched) (d : NotificationDb)
      → length ms < fuel
      → IsReady ids n d
      → AllJson ms
      → let (r, s') =
          run show store reader fuel n ids
            (record { db = quiet d; waiting = ms; commits = []; committed = c }) in
        (r ≡ ok stop)
        × (s'.waiting ≡ [])
        × (s'.committed ≡ c ++ ms)
        × ((ev : String)
            → count ev s'.db.tables.notifications
              ≡ count ev d.notifications
                + (if not (is_processed ev d.processed_events) && mentions ev ms then 1 else 0))
  run_announces fuel n ms c d enough r j =
      rw (run_stores show ids fuel n ms c d enough r, acknowledged_all n ms d j)
        (refl, refl, refl, λ ev. stored_counts ev n ms d j)
