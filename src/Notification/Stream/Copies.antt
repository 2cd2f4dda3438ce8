-- ===== src/Notification/Stream/Copies.antt =====
-- The consumer on the copies of one message.
use go_payment.Prelude.{ℕ, ◌+◌, ◌≡◌, ap, ◌∙◌, refl, String, true, false, List, [], ◌∷◌, str_eq}
use go_payment.Outbox.{json, TransferCompleted}
use go_payment.Uuid.{Uuid}
use go_payment.Kafka.{Message}
use go_payment.Notification.Postgres.{NotificationDb, is_processed}
use go_payment.Notification.Consumer.{Fetched}
use go_payment.Notification.Once.{is_processed-append}
use go_payment.Notification.Stream.{noted, event_of, seen, after_message, stored, acknowledged}

-- A message of a topic, as it is fetched from an offset of a partition.
abbrev pub delivered : String → Message → ℕ × ℕ → Fetched
delivered topic m (partition, offset) = record {
  topic = topic;
  partition = partition;
  offset = offset;
  key = m.key;
  value = m.value;
}

abbrev pub copies : String → Message → List (ℕ × ℕ) → List Fetched
copies topic m [] = []
copies topic m (p ∷ ps) = delivered topic m p ∷ copies topic m ps

module _ (show : ℕ → String) (ids : ℕ → Uuid) (topic : String) (m : Message)
    (keyed : str_eq m.key "" ≡ false) where
  event_copy : (p : ℕ × ℕ) → event_of show ids (delivered topic m p) ≡ m.key
  event_copy (p, o) = rw keyed refl

  skipped :
      (n : ℕ) (p : ℕ × ℕ) (d : NotificationDb)
      → is_processed m.key d.processed_events ≡ true
      → after_message show ids n (delivered topic m p) d ≡ d
  skipped n (p, o) d known = rw (keyed, known) refl

  seen_copy :
      (p : ℕ × ℕ) (d : NotificationDb)
      → seen show ids (delivered topic m p) d ≡ is_processed m.key d.processed_events
  seen_copy (p, o) d = rw keyed refl

  copies_seen :
      (n : ℕ) (ps : List (ℕ × ℕ)) (d : NotificationDb)
      → is_processed m.key d.processed_events ≡ true
      → (stored show ids n (copies topic m ps) d ≡ d)
        × (acknowledged show ids n (copies topic m ps) d ≡ copies topic m ps)
  unfolding stored acknowledged
  copies_seen n [] d known = (refl, refl)
  copies_seen n (p ∷ ps) d known =
      let (same, all) = copies_seen (n + 1) ps d known in
      (
        ap (stored show ids (n + 1) (copies topic m ps)) (skipped n p d known) ∙ same,
        simp (seen_copy p d, known, all),
      )

  -- The first copy has a notification, and all of them are committed.
  pub stored-copies :
      (t : TransferCompleted) (p : ℕ × ℕ) (ps : List (ℕ × ℕ)) (d : NotificationDb)
      → m.value ≡ json t
      → is_processed m.key d.processed_events ≡ false
      → (stored show ids 0 (copies topic m (p ∷ ps)) d ≡ noted (ids 0) m.key (json t) d)
        × (acknowledged show ids 0 (copies topic m (p ∷ ps)) d ≡ copies topic m (p ∷ ps))
  unfolding stored acknowledged
  stored-copies t p ps d value new =
      let (same, all) =
        copies_seen 1 ps (noted (ids 0) m.key (json t) d)
          (is_processed-append m.key d.processed_events) in
      (simp (event_copy p, new, value, same), simp (event_copy p, new, value, all))
