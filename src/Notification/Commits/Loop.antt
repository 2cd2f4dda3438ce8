-- ===== src/Notification/Commits/Loop.antt =====
-- The consumer's loop over a list of messages: what it hands to CommitMessages has been processed,
-- and so has the message behind which the position of a partition comes to stand.
use go_payment.Prelude.{
  ℕ, suc, ◌≡◌, refl, String, true, false, List, [], ◌∷◌, ◌++◌, inl, inr, ◌⊎◌, ◌==◌, ltb,
  if◌then◌else◌,
}
use go_payment.Errors.{plain}
use go_payment.Exec.{ok, err, Exec, Result-cases}
use go_payment.Database.{Session, Verdict, served, refused, lost, next_verdict, later_verdicts}
use go_payment.Outbox.{Payload, json, malformed}
use go_payment.Uuid.{Uuid}
use go_payment.Notification.Service.{Store, handle, deliver}
use go_payment.Notification.Postgres.{
  NotificationDb, pg_store, is_processed, try_claim_event, save_notification, count_notifications,
}
use go_payment.Notification.Consumer.{Fetched, Reader, event_id, committed}
use go_payment.Notification.Commits.{Admissible}

-- The database beside a topic: the messages still to be fetched, what becomes of the next calls of
-- CommitMessages, and the messages whose commit has reached the reader, in order.
pub record Inbox : Type 0 where
  pub db : Session NotificationDb
  pub waiting : List Fetched
  pub commits : List Verdict
  pub committed : List Fetched

abbrev pub on_db : {A : Type 0} → Exec (Session NotificationDb) A → Exec Inbox A
on_db m s = let (r, db) = m s.db in (r, record s { db = db })

abbrev pub store : Store Inbox
store = record {
  try_claim_event = λ id. on_db (try_claim_event id);
  save_notification = λ n. on_db (save_notification n);
  count_notifications = on_db count_notifications;
}

abbrev pub taken : List Fetched → Exec Inbox Fetched
taken [] s = (err (plain "no more messages"), s)
taken (m ∷ ms) s = (ok m, record s { waiting = ms })

abbrev pub recorded : Verdict → Fetched → Exec Inbox (Unit {0})
recorded served m s = (ok tt, record s { committed = s.committed ++ m ∷ [] })
recorded (refused e) m s = (err e, s)
recorded (lost e) m s = (err e, record s { committed = s.committed ++ m ∷ [] })

-- The context ends with the messages.
abbrev pub reader : Reader Inbox
reader = record {
  fetch = λ s. taken s.waiting s;
  commit =
      λ m s. recorded (next_verdict s.commits) m (record s { commits = later_verdicts s.commits });
  stopped = λ s. true;
}

-- Documented of CommitMessages: the group goes on behind the highest offset of a partition that was
-- committed, whatever has become of the messages below it. The reader sends it to the broker
-- once a second; this is the position when it has been sent.
unfoldable pub position : ℕ → List Fetched → ℕ
position p [] = 0
position p (m ∷ ms) =
    let rest = position p ms in
    if m.partition == p then (if ltb (suc m.offset) rest then rest else suc m.offset) else rest

pub handle-on_db :
    (id : Uuid) (ev : String) (p : Payload) (s : Inbox)
    → handle store id ev p s ≡ on_db (handle pg_store id ev p) s
unfolding handle deliver
handle-on_db id ev p s = go p
  where
    go : (p : Payload) → handle store id ev p s ≡ on_db (handle pg_store id ev p) s
    go (json t) = elim (Result-cases (try_claim_event ev s.db).0) [
      | inl (true, took) ↦ rw took refl
      | inl (false, took) ↦ rw took refl
      | inr (e, failed) ↦ rw failed refl
    ]
    go (malformed m) = elim (Result-cases (try_claim_event ev s.db).0) [
      | inl (true, took) ↦ rw took refl
      | inl (false, took) ↦ rw took refl
      | inr (e, failed) ↦ rw failed refl
    ]

module _ (show : ℕ → String) where
  abbrev pub AllProcessed : List Fetched → NotificationDb → Type 0
  AllProcessed [] d = Unit
  AllProcessed (m ∷ ms) d =
      (is_processed (event_id show store reader m) d.processed_events ≡ true) × AllProcessed ms d

  -- Every committed message has its event among the processed ones.
  pub record Sound (s : Inbox) : Type 0 where
    pub processed : AllProcessed s.committed s.db.tables
    pub admissible : Admissible s.db.turns

  -- The position is at the start, or behind a message whose event is processed.
  abbrev pub BehindProcessed : ℕ → Inbox → Type 0
  BehindProcessed p s =
      (position p s.committed ≡ 0)
      ⊎ ((m : Fetched) × (m.partition ≡ p)
          × (position p s.committed ≡ suc m.offset)
          × (is_processed (event_id show store reader m) s.db.tables.processed_events ≡ true))
