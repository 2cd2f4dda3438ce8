-- ===== src/Notification/Stream.antt =====
-- The consumer over any list of messages, with repetitions: the reference of what is stored and what
-- is committed.
pub mod Runs
pub mod Counts
pub mod Copies
pub mod Restart
use go_payment.Prelude.{
  ℕ, ◌+◌, ◌≤◌, ◌≡◌, refl, String, Bool, true, false, List, [], ◌∷◌, ◌++◌, arith, ◌==◌, ◌||◌, str_eq,
  if◌then◌else◌,
}
use go_payment.Outbox.{Payload, json, malformed}
use go_payment.Uuid.{Uuid}
use go_payment.Notification.Service.{Notification, notification}
use go_payment.Notification.Postgres.{NotificationDb, is_processed, collides}
use go_payment.Notification.Consumer.{Fetched, event_id}
use go_payment.Notification.Once.{claimed}
use go_payment.Notification.Commits.Loop.{store, reader}

unfoldable pub has_id : Uuid → List Notification → Bool
has_id id [] = false
has_id id (n ∷ ns) = (n.id == id) || has_id id ns

unfoldable pub has_event : String → List Notification → Bool
has_event ev [] = false
has_event ev (n ∷ ns) = str_eq n.event_id ev || has_event ev ns

pub collides-has :
    (n : Notification) (ns : List Notification)
    → has_id n.id ns ≡ false
    → has_event n.event_id ns ≡ false
    → collides n ns ≡ false
unfolding collides has_id has_event
collides-has n [] h e = refl
collides-has n (x ∷ ns) h e = ground (arith, collides-has n ns, h, e)

has_id-append :
    (id : Uuid) (ns : List Notification) (n : Notification)
    → has_id id (ns ++ n ∷ []) ≡ (has_id id ns || (n.id == id))
unfolding has_id
has_id-append id [] n = ground arith
has_id-append id (x ∷ ns) n = ground (arith, has_id-append id ns n)

has_event-append :
    (ev : String) (ns : List Notification) (n : Notification)
    → has_event ev (ns ++ n ∷ []) ≡ (has_event ev ns || str_eq n.event_id ev)
unfolding has_event
has_event-append ev [] n = ground arith
has_event-append ev (x ∷ ns) n = ground (arith, has_event-append ev ns n)

pub is_processed-more :
    (x y : String) (xs : List String)
    → is_processed x (xs ++ y ∷ []) ≡ (is_processed x xs || str_eq y x)
unfolding is_processed
is_processed-more x y [] = ground arith
is_processed-more x y (z ∷ xs) = ground (arith, is_processed-more x y xs)

-- The tables and the ids that are still to be drawn: none of these is taken, and every notification
-- belongs to an event that is processed.
pub record IsReady (ids : ℕ → Uuid) (n : ℕ) (d : NotificationDb) : Type 0 where
  pub distinct : (j k : ℕ) → ids j ≡ ids k → j ≡ k
  pub unused : (k : ℕ) → n ≤ k → has_id (ids k) d.notifications ≡ false
  pub backed :
      (ev : String)
      → is_processed ev d.processed_events ≡ false
      → has_event ev d.notifications ≡ false

-- The reference. A message whose event is processed changes nothing; a new one is processed, and
-- has a notification when its value is JSON.
abbrev pub noted : Uuid → String → Payload → NotificationDb → NotificationDb
noted id ev (malformed m) d = claimed ev d
noted id ev (json t) d = record (claimed ev d) {
  notifications = d.notifications ++ notification id ev (json t) t ∷ [];
}

pub noted-IsReady :
    (ids : ℕ → Uuid) (n : ℕ) (ev : String) (p : Payload) (d : NotificationDb)
    → IsReady ids n d
    → IsReady ids (n + 1) (noted (ids n) ev p d)
noted-IsReady ids n ev (malformed m) d r = record {
  distinct = r.distinct;
  unused = λ k le. r.unused k (omega (arith, le));
  backed = λ x h. r.backed x (ground (arith, is_processed-more x ev d.processed_events, h));
}
noted-IsReady ids n ev (json t) d r = record {
  distinct = r.distinct;
  unused = λ k le. ground (
    arith,
    has_id-append (ids k) d.notifications (notification (ids n) ev (json t) t),
    r.unused k (omega (arith, le)),
    r.distinct n k,
    le,
  );
  backed = λ x h. ground (
    arith,
    has_event-append x d.notifications (notification (ids n) ev (json t) t),
    is_processed-more x ev d.processed_events,
    h,
    r.backed x,
  );
}

pub skipped-IsReady :
    (ids : ℕ → Uuid) (n : ℕ) (d : NotificationDb) → IsReady ids n d → IsReady ids (n + 1) d
skipped-IsReady ids n d r = record {
  distinct = r.distinct;
  unused = λ k le. r.unused k (omega (arith, le));
  backed = r.backed;
}

abbrev pub is_json : Payload → Bool
is_json (json t) = true
is_json (malformed m) = false

module _ (show : ℕ → String) (ids : ℕ → Uuid) where
  abbrev pub event_of : Fetched → String
  event_of m = event_id show store reader m

  abbrev pub seen : Fetched → NotificationDb → Bool
  seen m d = is_processed (event_of m) d.processed_events

  abbrev pub after_message : ℕ → Fetched → NotificationDb → NotificationDb
  after_message n m d = if seen m d then d else noted (ids n) (event_of m) m.value d

  -- The tables after the messages, the n-th drawing the n-th id.
  unfoldable pub stored : ℕ → List Fetched → NotificationDb → NotificationDb
  stored n [] d = d
  stored n (m ∷ ms) d = stored (n + 1) ms (after_message n m d)

  -- The messages that are handed to CommitMessages: all but those whose value is not JSON when they come first.
  unfoldable pub acknowledged : ℕ → List Fetched → NotificationDb → List Fetched
  acknowledged n [] d = []
  acknowledged n (m ∷ ms) d =
      let rest = acknowledged (n + 1) ms (after_message n m d) in
      if seen m d || is_json m.value then m ∷ rest else rest
