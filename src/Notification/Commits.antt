-- ===== src/Notification/Commits.antt =====
-- The consumer's loop on PostgreSQL: which messages it commits.
pub mod Loop
use go_payment.Prelude.{
  ◌+◌, ◌≡◌, refl, String, Bool, true, false, List, [], ◌∷◌, ◌++◌, arith, Bool-cases, inl, inr,
}
use go_payment.Errors.{has_pg_code}
use go_payment.Exec.{Result, ok, err, Result-cases}
use go_payment.Database.{
  Session, Turn, Verdict, served, refused, lost, first_verdict, after_others, settle, exec,
}
use go_payment.Outbox.{Payload, json, malformed}
use go_payment.Uuid.{Uuid}
use go_payment.Notification.Service.{Notification, notification, handle, deliver}
use go_payment.Notification.Postgres.{
  NotificationDb, pg_store, is_processed, insert_processed, insert_notification, claimed,
  try_claim_event, save_notification,
}
use go_payment.Notification.Once.{is_processed-append}

-- No event that was processed is forgotten.
abbrev pub Keeps : NotificationDb → NotificationDb → Type 0
Keeps d d' =
    (x : String)
    → is_processed x d.processed_events ≡ true
    → is_processed x d'.processed_events ≡ true

-- The error of a call that the database has not answered is no unique violation.
abbrev pub IsPlain : Verdict → Type 0
IsPlain served = Unit
IsPlain (refused e) = has_pg_code e "23505" ≡ false
IsPlain (lost e) = has_pg_code e "23505" ≡ false

abbrev pub Admissible : List (Turn NotificationDb) → Type 0
Admissible [] = Unit
Admissible (t ∷ ts) =
    ((d : NotificationDb) → Keeps d (t.others d)) × IsPlain t.verdict × Admissible ts

-- A session goes on: nothing is forgotten, and its turns stay admissible.
pub record Step (s s' : Session NotificationDb) : Type 0 where
  pub keeps : Keeps s.tables s'.tables
  pub turns : Admissible s.turns → Admissible s'.turns

Step-trans : {a b c : Session NotificationDb} → Step a b → Step b c → Step a c
Step-trans p q = record { keeps = λ x h. q.keeps x (p.keeps x h); turns = λ a. q.turns (p.turns a) }

after_others-Step : (s : Session NotificationDb) → Admissible s.turns → Step s (after_others s)
after_others-Step s a = go s.turns a
  where
    go :
        (ts : List (Turn NotificationDb))
        → Admissible ts
        → Step
            (record { tables = s.tables; turns = ts })
            (after_others (record { tables = s.tables; turns = ts }))
    go [] a = record { keeps = λ x h. h; turns = λ a. a }
    go (t ∷ ts) a = record { keeps = a.0 s.tables; turns = λ a. a.2 }

settle-Step :
    {A : Type 0} (s : Session NotificationDb) (v : Verdict) (r : Result (A × NotificationDb))
    → ((a : A) (d : NotificationDb) → r ≡ ok (a, d) → Keeps s.tables d)
    → Step s (settle s v r).1
settle-Step s (refused e) r h = record { keeps = λ x p. p; turns = λ a. a }
settle-Step s served (err e) h = record { keeps = λ x p. p; turns = λ a. a }
settle-Step s (lost e') (err e) h = record { keeps = λ x p. p; turns = λ a. a }
settle-Step s served (ok (a, d)) h = record { keeps = h a d refl; turns = λ a. a }
settle-Step s (lost e) (ok (a, d)) h = record { keeps = h a d refl; turns = λ a. a }

exec-Step :
    {A : Type 0} (f : NotificationDb → Result (A × NotificationDb)) (s : Session NotificationDb)
    → ((d : NotificationDb) (a : A) (d' : NotificationDb) → f d ≡ ok (a, d') → Keeps d d')
    → Admissible s.turns
    → Step s (exec f s).1
unfolding exec
exec-Step f s h a = Step-trans (after_others-Step s a) (
    settle-Step (after_others s) (first_verdict s.turns) (f (after_others s).tables)
      (h (after_others s).tables))

is_processed-more :
    (x y : String) (xs : List String)
    → is_processed x xs ≡ true
    → is_processed x (xs ++ y ∷ []) ≡ true
unfolding is_processed
is_processed-more x y [] h = ground (arith, h)
is_processed-more x y (z ∷ xs) h = ground (arith, is_processed-more x y xs)

insert_processed-Keeps :
    (id : String) (d : NotificationDb) (u : Unit {0}) (d' : NotificationDb)
    → insert_processed id d ≡ ok (u, d')
    → Keeps d d'
unfolding insert_processed
insert_processed-Keeps id d u d' h x p = ground (arith, is_processed-more x id d.processed_events p)

insert_notification-Keeps :
    (n : Notification) (d : NotificationDb) (u : Unit {0}) (d' : NotificationDb)
    → insert_notification n d ≡ ok (u, d')
    → Keeps d d'
unfolding insert_notification
insert_notification-Keeps n d u d' h x p = ground arith

first_verdict-IsPlain :
    (ts : List (Turn NotificationDb)) → Admissible ts → IsPlain (first_verdict ts)
first_verdict-IsPlain [] a = tt
first_verdict-IsPlain (t ∷ ts) a = a.1

-- What the claim answers and leaves, when the statement meets this verdict.
claim_settled :
    (ev : String) (s : Session NotificationDb) (v : Verdict) (b : Bool)
    → IsPlain v
    → (let r = settle s v (insert_processed ev s.tables) in (claimed r.0 r.1).0) ≡ ok b
    → is_processed ev (settle s v (insert_processed ev s.tables)).1.tables.processed_events ≡ true
unfolding insert_processed
claim_settled ev s served b p h = elim (Bool-cases (is_processed ev s.tables.processed_events)) [
  | inl there ↦ rw there there
  | inr new ↦ rw new (is_processed-append ev s.tables.processed_events)
]
claim_settled ev s (refused e) b p h = ground (arith, h, p)
claim_settled ev s (lost e) b p h = elim (Bool-cases (is_processed ev s.tables.processed_events)) [
  | inl there ↦ rw there there
  | inr new ↦ rw new (is_processed-append ev s.tables.processed_events)
]

-- The session after the claim is the one after its statement.
claimed-session : (r : Result (Unit {0})) (s : Session NotificationDb) → (claimed r s).1 ≡ s
claimed-session (ok u) s = refl
claimed-session (err e) s = elim (Bool-cases (has_pg_code e "23505")) [
  | inl dup ↦ rw dup refl
  | inr other ↦ rw other refl
]

claim_ok :
    (ev : String) (s : Session NotificationDb) (b : Bool)
    → Admissible s.turns
    → (try_claim_event ev s).0 ≡ ok b
    → is_processed ev (try_claim_event ev s).1.tables.processed_events ≡ true
unfolding try_claim_event exec
claim_ok ev s b a h =
    rw (claimed-session (exec (insert_processed ev) s).0 (exec (insert_processed ev) s).1) (
      claim_settled ev (after_others s) (first_verdict s.turns) b (first_verdict-IsPlain s.turns a)
        h)

deliver-Step :
    (id : Uuid) (ev : String) (p : Payload) (b : Bool) (s : Session NotificationDb)
    → Admissible s.turns
    → Step s (deliver pg_store id ev p b s).1
unfolding deliver save_notification
deliver-Step id ev p false s a = record { keeps = λ x h. h; turns = λ a. a }
deliver-Step id ev (malformed m) true s a = record { keeps = λ x h. h; turns = λ a. a }
deliver-Step id ev (json t) true s a =
    exec-Step (insert_notification (notification id ev (json t) t)) s
      (insert_notification-Keeps (notification id ev (json t) t)) a

claim-Step :
    (ev : String) (s : Session NotificationDb)
    → Admissible s.turns
    → Step s (try_claim_event ev s).1
unfolding try_claim_event
claim-Step ev s a =
    rw (claimed-session (exec (insert_processed ev) s).0 (exec (insert_processed ev) s).1)
      (exec-Step (insert_processed ev) s (insert_processed-Keeps ev) a)

-- What Handle leaves, and that the event is processed where it has ended without an error.
pub handle-Step :
    (id : Uuid) (ev : String) (p : Payload) (s : Session NotificationDb)
    → Admissible s.turns
    → Step s (handle pg_store id ev p s).1
      × ((handle pg_store id ev p s).0 ≡ ok tt
          → is_processed ev (handle pg_store id ev p s).1.tables.processed_events ≡ true)
unfolding handle
handle-Step id ev p s a =
    let first = claim-Step ev s a in
    elim (Result-cases (try_claim_event ev s).0) [
      | inl (b, took) ↦
          let rest = deliver-Step id ev p b (try_claim_event ev s).1 (first.turns a) in
          rw took (Step-trans first rest, λ h. rest.keeps ev (claim_ok ev s b a took))
      | inr (e, failed) ↦ rw failed (first, λ h. absurd (ground arith))
    ]
