-- ===== src/Notification/Repeats.antt =====
-- A consumer that gets an event twice, and one that it has seen before.
use go_payment.Prelude.{
  ◌≡◌, ◌+◌, ◌++◌, ℕ, String, refl, List, [], ◌∷◌, pos, arith, not, ◌&&◌, if◌then◌else◌,
}
use go_payment.Exec.{ok}
use go_payment.Database.{quiet}
use go_payment.Outbox.{Payload, TransferCompleted, json, malformed}
use go_payment.Notification.Postgres.{NotificationDb, is_processed}
use go_payment.Notification.Consumer.{Fetched, stop, run}
use go_payment.Notification.Commits.Loop.{store, reader, position}
use go_payment.Notification.Stream.{IsReady, stored, has_id, has_event}
use go_payment.Notification.Stream.Restart.{fetched_from, any_succeeds, unsettled, run_resumes}
use go_payment.Notification.Stream.Counts.{run_announces, count, mentions}

abbrev transfer_event : TransferCompleted
transfer_event = record {
  transfer_id = "t2";
  from_wallet_id = "a";
  to_wallet_id = "b";
  amount_minor = pos 300;
  currency = "RUB";
  user_id = "u";
  status = "completed";
}

abbrev one_seen : NotificationDb
one_seen = record {
  processed_events = "t1" ∷ [];
  notifications =
      record {
        id = 1;
        event_id = "t1";
        transfer_id = "t1";
        channel = "log";
        payload = json transfer_event;
      }
      ∷ [];
}

abbrev no_digits : ℕ → String
no_digits n = ""

abbrev message : String → Fetched
message key = record {
  topic = "transfers";
  partition = 0;
  offset = 0;
  key = key;
  value = json transfer_event;
}

abbrev repeats : List Fetched
repeats = message "t2" ∷ message "t1" ∷ message "t2" ∷ []

abbrev ids : ℕ → ℕ
ids n = 10 + n

one_seen-IsReady : IsReady ids 0 one_seen
unfolding has_id has_event is_processed
one_seen-IsReady = record {
  distinct = λ j k e. omega (arith, e);
  unused = λ k le. ground arith;
  backed = λ ev h. ground (arith, h);
}

run_announces_example :
    let (r, s') =
      run no_digits store reader 4 0 ids
        (record { db = quiet one_seen; waiting = repeats; commits = []; committed = [] }) in
    (r ≡ ok stop)
    × (s'.waiting ≡ [])
    × (s'.committed ≡ [] ++ repeats)
    × ((ev : String)
        → count ev s'.db.tables.notifications
          ≡ count ev one_seen.notifications
            + (if not (is_processed ev one_seen.processed_events)
                  && mentions no_digits ids ev repeats
                then 1
                else 0))
run_announces_example =
    run_announces no_digits ids 4 0 repeats [] one_seen (omega arith) one_seen-IsReady
      (refl, (refl, (refl, tt)))

-- The event that comes twice has one notification.
announced_once : count "t2" (stored no_digits ids 0 repeats one_seen).notifications ≡ 1
unfolding count stored is_processed
announced_once = refl

-- A partition whose first and last message cannot be read.
abbrev at_offset : ℕ → String → Payload → Fetched
at_offset n key value = record {
  topic = "transfers";
  partition = 0;
  offset = n;
  key = key;
  value = value;
}

abbrev log : List Fetched
log =
    at_offset 4 "t3" (malformed "bad")
    ∷ at_offset 5 "t2" (json transfer_event)
    ∷ at_offset 7 "t4" (malformed "bad")
    ∷ []

run_resumes_example :
    let (r, s') =
      run no_digits store reader 4 0 ids
        (record { db = quiet one_seen; waiting = log; commits = []; committed = [] }) in
    (r ≡ ok stop)
    × (s'.db ≡ quiet (stored no_digits ids 0 log one_seen))
    × (fetched_from (position 0 s'.committed) log ≡ unsettled no_digits ids 0 log one_seen)
run_resumes_example =
    run_resumes no_digits ids 4 0 0 0 log one_seen (omega arith) one_seen-IsReady
      (refl, omega arith, (refl, omega arith, (refl, omega arith, tt)))

-- The first of them is not delivered again.
one_lost : unsettled no_digits ids 0 log one_seen ≡ at_offset 7 "t4" (malformed "bad") ∷ []
unfolding unsettled any_succeeds is_processed
one_lost = refl
