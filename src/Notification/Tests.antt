-- ===== src/Notification/Tests.antt =====
-- Deliveries of one event, at concrete inputs.
use go_payment.Prelude.{◌≡◌, ℕ, String, refl, [], ◌∷◌, pos}
use go_payment.Notification.Consumer.{Fetched}
use go_payment.Notification.Commits.Loop.{Inbox}
use go_payment.Errors.{plain}
use go_payment.Exec.{ok, err}
use go_payment.Database.{served, refused, lost, quiet}
use go_payment.Outbox.{TransferCompleted, json}
use go_payment.Notification.Service.{handle}
use go_payment.Notification.Postgres.{NotificationDb, pg_store, is_processed}
use go_payment.Notification.Once.{notification_lost, claimed}

abbrev transfer_event : TransferCompleted
transfer_event = record {
  transfer_id = "t2";
  from_wallet_id = "a";
  to_wallet_id = "b";
  amount_minor = pos 300;
  currency = "RUB";
  user_id = "u";
  status = "completed";
}

abbrev one_seen : NotificationDb
one_seen = record {
  processed_events = "t1" ∷ [];
  notifications =
      record {
        id = 1;
        event_id = "t1";
        transfer_id = "t1";
        channel = "log";
        payload = json transfer_event;
      }
      ∷ [];
}

notification_lost_example :
    (handle pg_store 2 "t2" (json transfer_event) (record {
      tables = one_seen;
      turns =
          record { others = λ d. d; verdict = served }
          ∷ record { others = λ d. d; verdict = refused (plain "down") }
          ∷ [];
    })
      ≡ (err (plain "down"), quiet (claimed "t2" one_seen)))
    × (handle pg_store 3 "t2" (json transfer_event) (quiet (claimed "t2" one_seen))
        ≡ (ok tt, quiet (claimed "t2" one_seen)))
unfolding is_processed
notification_lost_example = notification_lost 2 3 "t2" transfer_event (plain "down") one_seen refl

-- Two messages, and a database that refuses the second claim.
abbrev no_digits : ℕ → String
no_digits n = ""

abbrev message : String → Fetched
message key = record {
  topic = "transfers";
  partition = 0;
  offset = 0;
  key = key;
  value = json transfer_event;
}

abbrev two_messages : Inbox
two_messages = record {
  db = record {
    tables = one_seen;
    turns =
        record { others = λ d. d; verdict = served }
        ∷ record { others = λ d. d; verdict = served }
        ∷ record { others = λ d. d; verdict = refused (plain "down") }
        ∷ [];
  };
  waiting = message "t2" ∷ message "t3" ∷ [];
  commits = served ∷ lost (plain "timeout") ∷ [];
  committed = message "t1" ∷ [];
}
