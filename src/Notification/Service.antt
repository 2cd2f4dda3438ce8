-- ===== src/Notification/Service.antt =====
-- internal/notification/ports/ports.go and internal/notification/app/service.go; the log lines are
-- left out.
use go_payment.Prelude.{ℕ, String, Bool, true, false}
use go_payment.Errors.{plain}
use go_payment.Exec.{Result, ok, err, Exec, pure, lift, ◌>>=◌}
use go_payment.Outbox.{Payload, json, malformed, TransferCompleted}
use go_payment.Uuid.{Uuid}

pub record Notification : Type 0 where
  pub id : Uuid
  pub event_id : String
  pub transfer_id : String
  pub channel : String
  pub payload : Payload

pub record Store (S : Type 0) : Type 0 where
  pub try_claim_event : String → Exec S Bool
  pub save_notification : Notification → Exec S (Unit {0})
  pub count_notifications : Exec S ℕ

-- json.Unmarshal into a TransferCompletedEvent
abbrev pub unmarshal : Payload → Result TransferCompleted
unmarshal (json t) = ok t
unmarshal (malformed m) = err (plain m)

abbrev pub notification : Uuid → String → Payload → TransferCompleted → Notification
notification id event_id payload ev = record {
  id = id;
  event_id = event_id;
  transfer_id = ev.transfer_id;
  channel = "log";
  payload = payload;
}

module _ {S : Type 0} (store : Store S) where
  -- The rest of Handle once the claim has been tried.
  unfoldable pub deliver : Uuid → String → Payload → Bool → Exec S (Unit {0})
  deliver id event_id payload false = pure tt
  deliver id event_id payload true = do
    ev ← lift (unmarshal payload)
    store.save_notification (notification id event_id payload ev)

  -- Service.Handle; `id` is the result of uuid.New.
  unfoldable pub handle : Uuid → String → Payload → Exec S (Unit {0})
  unfolding deliver
  handle id event_id payload = do
    claimed ← store.try_claim_event event_id
    deliver id event_id payload claimed
