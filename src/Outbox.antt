-- ===== src/Outbox.antt =====
-- pkg/outbox: the event rows, the store and publisher that the worker uses, and the worker's batch.
pub mod Delivery
pub mod Rows
pub mod Drain
pub mod Single
use go_payment.Prelude.{ℕ, zero, suc, String, Option, List, [], ◌∷◌, ℤ}
use go_payment.Exec.{Exec, pure, ◌>>=◌, ◌>>◌}
use go_payment.Uuid.{Uuid, Time}

-- The JSON object of a completed transfer: the map that the transfer service marshals, and
-- TransferCompletedEvent of the notification service, with the same names.
pub record TransferCompleted : Type 0 where
  pub transfer_id : String
  pub from_wallet_id : String
  pub to_wallet_id : String
  pub amount_minor : ℤ
  pub currency : String
  pub user_id : String
  pub status : String

-- Bytes of a message, by what json.Unmarshal makes of them: an object, or its error.
pub data Payload : Type 0 where
  json : TransferCompleted → Payload
  malformed : String → Payload

pub record Event : Type 0 where
  pub id : Uuid
  pub aggregate_type : String
  pub aggregate_id : String
  pub event_type : String
  pub payload : Payload
  pub created_at : Time
  pub published_at : Option Time

pub record Store (S : Type 0) : Type 0 where
  pub insert : Event → Exec S (Unit {0})
  pub fetch_unpublished : ℕ → Exec S (List Event)
  pub mark_published : Uuid → Time → Exec S (Unit {0})

pub record Publisher (S : Type 0) : Type 0 where
  pub publish : String → Payload → Exec S (Unit {0})

abbrev pub batch : ℕ
batch = 50

module _ {S : Type 0} (store : Store S) (publisher : Publisher S) (now : ℕ → Time) where
  -- The loop of Tick; `n` counts the events of the batch that are done.
  unfoldable pub publish_all : ℕ → List Event → Exec S (Unit {0})
  publish_all n [] = pure tt
  publish_all n (e ∷ es) = do
    publisher.publish e.aggregate_id e.payload
    store.mark_published e.id (now n)
    publish_all (suc n) es

  unfoldable pub tick : Exec S (Unit {0})
  unfolding publish_all
  tick = do events ← store.fetch_unpublished batch; publish_all 0 events

module _ {S : Type 0} (store : Store S) (publisher : Publisher S) where
  -- Worker.Run, for a number of rounds of its ticker: the error of a Tick is logged and dropped.
  -- `clock` gives the times that the Tick of a round reads.
  unfoldable pub run : ℕ → (ℕ → ℕ → Time) → S → S
  unfolding tick
  run zero clock s = s
  run (suc rounds) clock s = run rounds (λ k. clock (suc k)) (tick store publisher (clock 0) s).1
