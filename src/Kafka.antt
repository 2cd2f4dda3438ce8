-- ===== src/Kafka.antt =====
-- pkg/kafka: a writer on one topic, and the publisher that retries and falls back to the dead letter
-- queue. The broker's client and the waiting for a timer or a cancellation are parameters.
pub mod Delivery
pub mod Reader
mod Tests
use Prim.Native.String.{◌++◌}
use go_payment.Prelude.{ℕ, zero, suc, ◌*◌, String, Bool, false, Option, none, some, List}
use go_payment.Errors.{GoError, wrapped, text}
use go_payment.Exec.{Result, ok, err, Exec, pure, fail, attempt, ◌>>=◌}
use go_payment.Outbox.{Payload, Publisher}

-- kafka.Message, as far as it is sent and read here
pub record Message : Type 0 where
  pub key : String
  pub value : Payload
  pub headers : List (String × String)

-- kafka.Writer.WriteMessages with one message
abbrev pub WriteMessages : Type 0 → Type 0
WriteMessages S = Message → Exec S (Unit {0})

abbrev pub publish_failed : {S : Type 0} → Result (Unit {0}) → Exec S (Unit {0})
publish_failed (ok _) = pure tt
publish_failed (err e) = fail (wrapped "kafka publish: " e "")

-- Writer, over kafka.Writer: `inject` is the map of headers that the propagator makes of the
-- context, in the order of a `range`.
pub record Writer (S : Type 0) : Type 0 where
  pub write_messages : WriteMessages S
  pub inject : S → List (String × String)
  pub close_writer : Exec S (Unit {0})

-- kafka.RequiredAcks and kafka.Writer, as far as NewWriter sets them; the balancer is LeastBytes.
pub data RequiredAcks : Type 0 where
  require_none require_one require_all : RequiredAcks

pub record WriterConfig : Type 0 where
  pub addr : List String
  pub topic : String
  pub required_acks : RequiredAcks
  pub async : Bool

-- NewWriter; `split` is strings.Split.
abbrev pub new_writer : (String → String → List String) → String → String → WriterConfig
new_writer split brokers topic = record {
  addr = split brokers ",";
  topic = topic;
  required_acks = require_one;
  async = false;
}

-- Writer.Publish
unfoldable pub write : {S : Type 0} → Writer S → String → Payload → Exec S (Unit {0})
write w key value s =
    (do
      r ← attempt (w.write_messages (record { key = key; value = value; headers = w.inject s }))
      publish_failed r)
      s

-- ReliablePublisher: its two writers, and the `select` that waits for a backoff in nanoseconds;
-- `some e` is ctx.Err() when the context is done first.
pub record ReliablePublisher (S : Type 0) : Type 0 where
  pub primary : Writer S
  pub dlq : Writer S
  pub wait : ℕ → Exec S (Option GoError)
  pub retries : ℕ

-- NewReliablePublisher
abbrev pub new_reliable_publisher :
    {S : Type 0} → Writer S → Writer S → (ℕ → Exec S (Option GoError)) → ReliablePublisher S
new_reliable_publisher primary dlq wait = record {
  primary = primary;
  dlq = dlq;
  wait = wait;
  retries = 3;
}

-- 100 * time.Millisecond
abbrev pub first_backoff : ℕ
first_backoff = 100_000_000

abbrev pub shown : Option GoError → String
shown none = "<nil>"
shown (some e) = text e

abbrev pub dead_lettered : {S : Type 0} → Option GoError → Result (Unit {0}) → Exec S (Unit {0})
dead_lettered last (ok _) = pure tt
dead_lettered last (err e) =
    fail (wrapped ("publish failed and dlq failed: primary=" ++ shown last ++ " dlq=") e "")

module _ {S : Type 0} (p : ReliablePublisher S) (key : String) (value : Payload) where
  abbrev pub unless_done : Exec S (Unit {0}) → Option GoError → Exec S (Unit {0})
  unless_done again (some e) = fail e
  unless_done again none = again

  -- What a round does with the result of the primary's Publish.
  abbrev pub after_attempt :
      ℕ → (GoError → Exec S (Unit {0})) → Result (Unit {0}) → Exec S (Unit {0})
  after_attempt backoff again (ok _) = pure tt
  after_attempt backoff again (err e) = do stopped ← p.wait backoff; unless_done (again e) stopped

  -- The loop: rounds left, the backoff and the last error.
  unfoldable pub publish_rounds : ℕ → ℕ → Option GoError → Exec S (Unit {0})
  unfolding write
  publish_rounds zero backoff last = do r ← attempt (write p.dlq key value); dead_lettered last r
  publish_rounds (suc left) backoff last = do
    r ← attempt (write p.primary key value)
    after_attempt backoff (λ e. publish_rounds left (backoff * 2) (some e)) r

  unfoldable pub publish : Exec S (Unit {0})
  unfolding publish_rounds
  publish = publish_rounds p.retries first_backoff none

-- ReliablePublisher.Close; the first error is dropped.
unfoldable pub close : {S : Type 0} → ReliablePublisher S → Exec S (Unit {0})
close p = do _ ← attempt p.primary.close_writer; p.dlq.close_writer

abbrev pub reliable : {S : Type 0} → ReliablePublisher S → Publisher S
reliable p = record { publish = publish p }
