-- ===== src/Kafka/Reader.antt =====
-- pkg/kafka/kafka.go: the reader of a topic. kafka.Reader and the propagator are parameters.
pub mod Trace
use go_payment.Prelude.{ℕ, String, Bool, true, List, [], ◌∷◌}
use go_payment.Prelude.Map.{assign}
use go_payment.Exec.{Exec, pure, ◌>>=◌}
use go_payment.Outbox.{Payload}

-- kafka.Message, as it is received
pub record Received : Type 0 where
  pub topic : String
  pub partition : ℕ
  pub offset : ℕ
  pub key : String
  pub value : Payload
  pub headers : List (String × String)

-- kafka.Reader, and Extract of the propagator into a context of type C
pub record Reader (S C : Type 0) : Type 0 where
  pub fetch_message : Exec S Received
  pub commit_messages : Received → Exec S (Unit {0})
  pub close_reader : Exec S (Unit {0})
  pub extract : List (String × String) → C

-- kafka.ReaderConfig; the interval is in nanoseconds.
pub record ReaderConfig : Type 0 where
  pub brokers : List String
  pub topic : String
  pub group_id : String
  pub min_bytes : ℕ
  pub max_bytes : ℕ
  pub commit_interval : ℕ
  pub from_first_offset : Bool

-- NewReader; `split` is strings.Split.
abbrev pub new_reader : (String → String → List String) → String → String → String → ReaderConfig
new_reader split brokers topic group = record {
  brokers = split brokers ",";
  topic = topic;
  group_id = group;
  min_bytes = 1;
  max_bytes = 10_000_000;
  commit_interval = 1_000_000_000;
  from_first_offset = true;
}

-- The map that the loop over the headers fills.
unfoldable pub carrier : List (String × String) → List (String × String) → List (String × String)
unfolding assign
carrier [] m = m
carrier ((key, value) ∷ hs) m = carrier hs (assign key value m)

module _ {S C : Type 0} (r : Reader S C) where
  -- Reader.Fetch: the message and its context.
  unfoldable pub fetch : Exec S (Received × C)
  unfolding carrier
  fetch = do msg ← r.fetch_message; pure (msg, r.extract (carrier msg.headers []))

  unfoldable pub commit : Received → Exec S (Unit {0})
  commit msg = r.commit_messages msg

  unfoldable pub close : Exec S (Unit {0})
  close = r.close_reader
