-- ===== src/Kafka/Tests.antt =====
-- The publisher against a broker that refuses some writes and loses the answer of one.
use go_payment.Errors.{plain}
use go_payment.Database.{served, refused, lost}
use go_payment.Prelude.Map.{lookup, IsRange}
use go_payment.Exec.{ok, pure}
use go_payment.Kafka.Reader.{Received, Reader, fetch}
use go_payment.Kafka.Reader.Trace.{ReadsByGet, fetch_context}
use go_payment.Prelude.{refl, String, Option, List, arith, eq_iff, ◌≡◌, [], ◌∷◌}
use go_payment.Outbox.{malformed}
use go_payment.Kafka.{publish, publish_rounds, write}
use go_payment.Kafka.Delivery.{Broker, publisher, sent}

-- The first write is stored and its answer lost, the others to the topic are refused.
abbrev unreliable : Broker
unreliable = record {
  answers = lost (plain "timeout") ∷ refused (plain "down") ∷ refused (plain "down") ∷ served ∷ [];
  topic = [];
  dead_letters = [];
  tried = 0;
  tried_dead = 0;
  waits = [];
  trace = ("traceparent", "00") ∷ [];
}

-- The message is on both.
on_both :
    ((publish publisher "k" (malformed "") unreliable).1.topic
      ≡ sent "k" (malformed "") unreliable ∷ [])
    × ((publish publisher "k" (malformed "") unreliable).1.dead_letters
        ≡ sent "k" (malformed "") unreliable ∷ [])
unfolding publish publish_rounds write
on_both = (refl, refl)

abbrev message : Received
message = record {
  topic = "transfers";
  partition = 0;
  offset = 4;
  key = "k";
  value = malformed "";
  headers = ("baggage", "b") ∷ ("traceparent", "00") ∷ [];
}

-- The context is what Get finds under its two names.
abbrev reader : Reader (Unit {0}) (Option String × Option String)
reader = record {
  fetch_message = λ s. (ok message, s);
  commit_messages = λ m. pure tt;
  close_reader = pure tt;
  extract = λ m. (lookup "traceparent" m, lookup "baggage" m);
}

abbrev injected : List (String × String)
injected = ("traceparent", "00") ∷ ("baggage", "b") ∷ []

reader-ReadsByGet : ReadsByGet reader.extract
reader-ReadsByGet m m' same = rw (same "traceparent", same "baggage") refl

injected-IsRange : IsRange message.headers injected
unfolding lookup
injected-IsRange = record {
  unique = (refl, (refl, tt));
  same = λ name.
      ground
        (arith, eq_iff "traceparent" name, eq_iff "baggage" name, eq_iff "baggage" "traceparent");
}

fetch_context_example : fetch reader tt ≡ (ok (message, reader.extract injected), tt)
fetch_context_example =
    fetch_context reader tt tt message injected reader-ReadsByGet injected-IsRange refl
