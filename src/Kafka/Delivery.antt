-- ===== src/Kafka/Delivery.antt =====
-- What ReliablePublisher does with one message, on any run of a broker and no cancellation.
use go_payment.Prelude.{
  ℕ, zero, suc, ◌+◌, ◌≤◌, ◌≡◌, ◌⊎◌, refl, String, Option, none, List, [], ◌∷◌, ◌++◌, inl, inr,
}
use go_payment.Errors.{GoError}
use go_payment.Exec.{Result, ok, err, Exec, pure}
use go_payment.Database.{
  Verdict, served, refused, lost, Verdict-cases, next_verdict, later_verdicts,
}
use go_payment.Outbox.{Payload}
use go_payment.Kafka.{
  Message, Writer, ReliablePublisher, new_reliable_publisher, publish, publish_rounds, write,
}

-- A broker with two topics: what becomes of the next writes (each is served when the list is used
-- up), the messages on each topic, the writes tried on each, the waits between them and the trace
-- headers. A write that is lost is stored, and reported as an error.
pub record Broker : Type 0 where
  pub answers : List Verdict
  pub topic : List Message
  pub dead_letters : List Message
  pub tried : ℕ
  pub tried_dead : ℕ
  pub waits : List ℕ
  pub trace : List (String × String)

module _ (put : Message → Broker → Broker) where
  abbrev pub settled : Verdict → Message → Exec Broker (Unit {0})
  settled served m b = (ok tt, put m b)
  settled (refused e) m b = (err e, b)
  settled (lost e) m b = (err e, put m b)

abbrev pub on_topic : Message → Broker → Broker
on_topic m b = record b { topic = b.topic ++ m ∷ [] }

abbrev pub on_dead_letters : Message → Broker → Broker
on_dead_letters m b = record b { dead_letters = b.dead_letters ++ m ∷ [] }

abbrev pub write_topic : Message → Exec Broker (Unit {0})
write_topic m b =
    settled on_topic (next_verdict b.answers) m
      (record b { answers = later_verdicts b.answers; tried = suc b.tried })

abbrev pub write_dead_letters : Message → Exec Broker (Unit {0})
write_dead_letters m b =
    settled on_dead_letters (next_verdict b.answers) m
      (record b { answers = later_verdicts b.answers; tried_dead = suc b.tried_dead })

abbrev pub writer : (Message → Exec Broker (Unit {0})) → Writer Broker
writer f = record { write_messages = f; inject = λ b. b.trace; close_writer = pure tt }

abbrev pub wait : ℕ → Exec Broker (Option GoError)
wait d b = (ok none, record b { waits = b.waits ++ d ∷ [] })

abbrev pub publisher : ReliablePublisher Broker
publisher = new_reliable_publisher (writer write_topic) (writer write_dead_letters) wait

abbrev pub copies : ℕ → Message → List Message
copies zero m = []
copies (suc k) m = m ∷ copies k m

-- The message is on the topic so many times more.
abbrev pub Grown : ℕ → Message → Broker → Broker → Type 0
Grown k m b b' = b'.topic ≡ b.topic ++ copies k m

-- After so many rounds at most: on success either the topic has the message, the dead letters were
-- not written to and no more than the rounds were tried; or every round was tried and the dead
-- letters have the message once. On failure everything was tried, and it may have been stored.
abbrev pub Placed : ℕ → Message → Broker → Result (Unit {0}) → Broker → Type 0
Placed rounds m b (ok u) b' =
    ((k : ℕ) × (1 ≤ k)
      × (k + b.tried ≤ b'.tried)
      × (b'.tried ≤ rounds + b.tried)
      × Grown k m b b'
      × (b'.dead_letters ≡ b.dead_letters)
      × (b'.tried_dead ≡ b.tried_dead))
    ⊎ ((k : ℕ) × (k ≤ rounds)
        × (b'.tried ≡ rounds + b.tried)
        × Grown k m b b'
        × (b'.dead_letters ≡ b.dead_letters ++ m ∷ [])
        × (b'.tried_dead ≡ suc b.tried_dead))
Placed rounds m b (err e) b' =
    (k : ℕ) × (l : ℕ) × (k ≤ rounds)
    × (l ≤ 1)
    × (b'.tried ≡ rounds + b.tried)
    × Grown k m b b'
    × (b'.dead_letters ≡ b.dead_letters ++ copies l m)
    × (b'.tried_dead ≡ suc b.tried_dead)

module _ (key : String) (value : Payload) where
  abbrev pub sent : Broker → Message
  sent b = record { key = key; value = value; headers = b.trace }

  -- The broker after a round that has failed, and the wait.
  abbrev failed : Broker → ℕ → Broker
  failed b backoff = record b {
    answers = later_verdicts b.answers;
    tried = suc b.tried;
    waits = b.waits ++ backoff ∷ [];
  }

-- When the first three writes fail and no context is cancelled, Publish has waited 100, 200 and 400
-- milliseconds, whatever becomes of the dead letter.
pub publish_backs_off :
    (key : String) (value : Payload) (e1 e2 e3 : GoError) (rest : List Verdict) (b : Broker)
    → b.answers ≡ refused e1 ∷ refused e2 ∷ refused e3 ∷ rest
    → (publish publisher key value b).1.waits
      ≡ ((b.waits ++ 100_000_000 ∷ []) ++ 200_000_000 ∷ []) ++ 400_000_000 ∷ []
unfolding publish publish_rounds write
publish_backs_off key value e1 e2 e3 rest b h = elim (Verdict-cases (next_verdict rest)) [
  | inl took ↦ rw (h, took) refl
  | inr (inl (e, no_write)) ↦ rw (h, no_write) refl
  | inr (inr (e, no_answer)) ↦ rw (h, no_answer) refl
]
