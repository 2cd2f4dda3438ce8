-- ===== src/Notification/Consumer.antt =====
-- internal/notification/adapters/kafka/consumer.go. The reader of the topic is a parameter.
use Prim.Native.String.{◌++◌}
use go_payment.Prelude.{ℕ, zero, suc, ◌+◌, String, Bool, str_eq, if◌then◌else◌}
use go_payment.Errors.{wrapped}
use go_payment.Exec.{Result, ok, err, Exec, pure, fail, attempt, ◌>>=◌}
use go_payment.Outbox.{Payload}
use go_payment.Uuid.{Uuid}
use go_payment.Notification.Service.{Store, handle}

-- kafka.Message as it is fetched; the partition and the offset are printed in decimal by `show`
pub record Fetched : Type 0 where
  pub topic : String
  pub partition : ℕ
  pub offset : ℕ
  pub key : String
  pub value : Payload

pub record Reader (S : Type 0) : Type 0 where
  pub fetch : Exec S Fetched
  pub commit : Fetched → Exec S (Unit {0})
  -- ctx.Err() != nil
  pub stopped : S → Bool

-- What one round of the loop ends in.
pub data Round : Type 0 where
  stop next : Round

module _ {S : Type 0} (show : ℕ → String) (store : Store S) (reader : Reader S) where
  abbrev pub event_id : Fetched → String
  event_id m =
      if str_eq m.key "" then m.topic ++ "-" ++ show m.partition ++ "-" ++ show m.offset else m.key

  abbrev pub committed : Result (Unit {0}) → Exec S Round
  committed (ok _) = pure next
  committed (err e) = fail (wrapped "commit: " e "")

  -- A message that cannot be handled is logged and left uncommitted.
  abbrev pub handled : Fetched → Result (Unit {0}) → Exec S Round
  handled m (err e) = pure next
  handled m (ok _) = do r ← attempt (reader.commit m); committed r

  abbrev pub fetched : Uuid → Result Fetched → Exec S Round
  fetched id (ok m) s = (do r ← attempt (handle store id (event_id m) m.value); handled m r) s
  fetched id (err e) s =
      if reader.stopped s then (ok stop, s) else (err (wrapped "fetch: " e ""), s)

  -- One round; `id` is the result of uuid.New in it.
  unfoldable pub round : Uuid → Exec S Round
  round id = do r ← attempt reader.fetch; fetched id r

  abbrev pub unless_stopped : Exec S Round → Round → Exec S Round
  unless_stopped again stop = pure stop
  unless_stopped again next = again

  -- Run, for at most so many rounds; `next` is the answer when they are used up.
  unfoldable pub run : ℕ → ℕ → (ℕ → Uuid) → Exec S Round
  unfolding round
  run zero n ids = pure next
  run (suc rounds) n ids = do r ← round (ids n); unless_stopped (run rounds (n + 1) ids) r
