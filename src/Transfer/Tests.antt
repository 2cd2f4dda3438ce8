-- ===== src/Transfer/Tests.antt =====
-- Requests, the outbox and its worker on small tables.
use go_payment.Prelude.{arith, true, ◌≡◌, ◌⊎◌, refl, ℕ, suc, ◌+◌, false, none, [], ◌∷◌, pos}
use go_payment.Errors.{GoError, plain}
use go_payment.Exec.{ok, err}
use go_payment.Database.{Session, quiet, after_others}
use go_payment.Samples.{unary_uuid, unary}
use go_payment.Outbox.{Event, Publisher, malformed, batch, tick, run}
use go_payment.Outbox.Drain.{run_drains, TakesAll}
use go_payment.Outbox.Delivery.{tick_delivers, store, publisher, deliver, marked}
use go_payment.Transfer.Domain.{Transfer, pending}
use go_payment.Transfer.Service.{
  CreateRequest, Draw, debit_key, credit_key, create, finished, event_of,
}
use go_payment.Transfer.Service.Retry.{
  moved, retry_moves_twice, recorded_repo, recording, empty_cache, answering, failing, debited,
  credited,
}
use go_payment.Transfer.Tables.{
  TransferDb, take, sort_by_time, unpublished, find_by_key, find_transfer, has_event,
}
use go_payment.Transfer.Postgres.{insert_completed_with_outbox}
use go_payment.Transfer.Postgres.Atomic.{insert_completed_atomic, IsNew, with_transfer}
use go_payment.Transfer.Service.Replay.{create_once}
use go_payment.Transfer.Service.Begun.{done, IsValid}
use go_payment.Transfer.Service.Outcomes.{Scripted, Outcome, scripted, scripted_repo, no_cache}
use go_payment.Transfer.Service.Outcomes.Create.{create-Outcome}
use go_payment.Transfer.Service.Race.{overtaken, race_moves_twice}
use go_payment.Errors.{Sentinel, sentinel}

abbrev request : CreateRequest
request = record {
  from_id = unary 7;
  to_id = unary 8;
  amount = pos 300;
  currency = "";
  key = "k";
  user_id = unary 1;
}

abbrev transfer : Transfer
transfer = record {
  id = 5;
  from_wallet_id = 7;
  to_wallet_id = 8;
  amount_minor = pos 300;
  currency = "RUB";
  status = pending;
  user_id = 1;
  idempotency_key = "k";
  created_at = 3;
  updated_at = 3;
}

abbrev no_rows : TransferDb
no_rows = record { transfers = []; outbox_events = [] }

abbrev drawn : ℕ → Draw
drawn n = record { transfer_id = n; event_id = suc n; created = n; updated = n; event_created = n }

request-IsValid : IsValid unary_uuid request 7 8 1
request-IsValid = record {
  reads_from = refl;
  reads_to = refl;
  reads_user = refl;
  two_wallets = refl;
  positive = refl;
  has_key = refl;
}

race_moves_twice_example :
    let call = create unary_uuid recorded_repo recording empty_cache (plain "uuid") in
    let tr = done unary_uuid (drawn 6) request 7 8 1 in
    let (r', s') = call (drawn 6) request (record { db = quiet no_rows; calls = [] }) in
    let (r, s) = call (drawn 5) request (record {
      db = record {
        tables = no_rows;
        turns = answering ∷ overtaken unary_uuid (plain "uuid") request (drawn 6) ∷ [];
      };
      calls = [];
    }) in
    (r' ≡ ok (record { transfer = tr; idempotent_replay = false }))
    × (s'.calls ≡ moved unary_uuid request (drawn 6))
    × (r ≡ err (sentinel Sentinel.already_exists))
    × (s.calls ≡ moved unary_uuid request (drawn 5))
    × (s.db.tables ≡ with_transfer tr (event_of unary_uuid (drawn 6) tr) no_rows)
unfolding find_by_key find_transfer has_event
race_moves_twice_example =
    race_moves_twice unary_uuid (plain "uuid") request 7 8 1 no_rows request-IsValid refl (drawn 5)
      (drawn 6) refl refl

retry_moves_twice_example :
    let call = create unary_uuid recorded_repo recording empty_cache (plain "uuid") in
    let (r1, s1) = call (drawn 5) request (record {
      db = record { tables = no_rows; turns = answering ∷ failing (plain "down") ∷ [] };
      calls = [];
    }) in
    let (r2, s2) = call (drawn 6) request s1 in
    (r1 ≡ err (plain "down"))
    × (s1.db.tables ≡ no_rows)
    × (r2
        ≡ ok (record {
          transfer =
              finished unary_uuid
                (drawn 6)
                (record transfer { id = 6; created_at = 6; updated_at = 6 });
          idempotent_replay = false;
        }))
    × (s2.calls
        ≡ debited (unary 7) (pos 300) (debit_key unary_uuid 5)
          ∷ credited (unary 8) (pos 300) (credit_key unary_uuid 5)
          ∷ debited (unary 7) (pos 300) (debit_key unary_uuid 6)
          ∷ credited (unary 8) (pos 300) (credit_key unary_uuid 6)
          ∷ [])
unfolding find_by_key find_transfer has_event
retry_moves_twice_example =
    retry_moves_twice unary_uuid (plain "uuid") request 7 8 1 no_rows request-IsValid refl (drawn 5)
      (drawn 6) (plain "down") refl refl

abbrev event : Event
event = record {
  id = 6;
  aggregate_type = "transfer";
  aggregate_id = unary 5;
  event_type = "transfer.completed";
  payload = malformed "";
  created_at = 4;
  published_at = none;
}

abbrev interrupted : Session TransferDb
interrupted = record { tables = no_rows; turns = answering ∷ failing (plain "down") ∷ [] }

insert_completed_atomic_example :
    let d = (after_others interrupted).tables in
    let end = insert_completed_with_outbox transfer event interrupted in
    ((e : GoError) × (end.0 ≡ err e) × (end.1.tables ≡ d))
    ⊎ (IsNew transfer event d × (end.1.tables ≡ with_transfer transfer event d))
insert_completed_atomic_example = insert_completed_atomic transfer event interrupted

abbrev counting_publisher : Publisher ℕ
counting_publisher = record { publish = λ key value n. (ok tt, suc n) }

abbrev one_event : TransferDb
one_event = record { transfers = []; outbox_events = event ∷ [] }

tick_delivers_example :
    let es = take batch (sort_by_time (unpublished one_event.outbox_events)) in
    tick store
      (publisher counting_publisher)
      (λ n. 100 + n)
      (record { db = quiet one_event; broker = 0 })
    ≡ (
      (deliver counting_publisher es 0).result,
      record {
        db = quiet (marked (λ n. 100 + n) 0 (deliver counting_publisher es 0).delivered one_event);
        broker = (deliver counting_publisher es 0).broker;
      },
    )
tick_delivers_example = tick_delivers counting_publisher (λ n. 100 + n) one_event 0

-- A repeated request asks for another amount, and other ids and times are drawn.
abbrev repeated_request : CreateRequest
repeated_request = record request { amount = pos 700 }

create_once_example :
    let call = create unary_uuid recorded_repo recording empty_cache (plain "uuid") in
    let (r1, s1) = call (drawn 5) request (record { db = quiet no_rows; calls = [] }) in
    let (r2, s2) = call (drawn 6) repeated_request s1 in
    (tr : Transfer) × (r1 ≡ ok (record { transfer = tr; idempotent_replay = false }))
    × (r2 ≡ ok (record { transfer = tr; idempotent_replay = true }))
    × (s2 ≡ s1)
    × (s2.calls ≡ moved unary_uuid request (drawn 5))
unfolding find_by_key find_transfer has_event
create_once_example =
    create_once unary_uuid (plain "uuid") request repeated_request 7 8 1 no_rows (drawn 5) (drawn 6)
      request-IsValid refl refl refl refl

counting_publisher-TakesAll : TakesAll counting_publisher
counting_publisher-TakesAll key value n = refl

run_drains_example :
    unpublished
      (run store
        (publisher counting_publisher)
        1
        (λ round n. 100 + n)
        (record { db = quiet one_event; broker = 0 })).db.tables.outbox_events
    ≡ []
unfolding unpublished has_event
run_drains_example =
    run_drains counting_publisher counting_publisher-TakesAll 1 (λ round n. 100 + n) one_event 0
      (refl, tt) (ground arith)

-- The wallet service takes the debit and refuses the credit.
abbrev refusing : Scripted
refusing = record { db = quiet no_rows; answers = ok tt ∷ err (plain "closed") ∷ []; calls = [] }

create-Outcome_example :
    (b : Session TransferDb) × ((b ≡ refusing.db) ⊎ (b ≡ after_others refusing.db))
    × Outcome unary_uuid (drawn 5) request b [] (
        create unary_uuid scripted_repo scripted no_cache (plain "uuid") (drawn 5) request refusing)
create-Outcome_example = create-Outcome unary_uuid (plain "uuid") (drawn 5) request refusing
