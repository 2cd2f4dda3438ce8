-- ===== src/Outbox/Delivery.antt =====
-- A batch of the worker against a reference: the events are handed to the publisher in order until
-- one is refused, and exactly those handed over are marked. The store is PostgreSQL, with every call
-- served and no other session; the publisher is any.
use go_payment.Prelude.{ℕ, suc, ◌≡◌, refl, List, [], ◌∷◌, inl, inr}
use go_payment.Exec.{Result, ok, err, Exec, Result-cases}
use go_payment.Database.{Session, quiet, query, exec}
use go_payment.Outbox.{Event, Store, Publisher, batch, publish_all, tick}
use go_payment.Uuid.{Time}
use go_payment.Transfer.Tables.{TransferDb, sort_by_time, unpublished, take, set_published}
use go_payment.Transfer.Postgres.{fetch_unpublished, mark_published}
use go_payment.Transfer.Postgres

-- The worker's store and publisher side by side.
pub record Pair (B : Type 0) : Type 0 where
  pub db : Session TransferDb
  pub broker : B

module _ {B : Type 0} where
  abbrev pub on_db : {A : Type 0} → Exec (Session TransferDb) A → Exec (Pair B) A
  on_db m s = let (r, db) = m s.db in (r, record s { db = db })

  abbrev pub on_broker : {A : Type 0} → Exec B A → Exec (Pair B) A
  on_broker m s = let (r, b) = m s.broker in (r, record s { broker = b })

  abbrev pub store : Store (Pair B)
  store = record {
    insert = λ e. on_db (Postgres.insert e);
    fetch_unpublished = λ n. on_db (fetch_unpublished n);
    mark_published = λ id at. on_db (mark_published id at);
  }

  abbrev pub publisher : Publisher B → Publisher (Pair B)
  publisher p = record { publish = λ key value. on_broker (p.publish key value) }

-- The reference: the events that were handed over, the result and what became of the broker.
pub record Delivery (B : Type 0) : Type 0 where
  pub delivered : List Event
  pub result : Result (Unit {0})
  pub broker : B

module _ {B : Type 0} (p : Publisher B) where
  abbrev pub prepend : Event → Delivery B → Delivery B
  prepend e x = record x { delivered = e ∷ x.delivered }

  abbrev pub deliver_rest : Event → B → Result (Unit {0}) → Delivery B → Delivery B
  deliver_rest e b (ok _) rest = prepend e rest
  deliver_rest e b (err x) rest = record { delivered = []; result = err x; broker = b }

  unfoldable pub deliver : List Event → B → Delivery B
  deliver [] b = record { delivered = []; result = ok tt; broker = b }
  deliver (e ∷ es) b =
      let (r, b') = p.publish e.aggregate_id e.payload b in deliver_rest e b' r (deliver es b')

-- The events with the marks that the worker sets, the n-th at the n-th time.
unfoldable pub mark_all : (ℕ → Time) → ℕ → List Event → List Event → List Event
mark_all now n [] es = es
mark_all now n (x ∷ xs) es = mark_all now (suc n) xs (set_published x.id (now n) es)

abbrev pub marked : (ℕ → Time) → ℕ → List Event → TransferDb → TransferDb
marked now n xs d = record d { outbox_events = mark_all now n xs d.outbox_events }

module _ {B : Type 0} (p : Publisher B) (now : ℕ → Time) where
  publish_all_lem :
      (n : ℕ) (es : List Event) (d : TransferDb) (b : B)
      → publish_all store (publisher p) now n es (record { db = quiet d; broker = b }) ≡ (
        (deliver p es b).result,
        record {
          db = quiet (marked now n (deliver p es b).delivered d);
          broker = (deliver p es b).broker;
        },
      )
  unfolding publish_all deliver mark_all mark_published exec
  publish_all_lem n [] d b = refl
  publish_all_lem n (e ∷ es) d b = elim (Result-cases (p.publish e.aggregate_id e.payload b).0) [
    | inl (u, accepted) ↦ rw (
      accepted,
      publish_all_lem (suc n) es
          (record d { outbox_events = set_published e.id (now n) d.outbox_events })
          (p.publish e.aggregate_id e.payload b).1,
    )
    | inr (x, refused) ↦ rw refused
  ]

  -- On PostgreSQL with every call served and no other session, Tick hands the oldest unpublished
  -- events to the publisher in order, up to the batch size, until it refuses one; it marks
  -- exactly those that were taken, and returns the refusal.
  pub tick_delivers :
      (d : TransferDb) (b : B)
      → let es = take batch (sort_by_time (unpublished d.outbox_events)) in
        tick store (publisher p) now (record { db = quiet d; broker = b }) ≡ (
          (deliver p es b).result,
          record {
            db = quiet (marked now 0 (deliver p es b).delivered d);
            broker = (deliver p es b).broker;
          },
        )
  unfolding tick fetch_unpublished query
  tick_delivers d b =
      publish_all_lem 0 (take batch (sort_by_time (unpublished d.outbox_events))) d b
