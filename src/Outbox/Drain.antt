-- ===== src/Outbox/Drain.antt =====
-- The worker drains the outbox: what its rounds leave unpublished.
use go_payment.Prelude.{ℕ, zero, suc, ◌+◌, ◌*◌, ◌≤◌, ◌≡◌, refl, sym, subst, List, [], ◌∷◌, arith}
use go_payment.Exec.{ok}
use go_payment.Database.{quiet}
use go_payment.Outbox.{Event, Payload, Publisher, batch, tick, run}
use go_payment.Outbox.Delivery.{Pair, store, publisher, deliver, mark_all, marked, tick_delivers}
use go_payment.Outbox.Rows.{
  length, Distinct, AllPending, length-set_published, set_published-Distinct,
  AllPending-set_published, fetched-AllPending, take-Distinct, sort_by_time-Distinct,
  unpublished-Distinct, length-take, length-sort_by_time,
}
use go_payment.Uuid.{Time}
use go_payment.Transfer.Tables.{TransferDb, sort_by_time, unpublished, take, set_published}

mark_all_lem :
    (now : ℕ → Time) (n : ℕ) (xs es : List Event)
    → Distinct xs
    → Distinct es
    → AllPending xs es
    → (length (unpublished (mark_all now n xs es)) + length xs ≡ length (unpublished es))
      × Distinct (mark_all now n xs es)
unfolding mark_all
mark_all_lem now n [] es dx d p = (omega arith, d)
mark_all_lem now n (x ∷ xs) es dx d p =
    let rest =
      mark_all_lem now (suc n) xs (set_published x.id (now n) es) dx.1
        (set_published-Distinct x.id (now n) es d)
        (AllPending-set_published x.id (now n) xs es dx.0 p.1) in
    (omega (arith, rest.0, length-set_published x.id (now n) es d p.0), rest.1)

empty_of_length : (es : List Event) → length es ≤ 0 → es ≡ []
empty_of_length [] h = refl
empty_of_length (e ∷ es) h = absurd (omega (arith, h))

-- A broker that takes every message.
abbrev pub TakesAll : {B : Type 0} → Publisher B → Type 0
TakesAll {B} p = (key : _) (value : Payload) (b : B) → (p.publish key value b).0 ≡ ok tt

module _ {B : Type 0} (p : Publisher B) (takes : TakesAll p) where
  deliver_all : (es : List Event) (b : B) → (deliver p es b).delivered ≡ es
  unfolding deliver
  deliver_all [] b = refl
  deliver_all (e ∷ es) b =
      rw (takes e.aggregate_id e.payload b, deliver_all es (p.publish e.aggregate_id e.payload b).1)
        refl

  ticked :
      (now : ℕ → Time) (d : TransferDb) (b : B)
      → let es = take batch (sort_by_time (unpublished d.outbox_events)) in
        (tick store (publisher p) now (record { db = quiet d; broker = b })).1
        ≡ record { db = quiet (marked now 0 es d); broker = (deliver p es b).broker }
  ticked now d b =
      rw
        (
          tick_delivers p now d b,
          deliver_all (take batch (sort_by_time (unpublished d.outbox_events))) b,
        )
        refl

  -- On PostgreSQL with every call served and no other session, with different event ids and a
  -- broker that takes every message: after as many rounds of Run as there are batches among the
  -- unpublished events, no event is unpublished, however many there were and whatever the clock
  -- says.
  pub run_drains :
      (rounds : ℕ) (clock : ℕ → ℕ → Time) (d : TransferDb) (b : B)
      → Distinct d.outbox_events
      → length (unpublished d.outbox_events) ≤ batch * rounds
      → unpublished
          (run store
            (publisher p)
            rounds
            clock
            (record { db = quiet d; broker = b })).db.tables.outbox_events
        ≡ []
  unfolding run
  run_drains zero clock d b distinct enough =
      empty_of_length (unpublished d.outbox_events) (omega (arith, enough))
  run_drains (suc rounds) clock d b distinct enough =
      let es = take batch (sort_by_time (unpublished d.outbox_events)) in
      let marks =
        mark_all_lem (clock 0) 0 es d.outbox_events
          (take-Distinct batch (sort_by_time (unpublished d.outbox_events)) (
            sort_by_time-Distinct (unpublished d.outbox_events)
              (unpublished-Distinct d.outbox_events distinct)))
          distinct (fetched-AllPending batch d.outbox_events) in
      subst
        (λ (s : Pair B).
          unpublished
            (run store (publisher p) rounds (λ k. clock (suc k)) s).db.tables.outbox_events
          ≡ [])
        (sym (ticked (clock 0) d b))
        (run_drains rounds (λ k. clock (suc k)) (marked (clock 0) 0 es d) (deliver p es b).broker
          marks.1
          (ground (
            arith,
            marks.0,
            enough,
            length-take batch (sort_by_time (unpublished d.outbox_events)),
            length-sort_by_time (unpublished d.outbox_events),
          )))
