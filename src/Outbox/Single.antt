-- ===== src/Outbox/Single.antt =====
-- A batch in which one event is pending: the worker on a table whose other rows are published.
use go_payment.Prelude.{ℕ, ◌≡◌, refl, false, none, some, List, [], ◌∷◌, ◌++◌, arith, if◌then◌else◌}
use go_payment.Exec.{ok}
use go_payment.Database.{quiet}
use go_payment.Outbox.{Event, Publisher, tick}
use go_payment.Outbox.Delivery.{store, publisher, deliver, mark_all, tick_delivers}
use go_payment.Uuid.{Time}
use go_payment.Transfer.Tables.{
  TransferDb, is_some, has_event, insert_by_time, sort_by_time, unpublished, take, set_published,
}

unpublished-append :
    (es : List Event) (e : Event)
    → unpublished (es ++ e ∷ []) ≡ unpublished es ++ (if is_some e.published_at then [] else e ∷ [])
unfolding unpublished
unpublished-append [] e = ground arith
unpublished-append (x ∷ es) e = ground (arith, unpublished-append es e)

set_published-append :
    (at : Time) (es : List Event) (e : Event)
    → has_event e.id es ≡ false
    → set_published e.id at (es ++ e ∷ []) ≡ es ++ record e { published_at = some at } ∷ []
unfolding has_event set_published
set_published-append at [] e h = ground arith
set_published-append at (x ∷ es) e h = ground (arith, set_published-append at es e, h)

-- A new event after published ones.
abbrev pub pending_last : Event → TransferDb → TransferDb
pending_last e d = record d {
  outbox_events = d.outbox_events ++ record e { published_at = none } ∷ [];
}

abbrev pub published_last : Event → Time → TransferDb → TransferDb
published_last e at d = record d {
  outbox_events = d.outbox_events ++ record e { published_at = some at } ∷ [];
}

pub none_pending :
    (e : Event) (at : Time) (d : TransferDb)
    → unpublished d.outbox_events ≡ []
    → unpublished (published_last e at d).outbox_events ≡ []
none_pending e at d old =
    rw (unpublished-append d.outbox_events (record e { published_at = some at }), old) refl

pub tick_single :
    {B : Type 0} (p : Publisher B) (now : ℕ → Time) (e : Event) (d : TransferDb) (b b' : B)
    → unpublished d.outbox_events ≡ []
    → has_event e.id d.outbox_events ≡ false
    → p.publish e.aggregate_id e.payload b ≡ (ok tt, b')
    → tick store (publisher p) now (record { db = quiet (pending_last e d); broker = b })
      ≡ (ok tt, record { db = quiet (published_last e (now 0) d); broker = b' })
unfolding deliver mark_all sort_by_time insert_by_time take
tick_single p now e d b b' old new accepted =
    rw
      (
        tick_delivers p now (pending_last e d) b,
        unpublished-append d.outbox_events (record e { published_at = none }),
        old,
        accepted,
        set_published-append (now 0) d.outbox_events (record e { published_at = none }) new,
      )
      refl
