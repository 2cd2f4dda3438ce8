-- ===== src/Notification/Stream/Runs.antt =====
-- The loop of the consumer over a list of messages is the reference.
use go_payment.Prelude.{
  ℕ, zero, suc, ◌+◌, ◌<◌, ◌≡◌, refl, String, Bool, true, false, List, [], ◌∷◌, ◌++◌, arith, ◌||◌,
  Bool-cases, inl, inr, if◌then◌else◌,
}
use mathlib.Core.List.{append-nil, append_assoc}
use go_payment.Errors.{plain}
use go_payment.Exec.{Result, ok, err}
use go_payment.Database.{quiet, exec}
use go_payment.Outbox.{Payload, json, malformed}
use go_payment.Uuid.{Uuid}
use go_payment.Notification.Service.{notification, handle}
use go_payment.Notification.Postgres.{
  NotificationDb, pg_store, is_processed, insert_processed, try_claim_event,
}
use go_payment.Notification.Consumer.{Fetched, stop, next, round, run}
use go_payment.Notification.Once.{processed_again, handle_once}
use go_payment.Notification.Commits.Loop.{store, reader, handle-on_db}
use go_payment.Notification.Stream.{
  IsReady, is_json, collides-has, noted, noted-IsReady, skipped-IsReady, event_of, seen,
  after_message, stored, acknowledged,
}

abbrev outcome : Payload → Result (Unit {0})
outcome (json t) = ok tt
outcome (malformed m) = err (plain m)

abbrev pub length : List Fetched → ℕ
length [] = 0
length (m ∷ ms) = suc (length ms)

commits_step :
    (b : Bool) (m : Fetched) (c rest : List Fetched)
    → (if b then c ++ m ∷ [] else c) ++ rest ≡ c ++ (if b then m ∷ rest else rest)
commits_step true m c rest = append_assoc c (m ∷ []) rest
commits_step false m c rest = refl

module _ (show : ℕ → String) (ids : ℕ → Uuid) where
  after-IsReady :
      (n : ℕ) (m : Fetched) (d : NotificationDb)
      → IsReady ids n d
      → IsReady ids (n + 1) (after_message show ids n m d)
  after-IsReady n m d r = elim (Bool-cases (seen show ids m d)) [
    | inl known ↦ rw known (skipped-IsReady ids n d r)
    | inr new ↦ rw new (noted-IsReady ids n (event_of show ids m) m.value d r)
  ]

  handled_new :
      (n : ℕ) (ev : String) (p : Payload) (d : NotificationDb)
      → IsReady ids n d
      → is_processed ev d.processed_events ≡ false
      → handle pg_store (ids n) ev p (quiet d) ≡ (outcome p, quiet (noted (ids n) ev p d))
  unfolding handle try_claim_event exec insert_processed
  handled_new n ev (malformed m) d r new = rw new refl
  handled_new n ev (json t) d r new =
      (handle_once (ids n) (ids n) ev t (json t) d new (
        collides-has (notification (ids n) ev (json t) t) d.notifications (r.unused n (omega arith))
          (r.backed ev new))).0

  store_new :
      (n : ℕ) (ev : String) (p : Payload) (ms c : List Fetched) (d : NotificationDb)
      → IsReady ids n d
      → is_processed ev d.processed_events ≡ false
      → handle store
          (ids n)
          ev
          p
          (record { db = quiet d; waiting = ms; commits = []; committed = c })
        ≡ (
          outcome p,
          record { db = quiet (noted (ids n) ev p d); waiting = ms; commits = []; committed = c },
        )
  store_new n ev p ms c d r new =
      rw
        (
          handle-on_db (ids n) ev p
              (record { db = quiet d; waiting = ms; commits = []; committed = c }),
          handled_new n ev p d r new,
        )
        refl

  round_lem :
      (n : ℕ) (m : Fetched) (ms c : List Fetched) (d : NotificationDb)
      → IsReady ids n d
      → round show store reader
          (ids n)
          (record { db = quiet d; waiting = m ∷ ms; commits = []; committed = c })
        ≡ (
          ok next,
          record {
            db = quiet (after_message show ids n m d);
            waiting = ms;
            commits = [];
            committed = if seen show ids m d || is_json m.value then c ++ m ∷ [] else c;
          },
        )
  unfolding round
  round_lem n m ms c d r = elim (Bool-cases (seen show ids m d)) [
    | inl known ↦
        rw
          (
            handle-on_db (ids n) (event_of show ids m) m.value
                (record { db = quiet d; waiting = ms; commits = []; committed = c }),
            processed_again (ids n) (event_of show ids m) m.value d known,
            known,
          )
          refl
    | inr new ↦ go m.value refl new
  ]
    where
      go :
          (p : Payload)
          → m.value ≡ p
          → seen show ids m d ≡ false
          → round show store reader
              (ids n)
              (record { db = quiet d; waiting = m ∷ ms; commits = []; committed = c })
            ≡ (
              ok next,
              record {
                db = quiet (after_message show ids n m d);
                waiting = ms;
                commits = [];
                committed = if seen show ids m d || is_json m.value then c ++ m ∷ [] else c;
              },
            )
      go (json t) e new = rw (store_new n (event_of show ids m) m.value ms c d r new, new, e) refl
      go (malformed x) e new =
          rw (store_new n (event_of show ids m) m.value ms c d r new, new, e) refl

  -- The loop ends with the tables of the reference, and the messages of the reference committed.
  pub run_stores :
      (fuel n : ℕ) (ms c : List Fetched) (d : NotificationDb)
      → length ms < fuel
      → IsReady ids n d
      → run show store reader fuel n ids
          (record { db = quiet d; waiting = ms; commits = []; committed = c })
        ≡ (
          ok stop,
          record {
            db = quiet (stored show ids n ms d);
            waiting = [];
            commits = [];
            committed = c ++ acknowledged show ids n ms d;
          },
        )
  unfolding run stored acknowledged round
  run_stores zero n ms c d enough r = absurd (omega (arith, enough))
  run_stores (suc fuel) n [] c d enough r = rw (append-nil c) refl
  run_stores (suc fuel) n (m ∷ ms) c d enough r =
      rw
        (
          round_lem n m ms c d r,
          run_stores fuel (n + 1) ms
              (if seen show ids m d || is_json m.value then c ++ m ∷ [] else c)
              (after_message show ids n m d) (omega (arith, enough)) (after-IsReady n m d r),
          commits_step (seen show ids m d || is_json m.value) m c
              (acknowledged show ids (n + 1) ms (after_message show ids n m d)),
        )
        refl
