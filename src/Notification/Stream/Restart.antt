-- ===== src/Notification/Stream/Restart.antt =====
-- What a consumer that is started again gets: the messages of a partition from its position on.
use go_payment.Prelude.{
  ℕ, suc, ◌+◌, ◌<◌, ◌≤◌, ◌≡◌, refl, Bool, true, false, List, [], ◌∷◌, arith, ◌||◌, ltb, Bool-cases,
  inl, inr, if◌then◌else◌,
}
use go_payment.Exec.{ok}
use go_payment.Database.{quiet}
use go_payment.Uuid.{Uuid}
use go_payment.Prelude.{String}
use go_payment.Notification.Postgres.{NotificationDb}
use go_payment.Notification.Consumer.{Fetched, stop, run}
use go_payment.Notification.Commits.Loop.{store, reader, position}
use go_payment.Notification.Stream.{IsReady, is_json, seen, after_message, stored, acknowledged}
use go_payment.Notification.Stream.Runs.{length, run_stores}

-- The log of one partition: its offsets grow, from this one on.
abbrev pub IsLog : ℕ → ℕ → List Fetched → Type 0
IsLog p o [] = Unit
IsLog p o (m ∷ ms) = (m.partition ≡ p) × (o ≤ m.offset) × IsLog p (suc m.offset) ms

-- The messages from a position on.
unfoldable pub fetched_from : ℕ → List Fetched → List Fetched
fetched_from w [] = []
fetched_from w (m ∷ ms) = let rest = fetched_from w ms in if ltb m.offset w then rest else m ∷ rest

fetched_low : (p o w : ℕ) (ms : List Fetched) → IsLog p o ms → w ≤ o → fetched_from w ms ≡ ms
unfolding fetched_from
fetched_low p o w [] log low = refl
fetched_low p o w (m ∷ ms) log low =
    let same = fetched_low p (suc m.offset) w ms log.2 (omega (arith, log.1, low)) in
    ground (arith, same, log.1, low)

fetched_end : (w : ℕ) → fetched_from w [] ≡ []
unfolding fetched_from
fetched_end w = refl

fetched_past :
    (w : ℕ) (m : Fetched) (ms : List Fetched)
    → m.offset < w
    → fetched_from w (m ∷ ms) ≡ fetched_from w ms
unfolding fetched_from
fetched_past w m ms past = ground (arith, past)

module _ (show : ℕ → String) (ids : ℕ → Uuid) where
  -- A message whose event is processed, or whose value is JSON.
  abbrev pub succeeds : Fetched → NotificationDb → Bool
  succeeds m d = seen show ids m d || is_json m.value

  unfoldable pub any_succeeds : ℕ → List Fetched → NotificationDb → Bool
  any_succeeds n [] d = false
  any_succeeds n (m ∷ ms) d = succeeds m d || any_succeeds (n + 1) ms (after_message show ids n m d)

  -- The messages behind the last one that succeeds.
  unfoldable pub unsettled : ℕ → List Fetched → NotificationDb → List Fetched
  unfolding any_succeeds
  unsettled n [] d = []
  unsettled n (m ∷ ms) d =
      let rest = unsettled (n + 1) ms (after_message show ids n m d) in
      if any_succeeds (n + 1) ms (after_message show ids n m d)
      then rest
      else if succeeds m d
      then ms
      else m ∷ ms

  none_committed :
      (n : ℕ) (ms : List Fetched) (d : NotificationDb)
      → any_succeeds n ms d ≡ false
      → acknowledged show ids n ms d ≡ []
  unfolding any_succeeds acknowledged
  none_committed n [] d none_does = refl
  none_committed n (m ∷ ms) d none_does =
      let rest =
        none_committed (n + 1) ms (after_message show ids n m d) (ground (arith, none_does)) in
      ground (arith, none_does, rest)

  position_high :
      (n p o : ℕ) (ms : List Fetched) (d : NotificationDb)
      → IsLog p o ms
      → any_succeeds n ms d ≡ true
      → o < position p (acknowledged show ids n ms d)
  unfolding any_succeeds acknowledged position
  position_high n p o [] d log some_does = absurd (ground (arith, some_does))
  position_high n p o (m ∷ ms) d log some_does =
      elim (Bool-cases (any_succeeds (n + 1) ms (after_message show ids n m d))) [
        | inl later ↦
            let rest =
              position_high (n + 1) p (suc m.offset) ms (after_message show ids n m d) log.2
                later in
            elim (Bool-cases (succeeds m d)) [
              | inl done ↦ rw done (ground (arith, rest, log.0, log.1))
              | inr failed ↦ rw failed (omega (arith, rest, log.1))
            ]
        | inr none_later ↦
            let none = none_committed (n + 1) ms (after_message show ids n m d) none_later in
            let done : succeeds m d ≡ true = ground (arith, some_does, none_later) in
            rw (done, none) (ground (arith, log.0, log.1))
      ]

  moved_on :
      (n p o : ℕ) (m : Fetched) (ms : List Fetched) (d : NotificationDb)
      → IsLog p o (m ∷ ms)
      → any_succeeds (n + 1) ms (after_message show ids n m d) ≡ true
      → position p (acknowledged show ids n (m ∷ ms) d)
        ≡ position p (acknowledged show ids (n + 1) ms (after_message show ids n m d))
  unfolding acknowledged position
  moved_on n p o m ms d log later =
      let high =
        position_high (n + 1) p (suc m.offset) ms (after_message show ids n m d) log.2 later in
      elim (Bool-cases (succeeds m d)) [
        | inl done ↦ rw done (ground (arith, high, log.0))
        | inr failed ↦ rw failed refl
      ]

  halted :
      (n p o : ℕ) (m : Fetched) (ms : List Fetched) (d : NotificationDb)
      → IsLog p o (m ∷ ms)
      → any_succeeds (n + 1) ms (after_message show ids n m d) ≡ false
      → position p (acknowledged show ids n (m ∷ ms) d) ≡ (if succeeds m d then suc m.offset else 0)
  unfolding acknowledged position
  halted n p o m ms d log none_later =
      let nothing = none_committed (n + 1) ms (after_message show ids n m d) none_later in
      elim (Bool-cases (succeeds m d)) [
        | inl done ↦ rw (done, nothing) (ground (arith, log.0))
        | inr failed ↦ rw (failed, nothing) refl
      ]

  resumes :
      (n p o : ℕ) (ms : List Fetched) (d : NotificationDb)
      → IsLog p o ms
      → fetched_from (position p (acknowledged show ids n ms d)) ms ≡ unsettled n ms d
  unfolding unsettled
  resumes n p o [] d log = fetched_end (position p (acknowledged show ids n [] d))
  resumes n p o (m ∷ ms) d log =
      let d' = after_message show ids n m d in
      elim (Bool-cases (any_succeeds (n + 1) ms d')) [
        | inl later ↦
            let high = position_high (n + 1) p (suc m.offset) ms d' log.2 later in
            rw
              (
                moved_on n p o m ms d log later,
                fetched_past (position p (acknowledged show ids (n + 1) ms d')) m ms
                    (omega (arith, high)),
                resumes (n + 1) p (suc m.offset) ms d' log.2,
                later,
              )
              refl
        | inr none_later ↦ elim (Bool-cases (succeeds m d)) [
          | inl done ↦
              rw
                (
                  halted n p o m ms d log none_later,
                  none_later,
                  done,
                  fetched_past (suc m.offset) m ms (omega arith),
                  fetched_low p (suc m.offset) (suc m.offset) ms log.2 (omega arith),
                )
                refl
          | inr failed ↦
              rw
                (
                  halted n p o m ms d log none_later,
                  none_later,
                  failed,
                  fetched_low p o 0 (m ∷ ms) log (omega arith),
                )
                refl
        ]
      ]

  -- With every database call and every commit served and no other session, over the messages of
  -- one partition in the order of their offsets, when the ids to be drawn are new and different
  -- and every notification belongs to a processed event: with more rounds than messages the loop
  -- of the consumer ends with the tables of the reference, in which the first message of an event
  -- marks it as processed and, when its value is JSON, adds its notification; and the messages
  -- from its position on, which a restart gets, are those behind the last one whose event was
  -- processed before or whose value is JSON. A message that failed before that one is not among
  -- them.
  pub run_resumes :
      (fuel n p o : ℕ) (ms : List Fetched) (d : NotificationDb)
      → length ms < fuel
      → IsReady ids n d
      → IsLog p o ms
      → let (r, s') =
          run show store reader fuel n ids
            (record { db = quiet d; waiting = ms; commits = []; committed = [] }) in
        (r ≡ ok stop)
        × (s'.db ≡ quiet (stored show ids n ms d))
        × (fetched_from (position p s'.committed) ms ≡ unsettled n ms d)
  run_resumes fuel n p o ms d enough r log =
      rw (run_stores show ids fuel n ms [] d enough r) (refl, refl, resumes n p o ms d log)
