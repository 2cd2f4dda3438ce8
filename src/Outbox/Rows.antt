-- ===== src/Outbox/Rows.antt =====
-- The rows of outbox_events under the statements of the worker: which ids are there, and how many.
use go_payment.Prelude.{
  ℕ, zero, suc, ◌+◌, ◌≡◌, refl, true, false, List, [], ◌∷◌, arith, ◌==◌, ◌||◌, leb, inl, inr,
  Bool-cases, if◌then◌else◌,
}
use go_payment.Outbox.{Event}
use go_payment.Uuid.{Uuid, Time}
use go_payment.Transfer.Tables.{
  has_event, insert_by_time, sort_by_time, unpublished, take, set_published,
}

abbrev pub length : List Event → ℕ
length [] = 0
length (e ∷ es) = suc (length es)

-- PRIMARY KEY (id)
abbrev pub Distinct : List Event → Type 0
Distinct [] = Unit
Distinct (e ∷ es) = (has_event e.id es ≡ false) × Distinct es

-- The ids of these events are among the unpublished ones.
abbrev pub AllPending : List Event → List Event → Type 0
AllPending [] es = Unit
AllPending (x ∷ xs) es = (has_event x.id (unpublished es) ≡ true) × AllPending xs es

module _ (k : Uuid) where
  pub has_event-insert_by_time :
      (e : Event) (es : List Event)
      → has_event k (insert_by_time e es) ≡ ((e.id == k) || has_event k es)
  unfolding has_event insert_by_time
  has_event-insert_by_time e [] = refl
  has_event-insert_by_time e (x ∷ es) = ground (arith, has_event-insert_by_time e es)

  pub has_event-sort_by_time : (es : List Event) → has_event k (sort_by_time es) ≡ has_event k es
  unfolding has_event sort_by_time
  has_event-sort_by_time [] = refl
  has_event-sort_by_time (e ∷ es) =
      ground (arith, has_event-insert_by_time e (sort_by_time es), has_event-sort_by_time es)

  pub has_event-take :
      (n : ℕ) (es : List Event) → has_event k es ≡ false → has_event k (take n es) ≡ false
  unfolding has_event take
  has_event-take zero es h = refl
  has_event-take (suc n) [] h = refl
  has_event-take (suc n) (e ∷ es) h = ground (arith, has_event-take n es)

  pub has_event-unpublished :
      (es : List Event) → has_event k es ≡ false → has_event k (unpublished es) ≡ false
  unfolding has_event unpublished
  has_event-unpublished [] h = refl
  has_event-unpublished (e ∷ es) h = ground (arith, has_event-unpublished es)

  module _ (id : Uuid) (at : Time) where
    pub has_event-set_published :
        (es : List Event) → has_event k (set_published id at es) ≡ has_event k es
    unfolding has_event set_published
    has_event-set_published [] = refl
    has_event-set_published (e ∷ es) = ground (arith, has_event-set_published es)

    pub pending-set_published :
        (es : List Event)
        → has_event k (unpublished (set_published id at es))
          ≡ (if id == k then false else has_event k (unpublished es))
    unfolding has_event unpublished set_published
    pending-set_published [] = ground arith
    pending-set_published (e ∷ es) = ground (arith, pending-set_published es)

pub insert_by_time-Distinct :
    (e : Event) (es : List Event)
    → has_event e.id es ≡ false
    → Distinct es
    → Distinct (insert_by_time e es)
unfolding has_event insert_by_time
insert_by_time-Distinct e [] h d = (refl, tt)
insert_by_time-Distinct e (x ∷ es) h d =
    ground (arith, insert_by_time-Distinct e es, has_event-insert_by_time x.id e es)

pub sort_by_time-Distinct : (es : List Event) → Distinct es → Distinct (sort_by_time es)
unfolding sort_by_time
sort_by_time-Distinct [] d = tt
sort_by_time-Distinct (e ∷ es) d =
    insert_by_time-Distinct e (sort_by_time es) (rw has_event-sort_by_time d.0)
      (sort_by_time-Distinct es d.1)

pub take-Distinct : (n : ℕ) (es : List Event) → Distinct es → Distinct (take n es)
unfolding take
take-Distinct zero es d = tt
take-Distinct (suc n) [] d = tt
take-Distinct (suc n) (e ∷ es) d = (has_event-take e.id n es d.0, take-Distinct n es d.1)

pub unpublished-Distinct : (es : List Event) → Distinct es → Distinct (unpublished es)
unfolding unpublished
unpublished-Distinct [] d = tt
unpublished-Distinct (e ∷ es) d =
    ground (arith, unpublished-Distinct es, has_event-unpublished e.id es)

pub length-insert_by_time :
    (e : Event) (es : List Event) → length (insert_by_time e es) ≡ suc (length es)
unfolding insert_by_time
length-insert_by_time e [] = refl
length-insert_by_time e (x ∷ es) = ground (arith, length-insert_by_time e es)

pub length-sort_by_time : (es : List Event) → length (sort_by_time es) ≡ length es
unfolding sort_by_time
length-sort_by_time [] = refl
length-sort_by_time (e ∷ es) =
    ground (arith, length-insert_by_time e (sort_by_time es), length-sort_by_time es)

pub length-take :
    (n : ℕ) (es : List Event) → length (take n es) ≡ (if leb n (length es) then n else length es)
unfolding take
length-take zero es = ground arith
length-take (suc n) [] = ground arith
length-take (suc n) (e ∷ es) = ground (arith, length-take n es)

-- Marking one event that is pending takes one from the unpublished ones.
absent_unchanged :
    (id : Uuid) (at : Time) (es : List Event)
    → has_event id es ≡ false
    → set_published id at es ≡ es
unfolding has_event set_published
absent_unchanged id at [] h = refl
absent_unchanged id at (e ∷ es) h = ground (arith, absent_unchanged id at es)

pub length-set_published :
    (id : Uuid) (at : Time) (es : List Event)
    → Distinct es
    → has_event id (unpublished es) ≡ true
    → length (unpublished (set_published id at es)) + 1 ≡ length (unpublished es)
unfolding has_event unpublished set_published
length-set_published id at [] d h = ground arith
length-set_published id at (e ∷ es) d h =
    ground
      (arith, length-set_published id at es, absent_unchanged id at es, has_event-unpublished id es)

pub set_published-Distinct :
    (id : Uuid) (at : Time) (es : List Event) → Distinct es → Distinct (set_published id at es)
unfolding set_published
set_published-Distinct id at [] d = tt
set_published-Distinct id at (e ∷ es) d =
    ground (arith, set_published-Distinct id at es, has_event-set_published e.id id at es)

pub AllPending-set_published :
    (id : Uuid) (at : Time) (xs es : List Event)
    → has_event id xs ≡ false
    → AllPending xs es
    → AllPending xs (set_published id at es)
unfolding has_event
AllPending-set_published id at [] es h p = tt
AllPending-set_published id at (x ∷ xs) es h p =
    ground (arith, AllPending-set_published id at xs es, pending-set_published x.id id at es)

-- The rows that are fetched are pending.
AllPending-by_id :
    (xs es : List Event)
    → ((k : Uuid) → has_event k (unpublished es) ≡ false → has_event k xs ≡ false)
    → AllPending xs es
unfolding has_event
AllPending-by_id [] es h = tt
AllPending-by_id (x ∷ xs) es h = (
  elim (Bool-cases (has_event x.id (unpublished es))) [
    | inl pending ↦ pending
    | inr new ↦ ground (arith, h x.id new)
  ],
  AllPending-by_id xs es (λ k new. ground (arith, h k new)),
)

pub fetched-AllPending :
    (n : ℕ) (es : List Event) → AllPending (take n (sort_by_time (unpublished es))) es
fetched-AllPending n es = AllPending-by_id (take n (sort_by_time (unpublished es))) es (λ k new.
    has_event-take k n (sort_by_time (unpublished es))
      (rw (has_event-sort_by_time k (unpublished es)) new))
