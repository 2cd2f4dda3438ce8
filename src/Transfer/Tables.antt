-- ===== src/Transfer/Tables.antt =====
-- The tables of db/migrations/transfer/00001_transfers.sql with their constraints, and the statements of
-- internal/transfer/adapters/postgres/repo.go on them.
use go_payment.Prelude.{
  ℕ, zero, suc, String, Bool, true, false, Option, none, some, List, [], ◌∷◌, ◌++◌, pos, leb, leb_ℤ,
  ◌==◌, ◌||◌, str_eq, if◌then◌else◌,
}
use go_payment.Errors.{pg_error}
use go_payment.Exec.{Result, ok, err}
use go_payment.Outbox.{Event}
use go_payment.Uuid.{Uuid, Time}
use go_payment.Transfer.Domain.{Transfer}

pub record TransferDb : Type 0 where
  pub transfers : List Transfer
  pub outbox_events : List Event

-- SELECT ... FROM transfers WHERE id = $1
unfoldable pub find_transfer : Uuid → List Transfer → Option Transfer
find_transfer id [] = none
find_transfer id (t ∷ ts) = if t.id == id then some t else find_transfer id ts

-- SELECT ... FROM transfers WHERE idempotency_key = $1
unfoldable pub find_by_key : String → List Transfer → Option Transfer
find_by_key key [] = none
find_by_key key (t ∷ ts) = if str_eq t.idempotency_key key then some t else find_by_key key ts

-- PRIMARY KEY (id) of outbox_events
unfoldable pub has_event : Uuid → List Event → Bool
has_event id [] = false
has_event id (e ∷ es) = (e.id == id) || has_event id es

abbrev pub is_some : {A : Type 0} → Option A → Bool
is_some none = false
is_some (some _) = true

-- INSERT INTO transfers; CHECK (amount_minor > 0), PRIMARY KEY (id), UNIQUE (idempotency_key)
unfoldable pub insert_transfer : Transfer → TransferDb → Result (Unit {0} × TransferDb)
insert_transfer t d =
    if leb_ℤ t.amount_minor (pos 0)
    then err (pg_error "23514")
    else if is_some (find_transfer t.id d.transfers)
        || is_some (find_by_key t.idempotency_key d.transfers)
    then err (pg_error "23505")
    else ok (tt, record d { transfers = d.transfers ++ t ∷ [] })

-- INSERT INTO outbox_events
unfoldable pub insert_event : Event → TransferDb → Result (Unit {0} × TransferDb)
insert_event e d =
    if has_event e.id d.outbox_events
    then err (pg_error "23505")
    else ok
        (tt, record d { outbox_events = d.outbox_events ++ record e { published_at = none } ∷ [] })

-- ORDER BY created_at; rows of the same time stay in the order of the table.
unfoldable pub insert_by_time : Event → List Event → List Event
insert_by_time e [] = e ∷ []
insert_by_time e (x ∷ xs) =
    if leb e.created_at x.created_at then e ∷ x ∷ xs else x ∷ insert_by_time e xs

unfoldable pub sort_by_time : List Event → List Event
unfolding insert_by_time
sort_by_time [] = []
sort_by_time (e ∷ es) = insert_by_time e (sort_by_time es)

-- WHERE published_at IS NULL
unfoldable pub unpublished : List Event → List Event
unpublished [] = []
unpublished (e ∷ es) =
    let rest = unpublished es in if is_some e.published_at then rest else e ∷ rest

-- LIMIT $1
unfoldable pub take : ℕ → List Event → List Event
take zero es = []
take (suc n) [] = []
take (suc n) (e ∷ es) = e ∷ take n es

-- UPDATE outbox_events SET published_at = $1 WHERE id = $2
unfoldable pub set_published : Uuid → Time → List Event → List Event
set_published id at [] = []
set_published id at (e ∷ es) =
    (if e.id == id then record e { published_at = some at } else e) ∷ set_published id at es
