-- ===== src/Transfer/Service/Outcomes.antt =====
-- Everything that one call of Create can come to, on any schedule of the database and whatever the
-- wallet service answers.
pub mod Funds
pub mod Create
use go_payment.Prelude.{
  ◌≡◌, ◌∙◌, sym, ap, ◌⊎◌, inl, inr, refl, String, Option, none, some, List, [], ◌∷◌, ◌++◌, str_eq,
  true, false, arith, Bool-cases, Option-cases,
}
use go_payment.Errors.{GoError, Sentinel, is}
use go_payment.Exec.{Result, ok, err, Exec, Result-cases}
use go_payment.Database.{Session, after_others, query}
use go_payment.Uuid.{Uuid, UuidPackage}
use go_payment.Transfer.Domain.{Transfer, completed, new_transfer}
use go_payment.Transfer.Ports.{TransferRepository, WalletClient, IdempotencyCache}
use go_payment.Transfer.Tables.{TransferDb, find_by_key}
use go_payment.Transfer.Postgres.{
  pg_repo, get_by_idempotency_key, insert_completed_with_outbox, scan, found_or_none,
}
use go_payment.Transfer.Postgres.Atomic.{with_transfer, IsNew, insert_completed_atomic}
use go_payment.Transfer.Service.{
  bad_argument, Draw, CreateRequest, CreateResult, debit_key, credit_key, compensation_key,
  finished, event_of, or_rub, move_funds, credited_or_compensated, create_new, create,
}
use go_payment.Transfer.Service.Begun.{begun}
use go_payment.Transfer.Service.Retry.{Call, debited, credited}

-- A wallet service with the answers that it will give (it accepts when they are used up), and the
-- calls with their answers.
pub record Scripted : Type 0 where
  pub db : Session TransferDb
  pub answers : List (Result (Unit {0}))
  pub calls : List (Call × Result (Unit {0}))

abbrev said : List (Result (Unit {0})) → Result (Unit {0})
said [] = ok tt
said (a ∷ rest) = a

abbrev unsaid : List (Result (Unit {0})) → List (Result (Unit {0}))
unsaid [] = []
unsaid (a ∷ rest) = rest

abbrev called : Call → Exec Scripted (Unit {0})
called c s = (
  said s.answers,
  record s { answers = unsaid s.answers; calls = s.calls ++ (c, said s.answers) ∷ [] },
)

abbrev pub scripted : WalletClient Scripted
scripted = record {
  debit = λ w a t k. called (debited w a k);
  credit = λ w a t k. called (credited w a k);
}

abbrev on_db : {A : Type 0} → Exec (Session TransferDb) A → Exec Scripted A
on_db m s = let (r, db) = m s.db in (r, record s { db = db })

abbrev pub scripted_repo : TransferRepository Scripted
scripted_repo = record {
  get_by_idempotency_key = λ k. on_db (get_by_idempotency_key k);
  get_by_id = λ id. on_db (TransferRepository.get_by_id pg_repo id);
  insert_completed_with_outbox = λ tr ev. on_db (insert_completed_with_outbox tr ev);
}

abbrev pub no_cache : IdempotencyCache Scripted
no_cache = record { get = λ k s. (ok none, s); set = λ k v s. (ok tt, s) }

module _ (uuid : UuidPackage) (draw : Draw) (q : CreateRequest) where
  abbrev pub the_debit : Call
  the_debit = debited q.from_id q.amount (debit_key uuid draw.transfer_id)

  abbrev pub the_credit : Call
  the_credit = credited q.to_id q.amount (credit_key uuid draw.transfer_id)

  abbrev pub the_compensation : Call
  the_compensation = credited q.from_id q.amount (compensation_key uuid draw.transfer_id)

  -- The transfer that this call makes.
  pub record IsMade (tr : Transfer) : Type 0 where
    pub id : tr.id ≡ draw.transfer_id
    pub key : tr.idempotency_key ≡ q.key
    pub status : tr.status ≡ completed

  -- The outcomes from a state whose database is `b` when the key has been looked up, after the
  -- calls `made`.
  pub data Outcome (b : Session TransferDb) (made : List (Call × Result (Unit {0})))
      (end : Result CreateResult × Scripted) : Type 0 where
    refused : (e : GoError) → end.0 ≡ err e → end.1.calls ≡ made → end.1.db ≡ b → Outcome b made end
    replayed :
        (tr : Transfer)
        → end.0 ≡ ok (record { transfer = tr; idempotent_replay = true })
        → find_by_key q.key b.tables.transfers ≡ some tr
        → end.1.calls ≡ made
        → end.1.db ≡ b
        → Outcome b made end
    not_debited :
        (e : GoError)
        → end.0 ≡ err e
        → end.1.calls ≡ made ++ (the_debit, err e) ∷ []
        → end.1.db ≡ b
        → Outcome b made end
    compensated :
        (e : GoError) (back : Result (Unit {0}))
        → end.0 ≡ err e
        → end.1.calls
          ≡ ((made ++ (the_debit, ok tt) ∷ []) ++ (the_credit, err e) ∷ [])
            ++ (the_compensation, back) ∷ []
        → end.1.db ≡ b
        → Outcome b made end
    unconfirmed :
        (e : GoError) (tr : Transfer)
        → IsMade tr
        → end.0 ≡ err e
        → end.1.calls ≡ (made ++ (the_debit, ok tt) ∷ []) ++ (the_credit, ok tt) ∷ []
        → (end.1.db.tables ≡ (after_others b).tables)
          ⊎ (end.1.db.tables ≡ with_transfer tr (event_of uuid draw tr) (after_others b).tables)
        → Outcome b made end
    stored :
        (tr : Transfer)
        → IsMade tr
        → end.0 ≡ ok (record { transfer = tr; idempotent_replay = false })
        → end.1.calls ≡ (made ++ (the_debit, ok tt) ∷ []) ++ (the_credit, ok tt) ∷ []
        → IsNew tr (event_of uuid draw tr) (after_others b).tables
        → end.1.db.tables ≡ with_transfer tr (event_of uuid draw tr) (after_others b).tables
        → Outcome b made end
