-- ===== src/Transfer/Service/Outcomes/Create.antt =====
-- Create comes to one of its outcomes.
use go_payment.Prelude.{
  ◌≡◌, ◌∙◌, sym, ap, ◌⊎◌, inl, inr, refl, String, none, some, [], ◌∷◌, ◌++◌, str_eq, arith,
  Bool-cases, Option-cases,
}
use go_payment.Errors.{GoError, Sentinel, is}
use go_payment.Exec.{Result, ok, err, Result-cases}
use go_payment.Database.{Session, after_others, query}
use go_payment.Uuid.{Uuid, UuidPackage}
use go_payment.Transfer.Domain.{Transfer, new_transfer}
use go_payment.Transfer.Tables.{TransferDb, find_by_key}
use go_payment.Transfer.Postgres.{
  get_by_idempotency_key, insert_completed_with_outbox, scan, found_or_none,
}
use go_payment.Transfer.Postgres.Atomic.{with_transfer, insert_completed_atomic}
use go_payment.Transfer.Service.{
  bad_argument, Draw, CreateRequest, CreateResult, finished, event_of, or_rub, move_funds,
  create_new, create,
}
use go_payment.Transfer.Service.Begun.{begun}
use go_payment.Transfer.Service.Outcomes.{
  Scripted, scripted, scripted_repo, no_cache, the_debit, the_credit, IsMade, Outcome, refused,
  replayed, not_debited, compensated, unconfirmed, stored,
}
use go_payment.Transfer.Service.Outcomes.Funds.{
  Funds, debit_failed, credit_failed, funds_moved, move_funds-Funds,
}

new_transfer_ok :
    (draw : Draw) (q : CreateRequest) (from to user : Uuid) (tr : Transfer)
    → new_transfer draw.transfer_id draw.created from to q.amount (or_rub q.currency) q.key user
      ≡ ok tr
    → tr ≡ begun draw q from to user
unfolding new_transfer
new_transfer_ok draw q from to user tr h = ground (arith, h)

ok≢err : {A : Type 0} {a : A} {e : GoError} → ◌≡◌ {A = Result A} (ok a) (err e) → ⊥
ok≢err h = ground (arith, h)

module _ (uuid : UuidPackage) (draw : Draw) (q : CreateRequest) (s : Scripted) where
  abbrev new_end : Result CreateResult × Scripted
  new_end = create_new uuid scripted_repo scripted no_cache draw q s

  module _ (from to user : Uuid) (r_from : uuid.parse q.from_id ≡ some from)
      (r_to : uuid.parse q.to_id ≡ some to) (r_user : uuid.parse q.user_id ≡ some user)
      (made : new_transfer draw.transfer_id draw.created from to q.amount
          (or_rub q.currency)
          q.key
          user
        ≡ ok (begun draw q from to user)) where
    abbrev tr : Transfer
    tr = begun draw q from to user

    abbrev made_transfer : Transfer
    made_transfer = finished uuid draw tr

    own : IsMade uuid draw q made_transfer
    own = record { id = refl; key = refl; status = refl }

    abbrev moved : Result (Unit {0}) × Scripted
    moved = move_funds uuid scripted_repo scripted no_cache q tr s

    later_rows :
        {b b' : Session TransferDb}
        → b ≡ b'
        → with_transfer made_transfer (event_of uuid draw made_transfer) (after_others b).tables
          ≡ with_transfer made_transfer (event_of uuid draw made_transfer) (after_others b').tables
    later_rows e =
        ap
          (λ x.
            with_transfer made_transfer (event_of uuid draw made_transfer) (after_others x).tables)
          e

    inserted-Outcome :
        moved.0 ≡ ok tt
        → moved.1.calls
          ≡ (s.calls ++ (the_debit uuid draw q, ok tt) ∷ []) ++ (the_credit uuid draw q, ok tt) ∷ []
        → moved.1.db ≡ s.db
        → Outcome uuid draw q s.db s.calls new_end
    unfolding create_new
    inserted-Outcome done calls db =
        let ev = event_of uuid draw made_transfer in
        elim (Result-cases (insert_completed_with_outbox made_transfer ev moved.1.db).0) [
          | inl (u, ended) ↦ elim (insert_completed_atomic made_transfer ev moved.1.db) [
            | inl (e, failed, same) ↦ absurd (ok≢err (sym ended ∙ failed))
            | inr (new, rows) ↦
                stored made_transfer own (rw (r_from, r_to, r_user, made, done, ended) refl)
                  (rw (r_from, r_to, r_user, made, done, ended) calls) (rw db at new)
                  (rw (r_from, r_to, r_user, made, done, ended) (rows ∙ later_rows db))
          ]
          | inr (e, failed) ↦
              unconfirmed e made_transfer own (rw (r_from, r_to, r_user, made, done, failed) refl)
                (rw (r_from, r_to, r_user, made, done, failed) calls)
                (rw (r_from, r_to, r_user, made, done, failed)
                  (elim (insert_completed_atomic made_transfer ev moved.1.db) [
                    | inl (e', failed', same) ↦ inl (same ∙ ap (λ b. (after_others b).tables) db)
                    | inr (new, rows) ↦ inr (rows ∙ later_rows db)
                  ]))
        ]

    begun-Outcome :
        Funds uuid q tr s (move_funds uuid scripted_repo scripted no_cache q tr s)
        → Outcome uuid draw q s.db s.calls new_end
    unfolding create_new
    begun-Outcome (debit_failed e denied calls db) =
        not_debited e (rw (r_from, r_to, r_user, made, denied) refl)
          (rw (r_from, r_to, r_user, made, denied) calls)
          (rw (r_from, r_to, r_user, made, denied) db)
    begun-Outcome (credit_failed e back denied calls db) =
        compensated e back (rw (r_from, r_to, r_user, made, denied) refl)
          (rw (r_from, r_to, r_user, made, denied) calls)
          (rw (r_from, r_to, r_user, made, denied) db)
    begun-Outcome (funds_moved done calls db) = inserted-Outcome done calls db

  new-Outcome : Outcome uuid draw q s.db s.calls new_end
  unfolding create_new
  new-Outcome = elim (Option-cases (uuid.parse q.from_id)) [
    | inl unread ↦ refused bad_argument (rw unread refl) (rw unread refl) (rw unread refl)
    | inr (from, r_from) ↦ elim (Option-cases (uuid.parse q.to_id)) [
      | inl unread ↦
          refused bad_argument (rw (r_from, unread) refl) (rw (r_from, unread) refl)
            (rw (r_from, unread) refl)
      | inr (to, r_to) ↦ elim (Option-cases (uuid.parse q.user_id)) [
        | inl unread ↦
            refused bad_argument (rw (r_from, r_to, unread) refl) (rw (r_from, r_to, unread) refl)
              (rw (r_from, r_to, unread) refl)
        | inr (user, r_user) ↦
            elim (Result-cases (
              new_transfer draw.transfer_id draw.created from to q.amount (or_rub q.currency) q.key
                user)) [
                  | inr (e, bad) ↦
                      refused e (rw (r_from, r_to, r_user, bad) refl)
                        (rw (r_from, r_to, r_user, bad) refl) (rw (r_from, r_to, r_user, bad) refl)
                  | inl (tr, made) ↦
                      let made' = made ∙ ap ok (new_transfer_ok draw q from to user tr made) in
                      begun-Outcome from to user r_from r_to r_user made'
                        (move_funds-Funds uuid q (begun draw q from to user) s)
                ]
      ]
    ]
  ]

found_or_none_state : (r : Result Transfer) (b : Session TransferDb) → (found_or_none r b).1 ≡ b
found_or_none_state (ok tr) b = refl
found_or_none_state (err e) b = elim (Bool-cases (is e Sentinel.not_found)) [
  | inl gone ↦ rw gone refl
  | inr other ↦ rw other refl
]

looked_up :
    (key : String) (b : Session TransferDb) → (get_by_idempotency_key key b).1 ≡ after_others b
unfolding get_by_idempotency_key scan query
looked_up key b = found_or_none_state _ (after_others b)

found_stored :
    (key : String) (b : Session TransferDb) (tr : Transfer)
    → (get_by_idempotency_key key b).0 ≡ ok (some tr)
    → find_by_key key (after_others b).tables.transfers ≡ some tr
unfolding get_by_idempotency_key scan query
found_stored key b tr h = ground (arith, h)

-- On any schedule of other sessions and database failures, whatever the wallet service answers
-- and with a cache that holds nothing, a call of Create comes to one of six outcomes: an error
-- with no wallet call; the answer of the stored transfer of the key as a replay, with no wallet
-- call; the error of the debit, which is the only call; the error of the credit, after the debit
-- and followed by one compensating credit of the first wallet, whatever that answers; an error
-- after the debit and the credit both went through, when the transfer and its event are stored or
-- nothing is; or a new completed transfer with the drawn id and the key of the request, after the
-- debit and the credit both went through, which was new and is stored with its event. In the
-- first four outcomes the call writes no row.
pub create-Outcome :
    (uuid : UuidPackage) (parse_error : GoError) (draw : Draw) (q : CreateRequest) (s : Scripted)
    → (b : Session TransferDb) × ((b ≡ s.db) ⊎ (b ≡ after_others s.db))
      × Outcome uuid draw q b s.calls
          (create uuid scripted_repo scripted no_cache parse_error draw q s)
unfolding create
create-Outcome uuid parse_error draw q s = elim (Bool-cases (str_eq q.key "")) [
  | inl empty ↦
      (s.db, inl refl, refused bad_argument (rw empty refl) (rw empty refl) (rw empty refl))
  | inr has_key ↦ elim (Result-cases (get_by_idempotency_key q.key s.db).0) [
    | inr (e, failed) ↦ (
      after_others s.db,
      inr refl,
      refused e (rw (has_key, failed) refl) (rw (has_key, failed) refl)
          (rw (has_key, failed) (looked_up q.key s.db)),
    )
    | inl (some tr, found) ↦ (
      after_others s.db,
      inr refl,
      replayed tr (rw (has_key, found) refl) (found_stored q.key s.db tr found)
          (rw (has_key, found) refl) (rw (has_key, found) (looked_up q.key s.db)),
    )
    | inl (none, missing) ↦ (
      after_others s.db,
      inr refl,
      rw (has_key, missing, looked_up q.key s.db)
          (new-Outcome uuid draw q (record s { db = after_others s.db })),
    )
  ]
]
