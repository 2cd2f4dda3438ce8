-- ===== src/Transfer/Service/Outcomes/Funds.antt =====
-- The two wallet calls of Create on a scripted wallet service.
use go_payment.Prelude.{◌≡◌, inl, inr, refl, [], ◌∷◌, ◌++◌}
use go_payment.Errors.{GoError}
use go_payment.Exec.{Result, ok, err, Result-cases}
use go_payment.Uuid.{UuidPackage}
use go_payment.Transfer.Domain.{Transfer}
use go_payment.Transfer.Service.{
  CreateRequest, debit_key, credit_key, compensation_key, move_funds, credited_or_compensated,
}
use go_payment.Transfer.Service.Retry.{Call, debited, credited}
use go_payment.Transfer.Service.Outcomes.{Scripted, said, unsaid, scripted, scripted_repo, no_cache}

module _ (uuid : UuidPackage) (q : CreateRequest) (tr : Transfer) (s : Scripted) where
  abbrev pub debit_call : Call
  debit_call = debited q.from_id q.amount (debit_key uuid tr.id)

  abbrev pub credit_call : Call
  credit_call = credited q.to_id q.amount (credit_key uuid tr.id)

  abbrev pub compensation_call : Call
  compensation_call = credited q.from_id q.amount (compensation_key uuid tr.id)

  -- What the two wallet calls come to.
  pub data Funds (end : Result (Unit {0}) × Scripted) : Type 0 where
    debit_failed :
        (e : GoError)
        → end.0 ≡ err e
        → end.1.calls ≡ s.calls ++ (debit_call, err e) ∷ []
        → end.1.db ≡ s.db
        → Funds end
    credit_failed :
        (e : GoError) (back : Result (Unit {0}))
        → end.0 ≡ err e
        → end.1.calls
          ≡ ((s.calls ++ (debit_call, ok tt) ∷ []) ++ (credit_call, err e) ∷ [])
            ++ (compensation_call, back) ∷ []
        → end.1.db ≡ s.db
        → Funds end
    funds_moved :
        end.0 ≡ ok tt
        → end.1.calls ≡ (s.calls ++ (debit_call, ok tt) ∷ []) ++ (credit_call, ok tt) ∷ []
        → end.1.db ≡ s.db
        → Funds end

  pub move_funds-Funds : Funds (move_funds uuid scripted_repo scripted no_cache q tr s)
  unfolding move_funds credited_or_compensated
  move_funds-Funds = elim (Result-cases (said s.answers)) [
    | inr (e, denied) ↦ debit_failed e (rw denied refl) (rw denied refl) (rw denied refl)
    | inl (u, agreed) ↦ elim (Result-cases (said (unsaid s.answers))) [
      | inr (e, denied) ↦
          credit_failed e (said (unsaid (unsaid s.answers))) (rw (agreed, denied) refl)
            (rw (agreed, denied) refl) (rw (agreed, denied) refl)
      | inl (v, agreed_too) ↦
          funds_moved (rw (agreed, agreed_too) refl) (rw (agreed, agreed_too) refl)
            (rw (agreed, agreed_too) refl)
    ]
  ]
