-- ===== src/Database/Outcome.antt =====
-- What a transaction can leave behind, on any schedule.
use go_payment.Prelude.{◌≡◌, refl, ◌⊎◌, inl, inr}
use go_payment.Errors.{GoError}
use go_payment.Exec.{Result, ok, err, Exec}
use go_payment.Database.{
  Session, Verdict, served, refused, lost, first_verdict, later, after_others, in_transaction,
  commit, finish, began,
}

-- Either the transaction fails and the tables are those that it found, or its body ended without an
-- error and the tables are those that the body left.
abbrev pub Outcome : {D A : Type 0} → D → Result A × Session D → Result A × Session D → Type 0
Outcome {A} found body end =
    ((e : GoError) × (end.0 ≡ err e) × (end.1.tables ≡ found))
    ⊎ ((a : A) × (body.0 ≡ ok a) × (end.1.tables ≡ body.1.tables))

module _ {D A : Type 0} where
  finish-Outcome :
      (found : D) (r : Result A) (s : Session D) → Outcome found (r, s) (finish found (r, s))
  finish-Outcome found (err e) s = inl (e, refl, refl)
  finish-Outcome found (ok a) s = go (first_verdict s.turns)
    where
      after : Session D
      after = record s { turns = later s.turns }

      go : (v : Verdict) → Outcome found (Result.ok a, s) (commit found a v after)
      go served = inr (a, refl, refl)
      go (refused e) = inl (e, refl, refl)
      go (lost e) = inr (a, refl, refl)

  pub in_transaction-Outcome :
      (body : Exec (Session D) A) (s : Session D)
      → let s1 = after_others s in Outcome s1.tables (body s1) (in_transaction body s)
  unfolding in_transaction
  in_transaction-Outcome body s = go (first_verdict s.turns)
    where
      s1 : Session D
      s1 = after_others s

      go : (v : Verdict) → Outcome s1.tables (body s1) (began v body s1)
      go served = finish-Outcome s1.tables (body s1).0 (body s1).1
      go (refused e) = inl (e, refl, refl)
      go (lost e) = inl (e, refl, refl)
