-- ===== src/Database.antt =====
-- A pgx connection pool, as the repositories use it. The server and the network are not part of the
-- repository: what they do is a schedule, one turn for each call. Other sessions may commit before
-- a call; the driver may report an error, before the server acts or after it.
pub mod Outcome
use go_payment.Prelude.{◌≡◌, ◌⊎◌, refl, inl, inr, List, [], ◌∷◌}
use go_payment.Errors.{GoError}
use go_payment.Exec.{Result, ok, err, Exec}

pub data Verdict : Type 0 where
  served : Verdict
  -- the call fails and nothing has happened
  refused : GoError → Verdict
  -- the server has acted, and the answer is lost
  lost : GoError → Verdict

pub Verdict-cases :
    (v : Verdict)
    → (v ≡ served) ⊎ (((e : GoError) × (v ≡ refused e)) ⊎ ((e : GoError) × (v ≡ lost e)))
Verdict-cases served = inl refl
Verdict-cases (refused e) = inr (inl (e, refl))
Verdict-cases (lost e) = inr (inr (e, refl))

-- The first of the verdicts that are to come; every call is served when they are used up.
abbrev pub next_verdict : List Verdict → Verdict
next_verdict [] = served
next_verdict (v ∷ vs) = v

abbrev pub later_verdicts : List Verdict → List Verdict
later_verdicts [] = []
later_verdicts (v ∷ vs) = vs

pub record Turn (D : Type 0) : Type 0 where
  -- the transactions of other sessions that commit before the call
  pub others : D → D
  pub verdict : Verdict

-- When the schedule is at its end every call is served, and nobody else writes.
pub record Session (D : Type 0) : Type 0 where
  pub tables : D
  pub turns : List (Turn D)

abbrev pub quiet : {D : Type 0} → D → Session D
quiet d = record { tables = d; turns = [] }

abbrev pub first_verdict : {D : Type 0} → List (Turn D) → Verdict
first_verdict [] = served
first_verdict (t ∷ ts) = t.verdict

abbrev pub later : {D : Type 0} → List (Turn D) → List (Turn D)
later [] = []
later (t ∷ ts) = ts

abbrev pub interfere : {D : Type 0} → List (Turn D) → D → D
interfere [] d = d
interfere (t ∷ ts) d = t.others d

-- The state in which the next call runs.
abbrev pub after_others : {D : Type 0} → Session D → Session D
after_others s = record { tables = interfere s.turns s.tables; turns = later s.turns }

abbrev pub answer : {A : Type 0} → Verdict → Result A → Result A
answer served r = r
answer (refused e) r = err e
answer (lost e) r = err e

-- pool.QueryRow(...).Scan(...): a read outside a transaction.
unfoldable pub query : {D A : Type 0} → (D → Result A) → Exec (Session D) A
query f s = let s' = after_others s in (answer (first_verdict s.turns) (f s'.tables), s')

abbrev pub settle : {D A : Type 0} → Session D → Verdict → Result (A × D) → Result A × Session D
settle s (refused e) r = (err e, s)
settle s v (err e) = (answer v (err e), s)
settle s v (ok (a, d)) = (answer v (ok a), record s { tables = d })

-- pool.Exec(...): one statement, committed by itself.
unfoldable pub exec : {D A : Type 0} → (D → Result (A × D)) → Exec (Session D) A
exec f s = let s' = after_others s in settle s' (first_verdict s.turns) (f s'.tables)

-- tx.Exec(...): a statement of an open transaction, on its own copy of the tables.
unfoldable pub tx_exec : {D A : Type 0} → (D → Result (A × D)) → Exec (Session D) A
tx_exec f s =
    let s' : Session _ = record s { turns = later s.turns } in
    settle s' (first_verdict s.turns) (f s.tables)

-- tx.Commit at `s`, of a transaction that began in `before`.
abbrev pub commit : {D A : Type 0} → D → A → Verdict → Session D → Result A × Session D
commit before a served s = (ok a, s)
commit before a (refused e) s = (err e, record s { tables = before })
commit before a (lost e) s = (err e, s)

abbrev pub finish : {D A : Type 0} → D → Result A × Session D → Result A × Session D
finish before (err e, s) = (err e, record s { tables = before })
finish before (ok a, s) =
    commit before a (first_verdict s.turns) (record s { turns = later s.turns })

abbrev pub began : {D A : Type 0} → Verdict → Exec (Session D) A → Session D → Result A × Session D
began served body s = finish s.tables (body s)
began (refused e) body s = (err e, s)
began (lost e) body s = (err e, s)

-- tx, err := pool.Begin; defer tx.Rollback; the body; return tx.Commit. A body that ends in an
-- error leaves the tables as they were at its beginning.
unfoldable pub in_transaction : {D A : Type 0} → Exec (Session D) A → Exec (Session D) A
in_transaction body s = began (first_verdict s.turns) body (after_others s)
