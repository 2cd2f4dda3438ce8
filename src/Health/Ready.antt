-- ===== src/Health/Ready.antt =====
-- What /readyz answers, whatever the order in which the checkers are tried.
use go_payment.Prelude.{
  ℕ, ◌≡◌, ◌↔◌, refl, String, Option, none, some, List, [], ◌∷◌, arith, str_eq, eq_iff, inl, inr,
  Bool-cases, if◌then◌else◌, subst, sym,
}
use go_payment.Prelude.Map.{lookup, lookup-assign, Unique, IsRange}
use go_payment.Errors.{text}
use go_payment.Exec.{Result, ok, err}
use go_payment.Health.{Checker, Checkers, check_all, readyz, checked, new}

abbrev pub report : Result (Unit {0}) → String
report (ok _) = "ok"
report (err e) = text e

checked-lookup :
    (name n : String) (r : Result (Unit {0})) (v : ℕ × List (String × String))
    → lookup name (checked n r v).1 ≡ (if str_eq n name then some (report r) else lookup name v.1)
checked-lookup name n (ok _) v = lookup-assign name n "ok" v.1
checked-lookup name n (err e) v = lookup-assign name n (text e) v.1

checked-code :
    (n : String) (r : Result (Unit {0})) (v : ℕ × List (String × String))
    → ((checked n r v).0 ≡ 200) ↔ ((v.0 ≡ 200) × (r ≡ ok tt))
checked-code n (ok _) v = (λ h. (h, refl), λ h. h.0)
checked-code n (err e) v = (λ h. absurd (ground arith), λ h. absurd (ground arith))

module _ {S : Type 0} (s : S) where
  abbrev pub reported : Option (Checker S) → Option String → Option String
  reported none before = before
  reported (some c) before = some (report (c s))

  abbrev pub Succeeds : Option (Checker S) → Type 0
  Succeeds none = Unit
  Succeeds (some c) = c s ≡ ok tt

  -- A name that is checked stands nowhere else in the order.
  checks_step :
      (name n : String) (c : Checker S) (cs : Checkers S) (before : Option String)
      → lookup n cs ≡ none
      → reported (lookup name cs) (if str_eq n name then some (report (c s)) else before)
        ≡ reported (if str_eq n name then some c else lookup name cs) before
  checks_step name n c cs before h = elim (Bool-cases (str_eq n name)) [
    | inl here ↦
        let e : lookup name cs ≡ none =
          subst (λ (k : String). lookup k cs ≡ none) ((eq_iff n name).0 here) h in
        rw (here, e) refl
    | inr there ↦ rw there refl
  ]

  checks_lem :
      (name : String) (order : Checkers S) (v : ℕ × List (String × String))
      → Unique order
      → lookup name (check_all order s v).1 ≡ reported (lookup name order) (lookup name v.1)
  unfolding check_all lookup
  checks_lem name [] v u = refl
  checks_lem name ((n, c) ∷ cs) v u =
      rw (checks_lem name cs (checked n (c s) v) u.1, checked-lookup name n (c s) v)
        (checks_step name n c cs (lookup name v.1) u.0)

  all_split :
      (n : String) (c : Checker S) (cs : Checkers S)
      → lookup n cs ≡ none
      → ((name : String) → Succeeds (if str_eq n name then some c else lookup name cs))
        ↔ ((c s ≡ ok tt) × ((name : String) → Succeeds (lookup name cs)))
  all_split n c cs new = (
    λ all. (
      rw ((eq_iff n n).1 refl) at (all n),
      λ name. elim (Bool-cases (str_eq n name)) [
        | inl here ↦
            let e : lookup name cs ≡ none =
              subst (λ (k : String). lookup k cs ≡ none) ((eq_iff n name).0 here) new in
            rw e tt
        | inr there ↦ rw there at (all name)
      ],
    ),
    λ h. λ name. elim (Bool-cases (str_eq n name)) [
      | inl here ↦ rw here h.0
      | inr there ↦ rw there (h.1 name)
    ],
  )

  code_lem :
      (order : Checkers S) (v : ℕ × List (String × String))
      → Unique order
      → ((check_all order s v).0 ≡ 200)
        ↔ ((v.0 ≡ 200) × ((name : String) → Succeeds (lookup name order)))
  unfolding check_all lookup
  code_lem [] v u = (λ h. (h, λ name. tt), λ h. h.0)
  code_lem ((n, c) ∷ cs) v u =
      let split = all_split n c cs u.0 in
      let rest = code_lem cs (checked n (c s) v) u.1 in
      let first = checked-code n (c s) v in
      (
        λ h.
            let (now, later) = rest.0 h in
            let (before, good) = first.0 now in (before, split.1 (good, later)),
        λ h. let (good, later) = split.0 h.1 in rest.1 (first.1 (h.0, good), later),
      )

  -- For every order in which the map of checkers may be ranged over: Readyz answers 200 when
  -- every checker succeeds and only then, and reports each of them with "ok" or the text of its
  -- error, and no other name.
  pub readyz_reports :
      (order h : Checkers S)
      → IsRange order h
      → (((readyz order s).code ≡ 200) ↔ ((name : String) → Succeeds (lookup name h)))
        × ((name : String) → lookup name (readyz order s).checks ≡ reported (lookup name h) none)
  unfolding readyz lookup
  readyz_reports order h range =
      let code = code_lem order (200, []) range.unique in
      (
        (
          λ e. λ name. subst Succeeds (range.same name) ((code.0 e).1 name),
          λ all. code.1 (refl, λ name. subst Succeeds (sym (range.same name)) (all name)),
        ),
        λ name. rw (checks_lem name order (200, []) range.unique, range.same name) refl,
      )
