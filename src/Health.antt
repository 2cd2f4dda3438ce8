-- ===== src/Health.antt =====
-- pkg/health/health.go. The lock makes each method one step. A response is its status code, and the
-- two entries of its JSON object. The map of checkers is a list of entries with different names; the
-- order of `range` is the order of the list that is given to `readyz`.
pub mod Ready
mod Tests
use go_payment.Prelude.{ℕ, String, List, [], ◌∷◌, ◌==◌, if◌then◌else◌}
use go_payment.Prelude.Map.{assign}
use go_payment.Errors.{text}
use go_payment.Exec.{Result, ok, err}

-- A probe of a dependency, which changes nothing here.
abbrev pub Checker : Type 0 → Type 0
Checker S = S → Result (Unit {0})

abbrev pub Checkers : Type 0 → Type 0
Checkers S = List (String × Checker S)

pub record Readiness : Type 0 where
  pub code : ℕ
  pub status : String
  pub checks : List (String × String)

-- Healthz
abbrev pub healthz : ℕ × List (String × String)
healthz = (200, ("status", "ok") ∷ [])

-- The variables of Readyz as its loop leaves them: the status and the results.
abbrev pub checked :
    String → Result (Unit {0}) → ℕ × List (String × String) → ℕ × List (String × String)
checked name (ok _) v = (v.0, assign name "ok" v.1)
checked name (err e) v = (503, assign name (text e) v.1)

module _ {S : Type 0} where
  abbrev pub new : Checkers S
  new = []

  abbrev pub register : String → Checker S → Checkers S → Checkers S
  register name c h = assign name c h

  unfoldable pub check_all :
      Checkers S → S → ℕ × List (String × String) → ℕ × List (String × String)
  check_all [] s v = v
  check_all ((name, c) ∷ cs) s v = check_all cs s (checked name (c s) v)

  unfoldable pub readyz : Checkers S → S → Readiness
  unfolding check_all
  readyz order s =
      let v = check_all order s (200, []) in
      record { code = v.0; status = if v.0 == 200 then "ready" else "not_ready"; checks = v.1 }
