-- ===== src/Health/Tests.antt =====
-- A service with its two probes, of which one fails, tried in the other order.
use go_payment.Prelude.{◌≡◌, ◌↔◌, refl, String, none, [], ◌∷◌, eq_iff, arith}
use go_payment.Prelude.Map.{assign, lookup, IsRange}
use go_payment.Errors.{plain}
use go_payment.Exec.{ok, err}
use go_payment.Health.{Checkers, new, register, readyz}
use go_payment.Health.Ready.{Succeeds, reported, readyz_reports}

abbrev registered : Checkers (Unit {0})
registered = register "redis" (λ s. err (plain "refused")) (register "postgres" (λ s. ok tt) new)

abbrev ranged : Checkers (Unit {0})
ranged = ("redis", λ s. err (plain "refused")) ∷ ("postgres", λ s. ok tt) ∷ []

ranged-IsRange : IsRange ranged registered
unfolding lookup assign
ranged-IsRange = record {
  unique = (refl, (refl, tt));
  same = λ name.
      ground (arith, eq_iff "redis" name, eq_iff "postgres" name, eq_iff "redis" "postgres");
}

readyz_reports_example :
    (((readyz ranged tt).code ≡ 200) ↔ ((name : String) → Succeeds tt (lookup name registered)))
    × ((name : String)
        → lookup name (readyz ranged tt).checks ≡ reported tt (lookup name registered) none)
readyz_reports_example = readyz_reports tt ranged registered ranged-IsRange

not_ready : (readyz ranged tt).code ≡ 503
unfolding readyz
not_ready = refl
