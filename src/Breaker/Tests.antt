-- ===== src/Breaker/Tests.antt =====
-- The circuit at concrete histories, after breaker_test.go.
use go_payment.Prelude.{◌≡◌, ◌+◌, refl, [], ◌∷◌, pos, true, leb}
use go_payment.Breaker.{Circuit, new, allow, success, failure}
use go_payment.Breaker.Trips.{observe, failures_at, opens_at_threshold}

abbrev three : Circuit
three = record { failures = 2; threshold = 3; open_until = 0; cooldown = 10 }

opens_at_threshold_example :
    (allow 102 (observe (success three) (failures_at (100 ∷ 101 ∷ []))) ≡ true)
    × (allow 102 (failure 102 (observe (success three) (failures_at (100 ∷ 101 ∷ []))))
        ≡ leb (102 + 10) 102)
opens_at_threshold_example = opens_at_threshold three (100 ∷ 101 ∷ []) 102 102 refl

default_threshold : (new (pos 0) (pos 0)).threshold ≡ 5
unfolding new
default_threshold = refl
