-- ===== src/Breaker/Trips.antt =====
-- When the circuit opens: at the failure that makes `threshold` of them since the last success.
use go_payment.Prelude.{ℕ, suc, ◌+◌, ◌<◌, ◌≡◌, true, List, [], ◌∷◌, ℤ, leb, arith}
use go_payment.Uuid.{Time}
use go_payment.Breaker.{Circuit, new, allow, success, failure}

-- A history of the calls that report to the circuit.
pub data Report : Type 0 where
  succeeded : Report
  failed : Time → Report

unfoldable pub observe : Circuit → List Report → Circuit
observe c [] = c
observe c (succeeded ∷ rs) = observe (success c) rs
observe c (failed t ∷ rs) = observe (failure t c) rs

pub record IsClosed (c : Circuit) : Type 0 where
  pub counted : c.failures < c.threshold
  pub waits : 0 < c.cooldown

new-IsClosed : (threshold cooldown : ℤ) → IsClosed (new threshold cooldown)
unfolding new
new-IsClosed threshold cooldown = ground arith

-- Over every history of successes and failures the failure count of a circuit stays below its
-- threshold, and its cooldown positive, when they were so at first.
pub observe-IsClosed : (c : Circuit) (rs : List Report) → IsClosed c → IsClosed (observe c rs)
unfolding observe success failure
observe-IsClosed c [] h = h
observe-IsClosed c (succeeded ∷ rs) h = observe-IsClosed (success c) rs (ground arith)
observe-IsClosed c (failed t ∷ rs) h = observe-IsClosed (failure t c) rs (ground arith)

abbrev pub failures_at : List Time → List Report
failures_at [] = []
failures_at (t ∷ ts) = failed t ∷ failures_at ts

abbrev pub length {ℓ} : {A : Type ℓ} → List A → ℕ
length [] = 0
length (x ∷ xs) = suc (length xs)

counts_up :
    (c : Circuit) (ts : List Time)
    → c.failures + length ts < c.threshold
    → observe c (failures_at ts) ≡ record c { failures = c.failures + length ts }
unfolding observe failure
counts_up c [] h = ground arith
counts_up c (t ∷ ts) h = ground (arith, counts_up (failure t c) ts)

-- After a success, one failure less than the threshold leaves every call allowed; the failure
-- that reaches the threshold refuses calls until the cooldown after it has passed, and no longer.
pub opens_at_threshold :
    (c : Circuit) (ts : List Time) (t now : Time)
    → length ts + 1 ≡ c.threshold
    → (allow now (observe (success c) (failures_at ts)) ≡ true)
      × (allow now (failure t (observe (success c) (failures_at ts))) ≡ leb (t + c.cooldown) now)
unfolding allow success failure
opens_at_threshold c ts t now h = ground (arith, counts_up (success c) ts)
