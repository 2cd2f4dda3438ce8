-- ===== src/Breaker.antt =====
-- pkg/breaker/breaker.go. The mutex makes each method one step; time.Now is an argument.
pub mod Trips
mod Tests
use go_payment.Prelude.{ℕ, ◌+◌, Bool, ℤ, pos, pos_part, ltb, leb, leb_ℤ, if◌then◌else◌}
use go_payment.Uuid.{Time}

-- New makes the threshold and the cooldown positive; the zero time.Time is 0.
pub record Circuit : Type 0 where
  pub failures : ℕ
  pub threshold : ℕ
  pub open_until : Time
  pub cooldown : ℕ

-- 5 * time.Second
abbrev pub five_seconds : ℕ
five_seconds = 5_000_000_000

unfoldable pub new : ℤ → ℤ → Circuit
new threshold cooldown = record {
  failures = 0;
  threshold = if leb_ℤ threshold (pos 0) then 5 else pos_part threshold;
  open_until = 0;
  cooldown = if leb_ℤ cooldown (pos 0) then five_seconds else pos_part cooldown;
}

unfoldable pub allow : Time → Circuit → Bool
allow now c = if ltb now c.open_until then Bool.false else Bool.true

unfoldable pub success : Circuit → Circuit
success c = record c { failures = 0; open_until = 0 }

unfoldable pub failure : Time → Circuit → Circuit
failure now c =
    if leb c.threshold (c.failures + 1)
    then record c { failures = 0; open_until = now + c.cooldown }
    else record c { failures = c.failures + 1 }
