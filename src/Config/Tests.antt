-- ===== src/Config/Tests.antt =====
-- JWT_TTL=9223372037: one second more than an int64 of nanoseconds holds.
use go_payment.Prelude.{
  ◌≡◌, ◌↔◌, refl, none, some, pos, negsuc, IsInt64, str_eq, wrap64, if◌then◌else◌,
}
use go_payment.Config.{Environment, load, nanoseconds}
use go_payment.Config.Durations.{jwt_ttl_seconds}

abbrev long_lived : Environment
long_lived = record {
  getenv = λ key. if str_eq key "JWT_TTL" then "9223372037" else "";
  parse_duration = λ v. none;
  atoi = λ v. some (pos 9_223_372_037);
}

jwt_ttl_seconds_example :
    ((load long_lived "identity").jwt_ttl ≡ nanoseconds (pos 9_223_372_037))
    ↔ IsInt64 (nanoseconds (pos 9_223_372_037))
jwt_ttl_seconds_example = jwt_ttl_seconds long_lived "identity" (pos 9_223_372_037) refl refl refl

expired_at_birth : (load long_lived "identity").jwt_ttl ≡ negsuc 9_223_372_036_709_551_615
unfolding load wrap64
expired_at_birth = refl
