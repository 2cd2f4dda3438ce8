-- ===== src/Config/Durations.antt =====
-- The token lifetime that JWT_TTL gives.
use go_payment.Prelude.{
  ◌≡◌, ◌↔◌, subst, String, none, some, false, ℤ, IsInt64, str_eq, wrap64-IsInt64, wrap64_exact,
}
use go_payment.Config.{Environment, load, nanoseconds}

module _ (env : Environment) (service : String) where
  -- When JWT_TTL is set to a whole number of seconds that time.ParseDuration does not take and
  -- strconv.Atoi reads, the lifetime that Load gives is that number of seconds exactly when its
  -- nanoseconds fit an int64.
  pub jwt_ttl_seconds :
      (sec : ℤ)
      → str_eq (env.getenv "JWT_TTL") "" ≡ false
      → env.parse_duration (env.getenv "JWT_TTL") ≡ none
      → env.atoi (env.getenv "JWT_TTL") ≡ some sec
      → ((load env service).jwt_ttl ≡ nanoseconds sec) ↔ IsInt64 (nanoseconds sec)
  unfolding load
  jwt_ttl_seconds sec set unparsed read =
      rw (set, unparsed, read)
        (
          λ exact. subst IsInt64 exact (wrap64-IsInt64 (nanoseconds sec)),
          wrap64_exact (nanoseconds sec),
        )
