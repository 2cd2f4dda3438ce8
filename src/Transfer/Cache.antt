-- ===== src/Transfer/Cache.antt =====
-- internal/transfer/adapters/redis/cache.go. The Redis client is a parameter: its GET and SET with
-- an expiry, over a state of its own.
use Prim.Native.String.{◌++◌}
use go_payment.Prelude.{ℕ, String, Option}
use go_payment.Exec.{Exec}
use go_payment.Transfer.Ports.{IdempotencyCache}

pub record RedisClient (S : Type 0) : Type 0 where
  -- Get(...).Result(); the error redis.Nil is `none`
  pub get : String → Exec S (Option String)
  -- Set(..., ttl).Err(), the ttl in nanoseconds
  pub set : String → String → ℕ → Exec S (Unit {0})

-- 24 * time.Hour
abbrev pub ttl : ℕ
ttl = 86_400_000_000_000

abbrev pub redis_key : String → String
redis_key key = "idempotency:transfer:" ++ key

module _ {S : Type 0} (rdb : RedisClient S) where
  unfoldable pub get : String → Exec S (Option String)
  get key = rdb.get (redis_key key)

  unfoldable pub set : String → String → Exec S (Unit {0})
  set key transfer_id = rdb.set (redis_key key) transfer_id ttl

  abbrev pub redis_cache : IdempotencyCache S
  redis_cache = record { get = get; set = set }
