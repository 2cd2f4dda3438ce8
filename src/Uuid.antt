-- ===== src/Uuid.antt =====
-- github.com/google/uuid as the services use it, and the clock. The package is a parameter: a UUID
-- is a number that names it, since the code only compares UUIDs, stores them and prints them.
use Prim.Native.Nat.{◌-◌}
use go_payment.Prelude.{ℕ, suc, ◌+◌, ℤ, pos, negsuc, String, ◌≡◌, Option, some}

abbrev pub Uuid : Type 0
Uuid = ℕ

-- time.Time in UTC, as nanoseconds
abbrev pub Time : Type 0
Time = ℕ

-- time.Duration's second
abbrev pub second : ℕ
second = 1_000_000_000

-- Time.Add, of a duration in nanoseconds; no time before 1970 is represented.
abbrev pub later_by : Time → ℤ → Time
later_by t (pos n) = t + n
later_by t (negsuc n) = t - suc n

pub record UuidPackage : Type 0 where
  -- uuid.Parse; `none` is its error
  pub parse : String → Option Uuid
  -- UUID.String
  pub to_string : Uuid → String

-- Documented of the package: Parse reads what String prints.
abbrev pub ReadsBack : UuidPackage → Type 0
ReadsBack p = (u : Uuid) → p.parse (p.to_string u) ≡ some u

-- The results of uuid.New and time.Now at the n-th time that a loop calls them.
pub record Source : Type 0 where
  pub id : ℕ → Uuid
  pub time : ℕ → Time
