-- ===== src/Errors.antt =====
-- Go's `error` values: the sentinel errors of pkg/errors and of each package, the wrapping of
-- fmt.Errorf with %w, gRPC status errors and the driver's errors.
use Prim.Native.String.{◌++◌}
use go_payment.Prelude.{ℕ, String, Bool, false, Option, none, some, ◌==◌, str_eq}

-- One constructor for each variable made by errors.New; two of them may have the same text.
pub data Sentinel : Type 0 where
  -- pkg/errors
  not_found conflict pkg_insufficient_funds unauthorized invalid_argument : Sentinel
  idempotency_conflict pkg_version_conflict already_exists : Sentinel
  -- internal/wallet/domain
  invalid_amount insufficient_funds invalid_currency version_conflict : Sentinel
  -- internal/transfer/domain, internal/transfer/adapters/walletclient
  invalid_transfer same_wallet circuit_open : Sentinel
  -- internal/identity/domain, pkg/auth
  invalid_email invalid_password bad_credentials invalid_token : Sentinel

-- The identity of the variable, which errors.Is compares.
abbrev pub variable : Sentinel → ℕ
variable not_found = 0
variable conflict = 1
variable pkg_insufficient_funds = 2
variable unauthorized = 3
variable invalid_argument = 4
variable idempotency_conflict = 5
variable pkg_version_conflict = 6
variable already_exists = 7
variable invalid_amount = 8
variable insufficient_funds = 9
variable invalid_currency = 10
variable version_conflict = 11
variable invalid_transfer = 12
variable same_wallet = 13
variable circuit_open = 14
variable invalid_email = 15
variable invalid_password = 16
variable bad_credentials = 17
variable invalid_token = 18

abbrev pub sentinel_text : Sentinel → String
sentinel_text not_found = "not found"
sentinel_text conflict = "conflict"
sentinel_text pkg_insufficient_funds = "insufficient funds"
sentinel_text unauthorized = "unauthorized"
sentinel_text invalid_argument = "invalid argument"
sentinel_text idempotency_conflict = "idempotency key conflict"
sentinel_text pkg_version_conflict = "version conflict"
sentinel_text already_exists = "already exists"
sentinel_text invalid_amount = "amount must be positive"
sentinel_text insufficient_funds = "insufficient funds"
sentinel_text invalid_currency = "invalid currency"
sentinel_text version_conflict = "version conflict"
sentinel_text invalid_transfer = "invalid transfer"
sentinel_text same_wallet = "from and to wallets must differ"
sentinel_text circuit_open = "wallet circuit open"
sentinel_text invalid_email = "invalid email"
sentinel_text invalid_password = "invalid password"
sentinel_text bad_credentials = "bad credentials"
sentinel_text invalid_token = "invalid token"

-- The gRPC status codes that the services return or test.
pub data Code : Type 0 where
  invalid_argument not_found already_exists permission_denied : Code
  unauthenticated failed_precondition aborted internal : Code
  unavailable deadline_exceeded unknown : Code

pub data GoError : Type 0 where
  sentinel : Sentinel → GoError
  -- fmt.Errorf("<before>%w<after>", e)
  wrapped : String → GoError → String → GoError
  -- what status.Error(code, message) makes
  status : Code → String → GoError
  -- a *pgconn.PgError, by its SQLSTATE code
  pg_error : String → GoError
  -- any other error, by its text
  plain : String → GoError

-- errors.Is(err, target)
unfoldable pub is : GoError → Sentinel → Bool
is (sentinel s) t = variable s == variable t
is (wrapped _ e _) t = is e t
is (status _ _) t = false
is (pg_error _) t = false
is (plain _) t = false

-- errors.As(err, &pgErr) && pgErr.Code == code
unfoldable pub has_pg_code : GoError → String → Bool
has_pg_code (sentinel _) code = false
has_pg_code (wrapped _ e _) code = has_pg_code e code
has_pg_code (status _ _) code = false
has_pg_code (pg_error c) code = str_eq c code
has_pg_code (plain _) code = false

-- err.Error(); the text of the driver's and of a status error is the library's own
unfoldable pub text : GoError → String
text (sentinel s) = sentinel_text s
text (wrapped before e after) = before ++ text e ++ after
text (status _ m) = m
text (pg_error c) = c
text (plain m) = m

-- pkg/errors.Wrap, on an error that may be nil
unfoldable pub wrap : Option GoError → String → Option GoError
wrap none msg = none
wrap (some e) msg = some (wrapped (msg ++ ": ") e "")
