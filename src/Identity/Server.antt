-- ===== src/Identity/Server.antt =====
-- internal/identity/adapters/grpc/server.go
use Prim.Native.Char.{Char}
use Prim.Native.Nat.{◌/◌}
use go_payment.Prelude.{ℕ, String, ◌||◌, if◌then◌else◌}
use go_payment.Errors.{GoError, Code, Sentinel, status, is, text}
use go_payment.Exec.{Result, ok, err, Exec, pure, fail, attempt, ◌>>=◌}
use go_payment.Uuid.{Uuid, Time, UuidPackage}
use go_payment.Identity.Domain.{Bcrypt}
use go_payment.Identity.Service
use go_payment.Identity.Service.{UserRepository, RegisterResult}
use go_payment.Identity.Token.{JwtPackage, TokenManager}

-- mapErr
unfoldable pub map_err : GoError → GoError
map_err e =
    if is e Sentinel.bad_credentials
    then status Code.unauthenticated (text e)
    else if is e Sentinel.already_exists
    then status Code.already_exists (text e)
    else if is e Sentinel.not_found
    then status Code.not_found (text e)
    else if is e Sentinel.invalid_argument
        || is e Sentinel.invalid_email
        || is e Sentinel.invalid_password
    then status Code.invalid_argument (text e)
    else status Code.internal "internal error"

abbrev pub answered : {S A : Type 0} → Result A → Exec S A
answered (ok a) = pure a
answered (err e) = fail (map_err e)

pub record LoginResponse : Type 0 where
  pub token : String
  pub user_id : String
  pub email : String
  pub role : String
  pub expires_at_unix : ℕ

-- the seconds of a time in nanoseconds
abbrev pub unix : Time → ℕ
unix t = t / 1_000_000_000

module _ {S : Type 0} (uuid : UuidPackage) (bcrypt : Bcrypt) (lower : Char → Char)
    (users : UserRepository S) where
  -- RegisterResponse has the fields of RegisterResult.
  unfoldable pub register : Uuid → Time → String → String → Exec S RegisterResult
  register id now email password = do
    r ← attempt (Service.register uuid bcrypt lower users id now email password)
    answered r

  unfoldable pub login :
      JwtPackage → TokenManager → Time → String → String → String → Exec S LoginResponse
  login jwt tokens now token_id email password = do
    r ← attempt (Service.login uuid bcrypt lower users jwt tokens now token_id email password)
    res ← answered r
    pure (record {
      token = res.token;
      user_id = res.user_id;
      email = res.email;
      role = res.role;
      expires_at_unix = unix res.expires_at;
    })

  unfoldable pub get_user : String → Exec S RegisterResult
  get_user user_id = do
    r ← attempt (Service.get_user uuid bcrypt lower users user_id)
    u ← answered r
    pure (record { user_id = uuid.to_string u.id; email = u.email; role = u.role })
