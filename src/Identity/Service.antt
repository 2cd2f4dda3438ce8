-- ===== src/Identity/Service.antt =====
-- internal/identity/ports/repository.go and internal/identity/app/service.go
use Prim.Native.Char.{Char}
use Prim.Native.String.{◌++◌}
use go_payment.Prelude.{String, if◌then◌else◌}
use go_payment.Errors.{GoError, Sentinel, sentinel, wrapped, is, text}
use go_payment.Exec.{Result, ok, err, Exec, pure, fail, lift, attempt, or_fail, ◌>>=◌, ◌>>◌}
use go_payment.Uuid.{Uuid, Time, UuidPackage}
use go_payment.Identity.Domain.{User, Bcrypt, normalise, new_user, check_password}
use go_payment.Identity.Token.{JwtPackage, TokenManager, issue}

pub record UserRepository (S : Type 0) : Type 0 where
  pub create : User → Exec S (Unit {0})
  pub get_by_email : String → Exec S User
  pub get_by_id : Uuid → Exec S User

pub record RegisterResult : Type 0 where
  pub user_id : String
  pub email : String
  pub role : String

pub record LoginResult : Type 0 where
  pub token : String
  pub user_id : String
  pub email : String
  pub role : String
  pub expires_at : Time

-- The error of NewUser, wrapped: pkgerrors.Wrap(ErrInvalidArgument, err.Error()).
abbrev pub invalid_user : GoError → GoError
invalid_user e = wrapped (text e ++ ": ") (sentinel Sentinel.invalid_argument) ""

abbrev pub validated : {S : Type 0} → Result User → Exec S User
validated (ok u) = pure u
validated (err e) = fail (invalid_user e)

-- An unknown e-mail is answered like a wrong password.
abbrev pub known : {S : Type 0} → Result User → Exec S User
known (ok u) = pure u
known (err e) = if is e Sentinel.not_found then fail (sentinel Sentinel.bad_credentials) else fail e

module _ {S : Type 0} (uuid : UuidPackage) (bcrypt : Bcrypt) (lower : Char → Char)
    (users : UserRepository S) where
  -- Service.Register; uuid.New and time.Now come first.
  unfoldable pub register : Uuid → Time → String → String → Exec S RegisterResult
  register id now email password = do
    user ← validated (new_user bcrypt lower id now email password "user")
    users.create user
    pure (record { user_id = uuid.to_string user.id; email = user.email; role = user.role })

  unfoldable pub get_user : String → Exec S User
  get_user user_id = do
    id ← or_fail (uuid.parse user_id) (sentinel Sentinel.invalid_argument)
    users.get_by_id id

  module _ (jwt : JwtPackage) (tokens : TokenManager) where
    -- Service.Login; time.Now and uuid.NewString in Issue come first.
    unfoldable pub login : Time → String → String → String → Exec S LoginResult
    login now token_id email password = do
      r ← attempt (users.get_by_email (normalise lower email))
      user ← known r
      lift (check_password bcrypt user password)
      signed ← lift (issue jwt tokens now token_id (uuid.to_string user.id) user.email user.role)
      pure (record {
        token = signed.0;
        user_id = uuid.to_string user.id;
        email = user.email;
        role = user.role;
        expires_at = signed.1;
      })
