-- ===== src/Identity/Domain.antt =====
-- internal/identity/domain/user.go. bcrypt is a parameter.
use Prim.Native.Char.{Char}
use Prim.Native.String.{len}
use go_payment.Prelude.{String, Bool, ltb, ◌||◌, not, str_eq, if◌then◌else◌}
use go_payment.Errors.{Sentinel, sentinel}
use go_payment.Exec.{Result, ok, err}
use go_payment.Uuid.{Uuid, Time}
use go_payment.Identity.Text.{trim_space, to_lower, contains_at}

pub record User : Type 0 where
  pub id : Uuid
  pub email : String
  pub password_hash : String
  pub role : String
  pub created_at : Time

pub record Bcrypt : Type 0 where
  -- GenerateFromPassword with the default cost
  pub generate : String → Result String
  -- CompareHashAndPassword(hash, password) == nil
  pub matches : String → String → Bool

-- strings.TrimSpace(strings.ToLower(email))
unfoldable pub normalise : (Char → Char) → String → String
normalise lower email = trim_space (to_lower lower email)

abbrev pub or_user : String → String
or_user role = if str_eq role "" then "user" else role

abbrev pub hashed : Uuid → Time → String → String → Result String → Result User
hashed id now email role (err e) = err e
hashed id now email role (ok hash) =
    ok (record { id = id; email = email; password_hash = hash; role = role; created_at = now })

-- NewUser; uuid.New and time.Now come first.
unfoldable pub new_user :
    Bcrypt → (Char → Char) → Uuid → Time → String → String → String → Result User
new_user bcrypt lower id now email password role =
    let e = normalise lower email in
    if str_eq e "" || not (contains_at e)
    then err (sentinel Sentinel.invalid_email)
    else if ltb (len password) 8
    then err (sentinel Sentinel.invalid_password)
    else hashed id now e (or_user role) (bcrypt.generate password)

-- User.CheckPassword
unfoldable pub check_password : Bcrypt → User → String → Result (Unit {0})
check_password bcrypt u password =
    if bcrypt.matches u.password_hash password
    then ok tt
    else err (sentinel Sentinel.bad_credentials)
