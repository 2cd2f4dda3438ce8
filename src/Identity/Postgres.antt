-- ===== src/Identity/Postgres.antt =====
-- internal/identity/adapters/postgres/user_repo.go on the table of
-- db/migrations/identity/00001_users.sql.
use go_payment.Prelude.{
  String, Bool, Option, none, some, List, [], ◌∷◌, ◌++◌, ◌==◌, ◌||◌, str_eq, if◌then◌else◌,
}
use go_payment.Errors.{Sentinel, sentinel, pg_error, wrapped, has_pg_code}
use go_payment.Exec.{Result, ok, err, Exec, pure, fail, attempt, ◌>>=◌}
use go_payment.Database.{Session, query, exec}
use go_payment.Uuid.{Uuid}
use go_payment.Identity.Domain.{User}
use go_payment.Identity.Service.{UserRepository}

abbrev pub Users : Type 0
Users = List User

abbrev pub UserExec : Type 0 → Type 0
UserExec A = Exec (Session Users) A

-- SELECT ... WHERE email = $1
unfoldable pub find_by_email : String → Users → Option User
find_by_email email [] = none
find_by_email email (u ∷ us) = if str_eq u.email email then some u else find_by_email email us

-- SELECT ... WHERE id = $1
unfoldable pub find_by_id : Uuid → Users → Option User
find_by_id id [] = none
find_by_id id (u ∷ us) = if u.id == id then some u else find_by_id id us

abbrev pub is_some : {A : Type 0} → Option A → Bool
is_some none = Bool.false
is_some (some _) = Bool.true

-- INSERT INTO users; PRIMARY KEY (id), UNIQUE (email)
unfoldable pub insert_user : User → Users → Result (Unit {0} × Users)
insert_user u us =
    if is_some (find_by_id u.id us) || is_some (find_by_email u.email us)
    then err (pg_error "23505")
    else ok (tt, us ++ u ∷ [])

abbrev pub inserted : Result (Unit {0}) → UserExec (Unit {0})
inserted (ok _) = pure tt
inserted (err e) =
    if has_pg_code e "23505"
    then fail (sentinel Sentinel.already_exists)
    else fail (wrapped "insert user: " e "")

unfoldable pub create : User → UserExec (Unit {0})
create user = do r ← attempt (exec (insert_user user)); inserted r

-- scanUser: no row is ErrNotFound, an error of the driver is wrapped.
abbrev pub scanned : Result (Option User) → UserExec User
scanned (ok none) = fail (sentinel Sentinel.not_found)
scanned (ok (some u)) = pure u
scanned (err e) = fail (wrapped "scan user: " e "")

unfoldable pub get_by_email : String → UserExec User
get_by_email email = do r ← attempt (query (λ us. ok (find_by_email email us))); scanned r

unfoldable pub get_by_id : Uuid → UserExec User
get_by_id id = do r ← attempt (query (λ us. ok (find_by_id id us))); scanned r

abbrev pub pg_users : UserRepository (Session Users)
pg_users = record { create = create; get_by_email = get_by_email; get_by_id = get_by_id }
