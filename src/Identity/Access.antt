-- ===== src/Identity/Access.antt =====
-- Registration and login together, on PostgreSQL with every call served and no other session.
use Prim.Native.Char.{Char}
use Prim.Native.String.{len}
use go_payment.Prelude.{
  ◌≡◌, refl, String, true, false, none, some, [], ◌∷◌, ◌++◌, arith, str_eq, eq_iff, ltb,
}
use go_payment.Errors.{Sentinel, sentinel, is}
use go_payment.Exec.{ok, err}
use go_payment.Database.{quiet, query, exec}
use go_payment.Uuid.{Uuid, Time, UuidPackage, later_by}
use go_payment.Identity.Text.{contains_at}
use go_payment.Identity.Domain.{User, Bcrypt, normalise, new_user, check_password}
use go_payment.Identity.Token.{Claims, JwtPackage, TokenManager, issue}
use go_payment.Identity.Service.{register, login}
use go_payment.Identity.Postgres.{
  Users, find_by_email, find_by_id, insert_user, pg_users, create, get_by_email,
}

find_by_email-append :
    (email : String) (u : User) (us : Users)
    → u.email ≡ email
    → find_by_email email us ≡ none
    → find_by_email email (us ++ u ∷ []) ≡ some u
unfolding find_by_email
find_by_email-append email u [] h new = ground (arith, eq_iff u.email email)
find_by_email-append email u (x ∷ us) h new = ground (arith, find_by_email-append email u us h)

module _ (uuid : UuidPackage) (bcrypt : Bcrypt) (lower : Char → Char) (jwt : JwtPackage)
    (tokens : TokenManager) (us : Users) where
  abbrev pub registered : Uuid → Time → String → String → User
  registered id now email hash = record {
    id = id;
    email = normalise lower email;
    password_hash = hash;
    role = "user";
    created_at = now;
  }

  abbrev pub claims_of : User → Time → String → Claims
  claims_of u now token_id = record {
    user_id = uuid.to_string u.id;
    email = u.email;
    role = u.role;
    issuer = tokens.issuer;
    subject = uuid.to_string u.id;
    expires_at = jwt.numeric_date (later_by now tokens.ttl);
    issued_at = jwt.numeric_date now;
    id = token_id;
  }

  -- With every database call served and no other session, for a valid e-mail that nobody has, a
  -- long enough password, a hash that matches it and a signature: Register stores the user, and
  -- Login with any spelling of the e-mail that normalises to the same succeeds with the id, the
  -- role and the time the token expires.
  pub register_login :
      (id : Uuid) (now later : Time) (token_id email email' password hash token : String)
      → str_eq (normalise lower email) "" ≡ false
      → contains_at (normalise lower email) ≡ true
      → ltb (len password) 8 ≡ false
      → bcrypt.generate password ≡ ok hash
      → bcrypt.matches hash password ≡ true
      → find_by_id id us ≡ none
      → find_by_email (normalise lower email) us ≡ none
      → normalise lower email' ≡ normalise lower email
      → let u = registered id now email hash in
        jwt.sign (claims_of u later token_id) tokens.secret ≡ ok token
        → (register uuid bcrypt lower pg_users id now email password (quiet us) ≡ (
          ok (record { user_id = uuid.to_string id; email = normalise lower email; role = "user" }),
          quiet (us ++ u ∷ []),
        ))
          × (login uuid bcrypt lower pg_users jwt tokens later token_id email' password
                (quiet (us ++ u ∷ []))
              ≡ (
                ok (record {
                  token = token;
                  user_id = uuid.to_string id;
                  email = normalise lower email;
                  role = "user";
                  expires_at = later_by later tokens.ttl;
                }),
                quiet (us ++ u ∷ []),
              ))
  unfolding register login new_user create exec insert_user get_by_email query check_password issue
  register_login id now later token_id email email' password hash token full at long hashes matches
        new_id new_email same signs =
      (
        rw (full, at, long, hashes, new_id, new_email),
        rw (
          same,
          find_by_email-append (normalise lower email) (registered id now email hash) us refl
              new_email,
          matches,
          signs,
        ),
      )

  -- With every database call served and no other session, Login answers an unknown e-mail and a
  -- wrong password with the same error, and changes nothing.
  pub login_failures_alike :
      (now : Time) (token_id email email' password password' : String) (u : User)
      → find_by_email (normalise lower email) us ≡ none
      → find_by_email (normalise lower email') us ≡ some u
      → bcrypt.matches u.password_hash password' ≡ false
      → (login uuid bcrypt lower pg_users jwt tokens now token_id email password (quiet us)
          ≡ (err (sentinel Sentinel.bad_credentials), quiet us))
        × (login uuid bcrypt lower pg_users jwt tokens now token_id email' password' (quiet us)
            ≡ (err (sentinel Sentinel.bad_credentials), quiet us))
  unfolding login get_by_email query check_password is
  login_failures_alike now token_id email email' password password' u none_there there wrong =
      (rw none_there, rw (there, wrong))
