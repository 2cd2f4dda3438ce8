-- ===== src/Identity/Tests.antt =====
-- Registration and login at concrete inputs, after identity/app/service_test.go. The hash is the
-- password with a mark before it.
use Prim.Native.Char.{Char}
use Prim.Native.String.{◌++◌}
use go_payment.Prelude.{
  pos, ◌≡◌, ◌⊎◌, ◌≤◌, ◌<◌, refl, String, Bool, true, false, ap, inl, inr, Bool-cases, some, [], ◌∷◌,
  str_eq, eq_iff, arith, if◌then◌else◌, ◌&&◌, ◌==◌, ltb,
}
use go_payment.Errors.{GoError, Sentinel, sentinel, is, plain}
use go_payment.Exec.{Result, ok, err}
use go_payment.Database.{quiet}
use go_payment.Uuid.{Time}
use go_payment.Samples.{unary_uuid, unary}
use go_payment.Identity.Text.{is_space, trim_space, to_lower, contains_at}
use go_payment.Identity.Domain.{User, Bcrypt, normalise}
use go_payment.Identity.Token.{
  Claims, Method, hs256, another, Parsed, JwtPackage, TokenManager, issue, parse,
}
use go_payment.Identity.Keys.{whole_second, HonoursKeys, IsLawful, parse_wants_hs256, issue_parse}
use go_payment.Identity.Service.{register, login}
use go_payment.Identity.Postgres.{pg_users, find_by_email, find_by_id}
use go_payment.Identity.Access.{register_login, login_failures_alike}

abbrev marking : Bcrypt
marking = record { generate = λ p. ok ("#" ++ p); matches = λ h p. str_eq h ("#" ++ p) }

abbrev same_case : Char → Char
same_case c = c

abbrev jwt : JwtPackage
jwt = record {
  numeric_date = whole_second;
  sign = λ c s. ok c.user_id;
  parse_with_claims = λ t key. err (sentinel Sentinel.invalid_token);
}

abbrev tokens : TokenManager
tokens = record { secret = "s"; issuer = "i"; ttl = pos 60_000_000_000 }

abbrev user : User
user = record { id = 3; email = "a@b"; password_hash = "#password"; role = "user"; created_at = 10 }

register_login_example :
    (register unary_uuid marking same_case pg_users 3 10 " a@b" "password" (quiet [])
      ≡ (ok (record { user_id = unary 3; email = "a@b"; role = "user" }), quiet (user ∷ [])))
    × (login unary_uuid marking same_case pg_users jwt tokens 20 "j" "a@b " "password"
          (quiet (user ∷ []))
        ≡ (
          ok (record {
            token = unary 3;
            user_id = unary 3;
            email = "a@b";
            role = "user";
            expires_at = 60_000_000_020;
          }),
          quiet (user ∷ []),
        ))
unfolding normalise trim_space to_lower contains_at find_by_id find_by_email is_space
register_login_example =
    register_login unary_uuid marking same_case jwt tokens [] 3 10 20 "j" " a@b" "a@b " "password"
      "#password" (unary 3) refl refl refl refl refl refl refl refl refl

login_failures_alike_example :
    (login unary_uuid marking same_case pg_users jwt tokens 20 "j" "c@d" "password"
        (quiet (user ∷ []))
      ≡ (err (sentinel Sentinel.bad_credentials), quiet (user ∷ [])))
    × (login unary_uuid marking same_case pg_users jwt tokens 20 "j" "a@b" "wrong"
          (quiet (user ∷ []))
        ≡ (err (sentinel Sentinel.bad_credentials), quiet (user ∷ [])))
unfolding normalise trim_space to_lower find_by_email is_space
login_failures_alike_example =
    login_failures_alike unary_uuid marking same_case jwt tokens (user ∷ []) 20 "j" "c@d" "a@b"
      "password" "wrong" user refl refl refl

-- A JWT package that signs these claims under one secret as one token, and takes any other text for
-- a token of the method it spells.
abbrev claims : Claims
claims = record {
  user_id = "3";
  email = "a@b";
  role = "user";
  issuer = "i";
  subject = "3";
  expires_at = 61_000_000_000;
  issued_at = 1_000_000_000;
  id = "j";
}

abbrev method_of : String → Method
method_of token = if str_eq token "good" then hs256 else another token

abbrev is_claims : Claims → Bool
is_claims c =
    str_eq c.user_id "3"
    && str_eq c.email "a@b"
    && str_eq c.role "user"
    && str_eq c.issuer "i"
    && str_eq c.subject "3"
    && c.expires_at == 61_000_000_000
    && c.issued_at == 1_000_000_000
    && str_eq c.id "j"

abbrev parsed : Time → Result String → Result Parsed
parsed now (ok key) =
    if str_eq key "s" && ltb now 61_000_000_000
    then ok (record { claims = some claims; valid = true })
    else err (plain "not valid")
parsed now (err e) = err e

abbrev one_token : Time → JwtPackage
one_token now = record {
  numeric_date = whole_second;
  sign = λ c s. if is_claims c && str_eq s "s" then ok "good" else err (plain "not signed");
  parse_with_claims = λ token keys. parsed now (keys (method_of token));
}

one_token-HonoursKeys : (now : Time) → HonoursKeys (one_token now) method_of
one_token-HonoursKeys now token keys e h = (e, rw h refl)

is_claims-eq : (c : Claims) → is_claims c ≡ true → c ≡ claims
is_claims-eq c h =
    let user : c.user_id ≡ "3" = ground (arith, h, eq_iff c.user_id "3") in
    let email : c.email ≡ "a@b" = ground (arith, h, eq_iff c.email "a@b") in
    let role : c.role ≡ "user" = ground (arith, h, eq_iff c.role "user") in
    let issuer : c.issuer ≡ "i" = ground (arith, h, eq_iff c.issuer "i") in
    let subject : c.subject ≡ "3" = ground (arith, h, eq_iff c.subject "3") in
    let expires : c.expires_at ≡ 61_000_000_000 = ground (arith, h) in
    let issued : c.issued_at ≡ 1_000_000_000 = ground (arith, h) in
    let id : c.id ≡ "j" = ground (arith, h, eq_iff c.id "j") in
    λ i. record {
      user_id = user i;
      email = email i;
      role = role i;
      issuer = issuer i;
      subject = subject i;
      expires_at = expires i;
      issued_at = issued i;
      id = id i;
    }

signed_claims :
    (now : Time) (c : Claims) (secret token : String)
    → (one_token now).sign c secret ≡ ok token
    → (c ≡ claims) × (secret ≡ "s") × (token ≡ "good")
signed_claims now c secret token signs = elim (Bool-cases (is_claims c && str_eq secret "s")) [
  | inl known ↦ (
    is_claims-eq c (ground (arith, known)),
    ground (arith, known, eq_iff secret "s"),
    ground (arith, signs, known),
  )
  | inr other ↦ absurd (ground (arith, signs, other))
]

one_token-IsLawful : (now : Time) → IsLawful (one_token now) now
one_token-IsLawful now = record {
  truncates = λ t. refl;
  reads = λ c secret token keys signs x y early gives.
      let (is, key, good) = signed_claims now c secret token signs in
      let soon : ltb now 61_000_000_000 ≡ true =
        ground (arith, early, ap (λ (d : Claims). d.expires_at) is) in
      rw (good, gives, key, is, soon) refl;
  expires = λ c secret token keys signs x late gives.
      let (is, key, good) = signed_claims now c secret token signs in
      let over : ltb now 61_000_000_000 ≡ false =
        ground (arith, late, ap (λ (d : Claims). d.expires_at) is) in
      (plain "not valid", rw (good, gives, key, over) refl);
}

parse_wants_hs256_example :
    (e : GoError) × (parse (one_token 0) tokens "none" ≡ err e)
    × (is e Sentinel.invalid_token ≡ true)
parse_wants_hs256_example =
    parse_wants_hs256 (one_token 0) tokens method_of "none" "none" (one_token-HonoursKeys 0) refl

issue_parse_example :
    (issue (one_token 30) tokens 1_000_000_009 "j" "3" "a@b" "user" ≡ ok ("good", 61_000_000_009))
    × (((30 < 61_000_000_000) × (parse (one_token 30) tokens "good" ≡ ok claims))
        ⊎ ((61_000_000_000 ≤ 30)
            × ((e : GoError) × (parse (one_token 30) tokens "good" ≡ err e)
                × (is e Sentinel.invalid_token ≡ true))))
issue_parse_example =
    issue_parse (one_token 30) tokens tokens 1_000_000_009 30 "j" "3" "a@b" "user" "good"
      (one_token-IsLawful 30) refl refl
