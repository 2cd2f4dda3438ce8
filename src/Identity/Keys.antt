-- ===== src/Identity/Keys.antt =====
-- Tokens through the JWT library: what Parse makes of a token that Issue has signed, and of one that
-- names another signing method.
use Prim.Native.String.{◌++◌}
use Prim.Native.Nat.{◌-◌, ◌%◌}
use go_payment.Prelude.{
  ◌<◌, ◌≤◌, ◌⊎◌, inl, inr, arith, ltb, Bool-cases, ◌≡◌, refl, String, true, some,
}
use go_payment.Errors.{GoError, Sentinel, sentinel, plain, wrapped, text, is}
use go_payment.Exec.{Result, ok, err}
use go_payment.Uuid.{Time, second, later_by}
use go_payment.Identity.Token.{
  Claims, Method, hs256, another, JwtPackage, TokenManager, issue, parse, key_for,
}

-- Documented of ParseWithClaims: when the key function fails on the token's method, so does it.
abbrev pub HonoursKeys : JwtPackage → (String → Method) → Type 0
HonoursKeys jwt method =
    (token : String) (keys : Method → Result String) (e : GoError)
    → keys (method token) ≡ err e
    → (e' : GoError) × (jwt.parse_with_claims token keys ≡ err e')

-- NewNumericDate rounds down to the second.
abbrev pub whole_second : Time → Time
whole_second t = t - t % second

-- Documented of the library at a time: NewNumericDate truncates to seconds; ParseWithClaims gives back
-- the claims that SignedString has signed, when the key function gives the same key for HS256, the
-- times are whole seconds and the expiry lies ahead; it fails when the expiry does not.
pub record IsLawful (jwt : JwtPackage) (now : Time) : Type 0 where
  pub truncates : (t : Time) → jwt.numeric_date t ≡ whole_second t
  pub reads :
      (c : Claims) (secret token : String) (keys : Method → Result String)
      → jwt.sign c secret ≡ ok token
      → whole_second c.expires_at ≡ c.expires_at
      → whole_second c.issued_at ≡ c.issued_at
      → now < c.expires_at
      → keys hs256 ≡ ok secret
      → jwt.parse_with_claims token keys ≡ ok (record { claims = some c; valid = true })
  pub expires :
      (c : Claims) (secret token : String) (keys : Method → Result String)
      → jwt.sign c secret ≡ ok token
      → whole_second c.expires_at ≡ c.expires_at
      → c.expires_at ≤ now
      → keys hs256 ≡ ok secret
      → (e : GoError) × (jwt.parse_with_claims token keys ≡ err e)

whole_second_twice : (t : Time) → whole_second (whole_second t) ≡ whole_second t
whole_second_twice t = omega arith

module _ (jwt : JwtPackage) (m : TokenManager) where
  -- For a JWT library that fails when the key function does, a token whose header names another
  -- method than HS256 is refused as ErrInvalidToken.
  pub parse_wants_hs256 :
      (method : String → Method) (token alg : String)
      → HonoursKeys jwt method
      → method token ≡ another alg
      → (e : GoError) × (parse jwt m token ≡ err e) × (is e Sentinel.invalid_token ≡ true)
  unfolding parse key_for is
  parse_wants_hs256 method token alg honours names =
      let (e, refused) =
        honours token (key_for jwt m) (plain ("unexpected signing method: " ++ alg))
          (rw names refl) in
      rw refused (_, refl, refl)

  -- For a JWT library that truncates NumericDates to seconds, gives back the claims it has signed
  -- until they expire and refuses them from then on: Issue returns the token with its expiry to
  -- the nanosecond; Parse under the same secret reads the id, the e-mail and the role that were
  -- given, with both times cut to the second, at any time before the cut expiry, and fails with
  -- ErrInvalidToken at any time from it on, so up to a second before the expiry that Issue has
  -- returned.
  pub issue_parse :
      (m' : TokenManager) (issued now : Time) (id user_id email role token : String)
      → let expiry = later_by issued m.ttl in
        let c : Claims = record {
          user_id = user_id;
          email = email;
          role = role;
          issuer = m.issuer;
          subject = user_id;
          expires_at = whole_second expiry;
          issued_at = whole_second issued;
          id = id;
        } in
        IsLawful jwt now
        → jwt.sign c m.secret ≡ ok token
        → m'.secret ≡ m.secret
        → (issue jwt m issued id user_id email role ≡ ok (token, expiry))
          × (((now < whole_second expiry) × (parse jwt m' token ≡ ok c))
              ⊎ ((whole_second expiry ≤ now)
                  × ((e : GoError) × (parse jwt m' token ≡ err e)
                      × (is e Sentinel.invalid_token ≡ true))))
  unfolding issue parse key_for is
  issue_parse m' issued now id user_id email role token lawful signs same =
      let expiry = later_by issued m.ttl in
      (
        rw (lawful.truncates expiry, lawful.truncates issued, signs) refl,
        elim (Bool-cases (ltb now (whole_second expiry))) [
          | inl before ↦
              let early : now < whole_second expiry = ground (arith, before) in
              inl (
                early,
                rw
                    (lawful.reads _ m.secret token (key_for jwt m') signs
                      (whole_second_twice expiry) (whole_second_twice issued) early (rw same refl))
                    refl,
              )
          | inr after ↦
              let late : whole_second expiry ≤ now = ground (arith, after) in
              let (e, fails) =
                lawful.expires _ m.secret token (key_for jwt m') signs (whole_second_twice expiry)
                  late (rw same refl) in
              inr (
                late,
                (
                  wrapped "" (sentinel Sentinel.invalid_token) (": " ++ text e),
                  rw fails refl,
                  refl,
                ),
              )
        ],
      )
