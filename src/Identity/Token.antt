-- ===== src/Identity/Token.antt =====
-- pkg/auth/jwt.go. The JWT library is a parameter.
use Prim.Native.String.{◌++◌}
use go_payment.Prelude.{ℤ, String, Bool, true, false, Option, none, some}
use go_payment.Errors.{Sentinel, sentinel, wrapped, plain, text}
use go_payment.Exec.{Result, ok, err}
use go_payment.Uuid.{Time, later_by}

-- Claims with its registered claims
pub record Claims : Type 0 where
  pub user_id : String
  pub email : String
  pub role : String
  pub issuer : String
  pub subject : String
  pub expires_at : Time
  pub issued_at : Time
  pub id : String

-- The signing method of a token's header: HS256 or another, by name.
pub data Method : Type 0 where
  hs256 : Method
  another : String → Method

pub record Parsed : Type 0 where
  -- token.Claims.(*Claims)
  pub claims : Option Claims
  pub valid : Bool

pub record JwtPackage : Type 0 where
  -- NewNumericDate
  pub numeric_date : Time → Time
  -- NewWithClaims(SigningMethodHS256, claims).SignedString(secret)
  pub sign : Claims → String → Result String
  -- ParseWithClaims, with the function that gives the key for a method
  pub parse_with_claims : String → (Method → Result String) → Result Parsed

pub record TokenManager : Type 0 where
  pub secret : String
  pub issuer : String
  pub ttl : ℤ

-- NewTokenManager
abbrev pub new_token_manager : String → String → ℤ → TokenManager
new_token_manager secret issuer ttl = record { secret = secret; issuer = issuer; ttl = ttl }

abbrev pub signed : Time → Result String → Result (String × Time)
signed expires (ok t) = ok (t, expires)
signed expires (err e) = err (wrapped "sign token: " e "")

module _ (jwt : JwtPackage) (m : TokenManager) where
  -- Issue; time.Now and uuid.NewString come first.
  unfoldable pub issue : Time → String → String → String → String → Result (String × Time)
  issue now id user_id email role = signed (later_by now m.ttl) (
      jwt.sign
        (record {
          user_id = user_id;
          email = email;
          role = role;
          issuer = m.issuer;
          subject = user_id;
          expires_at = jwt.numeric_date (later_by now m.ttl);
          issued_at = jwt.numeric_date now;
          id = id;
        })
        m.secret)

  -- The key function: the secret for HS256 only.
  unfoldable pub key_for : Method → Result String
  key_for hs256 = ok m.secret
  key_for (another alg) = err (plain ("unexpected signing method: " ++ alg))

  abbrev pub accepted : Option Claims → Bool → Result Claims
  accepted none v = err (sentinel Sentinel.invalid_token)
  accepted (some c) false = err (sentinel Sentinel.invalid_token)
  accepted (some c) true = ok c

  abbrev pub checked : Result Parsed → Result Claims
  checked (ok t) = accepted t.claims t.valid
  checked (err e) = err (wrapped "" (sentinel Sentinel.invalid_token) (": " ++ text e))

  unfoldable pub parse : String → Result Claims
  unfolding key_for
  parse token = checked (jwt.parse_with_claims token key_for)
