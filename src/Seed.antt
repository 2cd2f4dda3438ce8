-- ===== src/Seed.antt =====
-- scripts/seed/main.go: a user with two wallets, over HTTP. A panic is an error. net/http, encoding/json
-- on the answers, the standard output and fmt's decimal numbers are parameters.
pub mod Fails
mod Tests
use Prim.Native.String.{◌++◌, slice}
use go_payment.Prelude.{ℕ, String, Option, none, some, List, [], ◌∷◌, leb, str_eq, if◌then◌else◌}
use go_payment.Prelude.Map.{lookup}
use go_payment.Errors.{GoError, plain}
use go_payment.Exec.{Result, ok, err, Exec, pure, fail, lift, ◌>>=◌, ◌>>◌}
use go_payment.Gateway.Respond.{Value, text}

-- A POST with its headers and the object that is marshalled. Its content type is JSON.
pub record Post : Type 0 where
  pub url : String
  pub authorization : Option String
  pub body : List (String × String)

-- The status and the bytes of an answer, with what json.Unmarshal makes of these.
pub record Reply : Type 0 where
  pub status : ℕ
  pub raw : String
  pub object : Result (List (String × Value))

pub record Http (S : Type 0) : Type 0 where
  -- the error of http.NewRequest for an address
  pub new_request : String → Option GoError
  -- client.Do
  pub send : Post → Exec S Reply
  -- a line on os.Stdout
  pub print : String → S → S
  -- %d and %s
  pub decimal : ℕ → String
  pub shown : Option Value → String

unfoldable pub env : (String → String) → String → String → String
env getenv k d = if str_eq (getenv k) "" then d else getenv k

abbrev pub bearer : String → Option String
bearer token = if str_eq token "" then none else some ("Bearer " ++ token)

-- login["token"].(string)
abbrev pub string_of : Option Value → Result String
string_of (some (text s)) = ok s
string_of _ = err (plain "interface conversion")

module _ {S : Type 0} (http : Http S) where
  abbrev pub requested : Option GoError → Exec S (Unit {0})
  requested none = pure tt
  requested (some e) = fail e

  abbrev pub checked : String → Reply → Exec S (List (String × Value))
  checked url r =
      if leb 300 r.status
      then fail (plain (url ++ " -> " ++ http.decimal r.status ++ " " ++ r.raw))
      else lift r.object

  unfoldable pub must_post :
      String → String → List (String × String) → Exec S (List (String × Value))
  must_post url token body = do
    requested (http.new_request url)
    r ← http.send (record { url = url; authorization = bearer token; body = body })
    checked url r

  abbrev pub printed : String → Exec S (Unit {0})
  printed line s = (ok tt, http.print line s)

  -- The two wallets, with the token of the login.
  unfoldable pub wallets : String → String → String → Exec S (Unit {0})
  wallets base email token = do
    w1 ← must_post (base ++ "/v1/wallets") token (("currency", "RUB") ∷ [])
    w2 ← must_post (base ++ "/v1/wallets") token (("currency", "RUB") ∷ [])
    printed (
        "seeded user="
        ++ email
        ++ " token="
        ++ token
        ++ " wallet_a="
        ++ http.shown (lookup "wallet_id" w1)
        ++ " wallet_b="
        ++ http.shown (lookup "wallet_id" w2))
    printed "Note: fund wallets via wallet Credit gRPC before transfers."

  -- main; `id` is the text of uuid.NewString.
  unfoldable pub main : (String → String) → String → Exec S (Unit {0})
  main getenv id = do
    let base = env getenv "GATEWAY_URL" "http://localhost:8080"
    let email = "seed-" ++ slice id 0 8 ++ "@example.com"
    let password : String = "password1"
    _ ← must_post (base ++ "/v1/auth/register") "" (("email", email) ∷ ("password", password) ∷ [])
    login ← must_post (base ++ "/v1/auth/login") "" (("email", email) ∷ ("password", password) ∷ [])
    token ← lift (string_of (lookup "token" login))
    wallets base email token
