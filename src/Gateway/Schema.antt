-- ===== src/Gateway/Schema.antt =====
-- What the answers of the gateway's handlers look like: the JSON fields of each route and the errors.
use Prim.Native.String.{slice, len}
use package.text.Mathlib.Text.{starts_with}
use go_payment.Prelude.{
  str_eq, if◌then◌else◌, Bool-cases, ◌≡◌, ◌⊎◌, refl, inl, inr, ℕ, String, Bool, true, false, Option,
  none, some, List, [], ◌∷◌, ◌==◌, ◌||◌,
}
use go_payment.Errors.{Code}
use go_payment.Exec.{Exec, Result-cases}
use go_payment.Identity.Token.{Claims, parse}
use go_payment.Transfer.Service.{CreateRequest}
use go_payment.Gateway.Respond.{
  Value, text, int, nat, flag, Response, http_status, write_err, write_grpc_err,
}
use go_payment.Gateway.Handler.{
  Route, healthz, register, login, create_wallet, get_balance, get_transfer, create_transfer,
  Request, Gateway, WalletClient, TransferClient, TransferBody, create_wallet_with,
  get_balance_with, create_transfer_with, get_transfer_with, registered, logged_in, balance_found,
  transfer_created, transfer_found, Handler, wallet_created, answer, auth, serve, do_register,
  do_login, do_create_wallet, do_get_balance, do_create_transfer, do_get_transfer,
}

-- The type of a JSON value.
pub data Kind : Type 0 where
  string number boolean : Kind

abbrev pub kind : Value → Kind
kind (text s) = string
kind (int n) = number
kind (nat n) = number
kind (flag b) = boolean

abbrev pub shape : List (String × Value) → List (String × Kind)
shape [] = []
shape ((name, v) ∷ fields) = (name, kind v) ∷ shape fields

-- What a route answers when nothing fails: the status and the fields, sorted by name.
abbrev pub success : Route → ℕ × List (String × Kind)
success healthz = (200, ("status", string) ∷ [])
success (register b) = (201, ("email", string) ∷ ("role", string) ∷ ("user_id", string) ∷ [])
success (login b) = (
  200,
  ("email", string)
      ∷ ("expires_at", number)
      ∷ ("role", string)
      ∷ ("token", string)
      ∷ ("user_id", string)
      ∷ [],
)
success (create_wallet b) =
    (201, ("currency", string) ∷ ("user_id", string) ∷ ("wallet_id", string) ∷ [])
success (get_balance id) = (
  200,
  ("balance_minor", number)
      ∷ ("currency", string)
      ∷ ("version", number)
      ∷ ("wallet_id", string)
      ∷ [],
)
success (create_transfer b) = (
  200,
  ("amount_minor", number)
      ∷ ("idempotent_replay", boolean)
      ∷ ("status", string)
      ∷ ("transfer_id", string)
      ∷ [],
)
success (get_transfer id) = (
  200,
  ("amount_minor", number)
      ∷ ("currency", string)
      ∷ ("from_wallet_id", string)
      ∷ ("status", string)
      ∷ ("to_wallet_id", string)
      ∷ ("transfer_id", string)
      ∷ [],
)

abbrev pub mem : ℕ → List ℕ → Bool
mem n [] = false
mem n (m ∷ ms) = (n == m) || mem n ms

abbrev pub error_statuses : List ℕ
error_statuses = 400 ∷ 401 ∷ 403 ∷ 404 ∷ 409 ∷ 500 ∷ 503 ∷ []

abbrev pub IsError : Response → Type 0
IsError r =
    (mem r.code error_statuses ≡ true) × ((msg : String) × (r.body ≡ ("error", text msg) ∷ []))

abbrev pub FitsRoute : Route → Response → Type 0
FitsRoute route r = ((r.code ≡ (success route).0) × (shape r.body ≡ (success route).1)) ⊎ IsError r

http_status-mem : (c : Code) → mem (http_status c) error_statuses ≡ true
unfolding http_status
http_status-mem Code.invalid_argument = refl
http_status-mem Code.not_found = refl
http_status-mem Code.already_exists = refl
http_status-mem Code.permission_denied = refl
http_status-mem Code.unauthenticated = refl
http_status-mem Code.failed_precondition = refl
http_status-mem Code.aborted = refl
http_status-mem Code.internal = refl
http_status-mem Code.unavailable = refl
http_status-mem Code.deadline_exceeded = refl
http_status-mem Code.unknown = refl

write_grpc_err-IsError : (e : Option (Code × String)) → IsError (write_grpc_err e)
unfolding write_grpc_err
write_grpc_err-IsError none = (refl, ("internal error", refl))
write_grpc_err-IsError (some (c, m)) = (http_status-mem c, (m, refl))

module _ {S : Type 0} (h : Gateway S) where
  answer-Fits :
      {A : Type 0} (route : Route) (m : Exec S A) (f : A → Response) (s : S)
      → ((a : A) → FitsRoute route (f a))
      → FitsRoute route (answer h m f s).0
  answer-Fits route m f s fits = elim (Result-cases (m s).0) [
    | inl (a, e) ↦ rw e (fits a)
    | inr (x, e) ↦ rw e (inr (write_grpc_err-IsError (h.from_error x)))
  ]

  auth-Fits :
      (route : Route) (hdr : String) (next : Claims → Handler S) (s : S)
      → ((c : Claims) → FitsRoute route (next c s).0)
      → FitsRoute route (auth h hdr next s).0
  unfolding auth
  auth-Fits route hdr next s fits = elim (Bool-cases (starts_with hdr "Bearer ")) [
    | inl bearer ↦ elim (Result-cases (parse h.jwt h.tokens (slice hdr 7 (len hdr)))) [
      | inl (c, read) ↦ rw (bearer, read) (fits c)
      | inr (e, bad) ↦ rw (bearer, bad) (inr (refl, ("invalid token", refl)))
    ]
    | inr bare ↦ rw bare (inr (refl, ("missing bearer token", refl)))
  ]

  invalid_json : (route : Route) → FitsRoute route (write_err 400 "invalid json")
  invalid_json route = inr (refl, ("invalid json", refl))

  create_wallet_with-Fits :
      (b : Option String) (w : Option (WalletClient S)) (user currency : String) (s : S)
      → FitsRoute (create_wallet b) (create_wallet_with h w user currency s).0
  create_wallet_with-Fits b none user currency s = inr (refl, ("wallet unavailable", refl))
  create_wallet_with-Fits b (some w) user currency s =
      answer-Fits (create_wallet b) (w.create_wallet user currency) (wallet_created h) s
        (λ a. inl (refl, refl))

  get_balance_with-Fits :
      (id : String) (w : Option (WalletClient S)) (s : S)
      → FitsRoute (get_balance id) (get_balance_with h w id s).0
  get_balance_with-Fits id none s = inr (refl, ("wallet unavailable", refl))
  get_balance_with-Fits id (some w) s =
      answer-Fits (get_balance id) (w.get_balance id) (balance_found h) s (λ a. inl (refl, refl))

  create_transfer_with-Fits :
      (b : Option TransferBody) (t : Option (TransferClient S)) (q : CreateRequest) (s : S)
      → FitsRoute (create_transfer b) (create_transfer_with h t q s).0
  create_transfer_with-Fits b none q s = inr (refl, ("transfer unavailable", refl))
  create_transfer_with-Fits b (some t) q s =
      answer-Fits (create_transfer b) (t.create_transfer q) (transfer_created h) s
        (λ a. inl (refl, refl))

  get_transfer_with-Fits :
      (id : String) (t : Option (TransferClient S)) (s : S)
      → FitsRoute (get_transfer id) (get_transfer_with h t id s).0
  get_transfer_with-Fits id none s = inr (refl, ("transfer unavailable", refl))
  get_transfer_with-Fits id (some t) s =
      answer-Fits (get_transfer id) (t.get_transfer id) (transfer_found h) s (λ a. inl (refl, refl))

  route-Fits :
      (hdr key : String) (route : Route) (s : S)
      → FitsRoute route
          (serve h (record { authorization = hdr; idempotency_key = key; route = route }) s).0
  unfolding serve do_register do_login do_create_wallet do_get_balance do_create_transfer
      do_get_transfer
  route-Fits hdr key healthz s = inl (refl, refl)
  route-Fits hdr key (register none) s = invalid_json (register none)
  route-Fits hdr key (register (some b)) s =
      answer-Fits (register (some b)) (h.identity.register b.email b.password) (registered h) s
        (λ a. inl (refl, refl))
  route-Fits hdr key (login none) s = invalid_json (login none)
  route-Fits hdr key (login (some b)) s =
      answer-Fits (login (some b)) (h.identity.login b.email b.password) (logged_in h) s
        (λ a. inl (refl, refl))
  route-Fits hdr key (create_wallet none) s =
      auth-Fits (create_wallet none) hdr (λ c. do_create_wallet h c none) s
        (λ c. invalid_json (create_wallet none))
  route-Fits hdr key (create_wallet (some cur)) s =
      auth-Fits (create_wallet (some cur)) hdr (λ c. do_create_wallet h c (some cur)) s
        (λ c.
          create_wallet_with-Fits (some cur) h.wallet c.user_id
            (if str_eq cur "" then "RUB" else cur) s)
  route-Fits hdr key (get_balance id) s =
      auth-Fits (get_balance id) hdr (λ c. do_get_balance h id) s
        (λ c. get_balance_with-Fits id h.wallet s)
  route-Fits hdr key (create_transfer none) s =
      auth-Fits (create_transfer none) hdr (λ c. do_create_transfer h c key none) s
        (λ c. invalid_json (create_transfer none))
  route-Fits hdr key (create_transfer (some b)) s =
      auth-Fits (create_transfer (some b)) hdr (λ c. do_create_transfer h c key (some b)) s
        (λ c. create_transfer_with-Fits (some b) h.transfer _ s)
  route-Fits hdr key (get_transfer id) s =
      auth-Fits (get_transfer id) hdr (λ c. do_get_transfer h id) s
        (λ c. get_transfer_with-Fits id h.transfer s)

  -- Whatever the clients answer and whether or not they are there, a request for one of the seven
  -- routes of the gateway is answered with the success status of its route and the JSON fields of
  -- that route, with their names and types and sorted by name, or one of the statuses 400, 401,
  -- 403, 404, 409, 500 and 503 with an object of one text field, error.
  pub serve-Fits : (q : Request) (s : S) → FitsRoute q.route (serve h q s).0
  serve-Fits q s = route-Fits q.authorization q.idempotency_key q.route s
