-- ===== src/Gateway/Handler.antt =====
-- internal/gateway/httpapi/handler.go. A request is its route, with the JSON body as the handler's
-- struct (`none` where it does not decode) and the path's parameter, and its headers. The generated
-- clients are parameters; one that is nil is `none`.
use Prim.Native.String.{slice, len}
use package.text.Mathlib.Text.{starts_with}
use go_payment.Prelude.{ℕ, String, Option, none, some, [], ◌∷◌, ℤ, str_eq, if◌then◌else◌}
use go_payment.Errors.{GoError, Code}
use go_payment.Exec.{Result, ok, err, Exec}
use go_payment.Identity.Token.{JwtPackage, TokenManager, Claims, parse}
use go_payment.Identity.Server.{LoginResponse}
use go_payment.Identity.Service.{RegisterResult}
use go_payment.Wallet.Server.{CreateWalletResponse, GetBalanceResponse}
use go_payment.Transfer.Server.{CreateTransferResponse, GetTransferResponse}
use go_payment.Transfer.Service.{CreateRequest}
use go_payment.Gateway.Respond.{
  text, int, nat, flag, Response, write_json, write_err, write_grpc_err,
}

pub record Credentials : Type 0 where
  pub email : String
  pub password : String

pub record TransferBody : Type 0 where
  pub from_wallet_id : String
  pub to_wallet_id : String
  pub amount_minor : ℤ
  pub currency : String

pub data Route : Type 0 where
  healthz : Route
  register login : Option Credentials → Route
  -- the body's currency
  create_wallet : Option String → Route
  get_balance get_transfer : String → Route
  create_transfer : Option TransferBody → Route

pub record Request : Type 0 where
  pub authorization : String
  pub idempotency_key : String
  pub route : Route

pub record IdentityClient (S : Type 0) : Type 0 where
  pub register : String → String → Exec S RegisterResult
  pub login : String → String → Exec S LoginResponse

pub record WalletClient (S : Type 0) : Type 0 where
  pub create_wallet : String → String → Exec S CreateWalletResponse
  pub get_balance : String → Exec S GetBalanceResponse

pub record TransferClient (S : Type 0) : Type 0 where
  pub create_transfer : CreateRequest → Exec S CreateTransferResponse
  pub get_transfer : String → Exec S GetTransferResponse

pub record Gateway (S : Type 0) : Type 0 where
  pub identity : IdentityClient S
  pub wallet : Option (WalletClient S)
  pub transfer : Option (TransferClient S)
  pub jwt : JwtPackage
  pub tokens : TokenManager
  -- status.FromError
  pub from_error : GoError → Option (Code × String)

-- A handler always answers.
abbrev pub Handler : Type 0 → Type 0
Handler S = S → Response × S

module _ {S : Type 0} (h : Gateway S) where
  abbrev pub reply : {A : Type 0} → (A → Response) → Result A → Response
  reply f (ok a) = f a
  reply f (err e) = write_grpc_err (h.from_error e)

  abbrev pub answer : {A : Type 0} → Exec S A → (A → Response) → Handler S
  answer m f s = let (r, s') = m s in (reply f r, s')

  abbrev pub refuse : ℕ → String → Handler S
  refuse code msg s = (write_err code msg, s)

  abbrev pub registered : RegisterResult → Response
  registered r =
      write_json 201
        (("user_id", text r.user_id) ∷ ("email", text r.email) ∷ ("role", text r.role) ∷ [])

  unfoldable pub do_register : Option Credentials → Handler S
  do_register none = refuse 400 "invalid json"
  do_register (some body) = answer (h.identity.register body.email body.password) registered

  abbrev pub logged_in : LoginResponse → Response
  logged_in r = write_json 200 (
      ("token", text r.token)
      ∷ ("user_id", text r.user_id)
      ∷ ("email", text r.email)
      ∷ ("role", text r.role)
      ∷ ("expires_at", nat r.expires_at_unix)
      ∷ [])

  unfoldable pub do_login : Option Credentials → Handler S
  do_login none = refuse 400 "invalid json"
  do_login (some body) = answer (h.identity.login body.email body.password) logged_in

  abbrev pub wallet_created : CreateWalletResponse → Response
  wallet_created r = write_json 201 (
      ("wallet_id", text r.wallet_id)
      ∷ ("user_id", text r.user_id)
      ∷ ("currency", text r.currency)
      ∷ [])

  abbrev pub create_wallet_with : Option (WalletClient S) → String → String → Handler S
  create_wallet_with none user currency = refuse 503 "wallet unavailable"
  create_wallet_with (some w) user currency = answer (w.create_wallet user currency) wallet_created

  unfoldable pub do_create_wallet : Claims → Option String → Handler S
  do_create_wallet claims none = refuse 400 "invalid json"
  do_create_wallet claims (some currency) =
      create_wallet_with h.wallet claims.user_id (if str_eq currency "" then "RUB" else currency)

  abbrev pub balance_found : GetBalanceResponse → Response
  balance_found r = write_json 200 (
      ("wallet_id", text r.wallet_id)
      ∷ ("balance_minor", int r.balance_minor)
      ∷ ("currency", text r.currency)
      ∷ ("version", int r.version)
      ∷ [])

  abbrev pub get_balance_with : Option (WalletClient S) → String → Handler S
  get_balance_with none id = refuse 503 "wallet unavailable"
  get_balance_with (some w) id = answer (w.get_balance id) balance_found

  unfoldable pub do_get_balance : String → Handler S
  do_get_balance id = get_balance_with h.wallet id

  abbrev pub transfer_created : CreateTransferResponse → Response
  transfer_created r = write_json 200 (
      ("transfer_id", text r.transfer_id)
      ∷ ("status", text r.status)
      ∷ ("amount_minor", int r.amount_minor)
      ∷ ("idempotent_replay", flag r.idempotent_replay)
      ∷ [])

  abbrev pub create_transfer_with : Option (TransferClient S) → CreateRequest → Handler S
  create_transfer_with none q = refuse 503 "transfer unavailable"
  create_transfer_with (some t) q = answer (t.create_transfer q) transfer_created

  unfoldable pub do_create_transfer : Claims → String → Option TransferBody → Handler S
  do_create_transfer claims key none = refuse 400 "invalid json"
  do_create_transfer claims key (some body) = create_transfer_with h.transfer (record {
    from_id = body.from_wallet_id;
    to_id = body.to_wallet_id;
    amount = body.amount_minor;
    currency = body.currency;
    key = key;
    user_id = claims.user_id;
  })

  abbrev pub transfer_found : GetTransferResponse → Response
  transfer_found r = write_json 200 (
      ("transfer_id", text r.transfer_id)
      ∷ ("from_wallet_id", text r.from_wallet_id)
      ∷ ("to_wallet_id", text r.to_wallet_id)
      ∷ ("amount_minor", int r.amount_minor)
      ∷ ("currency", text r.currency)
      ∷ ("status", text r.status)
      ∷ [])

  abbrev pub get_transfer_with : Option (TransferClient S) → String → Handler S
  get_transfer_with none id = refuse 503 "transfer unavailable"
  get_transfer_with (some t) id = answer (t.get_transfer id) transfer_found

  unfoldable pub do_get_transfer : String → Handler S
  do_get_transfer id = get_transfer_with h.transfer id

  -- authMiddleware: the next handler gets the claims.
  abbrev pub with_claims : Result Claims → (Claims → Handler S) → Handler S
  with_claims (ok c) next = next c
  with_claims (err e) next = refuse 401 "invalid token"

  unfoldable pub auth : String → (Claims → Handler S) → Handler S
  auth hdr next =
      if starts_with hdr "Bearer "
      then with_claims (parse h.jwt h.tokens (slice hdr 7 (len hdr))) next
      else refuse 401 "missing bearer token"

  -- The routes of New.
  unfoldable pub serve : Request → Handler S
  unfolding auth do_register do_login do_create_wallet do_get_balance do_create_transfer
      do_get_transfer
  serve q = elim q.route [
    | healthz ↦ λ s. (write_json 200 (("status", text "ok") ∷ []), s)
    | register body ↦ do_register body
    | login body ↦ do_login body
    | create_wallet body ↦ auth q.authorization (λ c. do_create_wallet c body)
    | get_balance id ↦ auth q.authorization (λ c. do_get_balance id)
    | create_transfer body ↦ auth q.authorization (λ c. do_create_transfer c q.idempotency_key body)
    | get_transfer id ↦ auth q.authorization (λ c. do_get_transfer id)
  ]
