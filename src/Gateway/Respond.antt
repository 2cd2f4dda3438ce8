-- ===== src/Gateway/Respond.antt =====
-- internal/gateway/httpapi/respond.go. A response is its status and the fields of its JSON object,
-- in the order in which they are sent.
use Prim.Native.Nat.{Ordering}
use Prim.Native.String.{compare}
use go_payment.Prelude.{
  ℕ, String, Bool, true, false, Option, none, some, List, [], ◌∷◌, ℤ, if◌then◌else◌,
}
use go_payment.Errors.{Code}

pub data Value : Type 0 where
  text : String → Value
  int : ℤ → Value
  nat : ℕ → Value
  flag : Bool → Value

pub record Response : Type 0 where
  pub code : ℕ
  pub body : List (String × Value)

abbrev pub precedes : Ordering → Bool
precedes Ordering.gt = false
precedes _ = true

abbrev pub place : String → Value → List (String × Value) → List (String × Value)
place name v [] = (name, v) ∷ []
place name v ((first, w) ∷ fields) =
    if precedes (compare name first)
    then (name, v) ∷ (first, w) ∷ fields
    else (first, w) ∷ place name v fields

-- encoding/json sorts the keys of a map.
abbrev pub by_name : List (String × Value) → List (String × Value)
by_name [] = []
by_name ((name, v) ∷ fields) = place name v (by_name fields)

-- The value is always a map, here the list of its fields.
abbrev pub write_json : ℕ → List (String × Value) → Response
write_json code body = record { code = code; body = by_name body }

abbrev pub write_err : ℕ → String → Response
write_err code msg = write_json code (("error", text msg) ∷ [])

-- The switch of writeGRPCErr.
unfoldable pub http_status : Code → ℕ
http_status Code.invalid_argument = 400
http_status Code.not_found = 404
http_status Code.already_exists = 409
http_status Code.unauthenticated = 401
http_status Code.permission_denied = 403
http_status Code.failed_precondition = 409
http_status Code.unavailable = 503
http_status _ = 500

-- writeGRPCErr, on what status.FromError reads
unfoldable pub write_grpc_err : Option (Code × String) → Response
unfolding http_status
write_grpc_err none = write_err 500 "internal error"
write_grpc_err (some (code, message)) = write_err (http_status code) message
