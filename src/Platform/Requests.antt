-- ===== src/Platform/Requests.antt =====
-- POST /v1/transfers at the gateway, through every service.
use go_payment.Prelude.{[], ◌∷◌, ◌≡◌, refl, String, some}
use go_payment.Errors.{GoError}
use go_payment.Exec.{Result, ok, err}
use go_payment.Uuid.{UuidPackage, Source}
use go_payment.Transfer.Cache.{RedisClient}
use go_payment.Transfer.Domain.{status_text}
use go_payment.Transfer.Server as TransferServer
use go_payment.Transfer.Service.{CreateRequest, CreateResult, create}
use go_payment.Transfer.WalletClient.{FromError}
use go_payment.Identity.Token.{Claims, JwtPackage, TokenManager}
use go_payment.Gateway.Respond.{Response, write_grpc_err, write_json, text, int, flag}
use go_payment.Gateway.Handler.{
  Gateway, Request, TransferBody, IdentityClient, create_transfer, serve,
}
use go_payment.Gateway.Access.{Carries}
use go_payment.Platform.{System, Fresh, gateway, repo, cache, wallet_calls}

abbrev pub post : String → String → TransferBody → Request
post hdr key body = record {
  authorization = hdr;
  idempotency_key = key;
  route = create_transfer (some body);
}

-- What the transfer service is asked.
abbrev pub asked : Claims → String → TransferBody → CreateRequest
asked claims key body = record {
  from_id = body.from_wallet_id;
  to_id = body.to_wallet_id;
  amount = body.amount_minor;
  currency = body.currency;
  key = key;
  user_id = claims.user_id;
}

module _ (uuid : UuidPackage) (from_error : FromError) where
  -- How the gateway answers a result of Service.Create.
  abbrev pub answer_of : Result CreateResult → Response
  answer_of (ok r) = write_json 200 (
      ("transfer_id", text (uuid.to_string r.transfer.id))
      ∷ ("status", text (status_text r.transfer.status))
      ∷ ("amount_minor", int r.transfer.amount_minor)
      ∷ ("idempotent_replay", flag r.idempotent_replay)
      ∷ [])
  answer_of (err e) = write_grpc_err (from_error (TransferServer.map_err e))

module _ {R : Type 0} (rdb : RedisClient R) (uuid : UuidPackage) (from_error : FromError)
    (src : String → Source) (jwt : JwtPackage) (tokens : TokenManager)
    (identity : IdentityClient (System R)) (parse_error : GoError) where
  abbrev pub site : Fresh → Gateway (System R)
  site = gateway rdb uuid from_error src jwt tokens identity parse_error

  module _ (fresh : Fresh) (hdr key : String) (claims : Claims) (body : TransferBody)
      (carries : Carries (site fresh) hdr claims) where
    abbrev q : CreateRequest
    q = asked claims key body

    -- The gateway answers what Create does.
    pub created_answer :
        (r : Result CreateResult) (s s' : System R)
        → create uuid repo
            (wallet_calls uuid from_error src)
            (cache rdb)
            parse_error
            fresh.transfer
            q
            s
          ≡ (r, s')
        → serve (site fresh) (post hdr key body) s ≡ (answer_of uuid from_error r, s')
    unfolding serve TransferServer.create_transfer
    created_answer (ok r) s s' h = rw (carries.0, carries.1, h) refl
    created_answer (err e) s s' h = rw (carries.0, carries.1, h) refl
