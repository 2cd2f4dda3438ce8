-- ===== src/Seed/Fails.antt =====
-- The seed script against the gateway: its second wallet has the currency of the first.
use go_payment.Prelude.{
  ◌≡◌, ◌⊎◌, inl, inr, refl, ap, sym, subst, String, Option, true, none, some, List, [], ◌∷◌, leb,
  Bool-cases, Option-cases,
}
use Prim.Native.String.{◌++◌, slice}
use go_payment.Prelude.Map.{lookup}
use go_payment.Errors.{GoError, Code, plain, text, Sentinel, sentinel}
use go_payment.Exec.{Exec, Result, ok, err, Result-cases}
use go_payment.Database.{quiet}
use go_payment.Uuid.{UuidPackage, Source}
use go_payment.Wallet.Tables.{WalletDb}
use go_payment.Wallet.Currency.{create_wallet_once}
use go_payment.Transfer.Cache.{RedisClient}
use go_payment.Transfer.WalletClient.{FromError}
use go_payment.Transfer.Funds.{ReadsStatus}
use go_payment.Identity.Token.{Claims, JwtPackage, TokenManager}
use go_payment.Gateway.Respond.{Value, http_status, write_grpc_err, Response}
use go_payment.Gateway.Handler.{
  Gateway, Request, IdentityClient, create_wallet, serve, auth, do_create_wallet,
}
use go_payment.Gateway.Access.{Carries, serve_guarded}
use go_payment.Platform.{System, Fresh}
use go_payment.Platform.Requests.{site}
use go_payment.Seed.{Post, Reply, Http, env, bearer, string_of, must_post, wallets, main}

-- The request as the gateway reads it: a header that is not set is empty.
abbrev pub header : Option String → String
header none = ""
header (some h) = h

abbrev pub wallet_request : String → Request
wallet_request token = record {
  authorization = header (bearer token);
  idempotency_key = "";
  route = create_wallet (some "RUB");
}

abbrev pub wallet_body : List (String × String)
wallet_body = ("currency", "RUB") ∷ []

abbrev pub wallet_post : String → String → Post
wallet_post base token = record {
  url = base ++ "/v1/wallets";
  authorization = bearer token;
  body = wallet_body;
}

abbrev pub Fails : {S A : Type 0} → Exec S A → S → Type 0
Fails m s = (e : GoError) × ((m s).0 ≡ err e)

http_status_fails : (c : Code) → leb 300 (http_status c) ≡ true
unfolding http_status
http_status_fails Code.invalid_argument = refl
http_status_fails Code.not_found = refl
http_status_fails Code.already_exists = refl
http_status_fails Code.permission_denied = refl
http_status_fails Code.unauthenticated = refl
http_status_fails Code.failed_precondition = refl
http_status_fails Code.aborted = refl
http_status_fails Code.internal = refl
http_status_fails Code.unavailable = refl
http_status_fails Code.deadline_exceeded = refl
http_status_fails Code.unknown = refl

grpc_error_fails : (x : Option (Code × String)) → leb 300 (write_grpc_err x).code ≡ true
unfolding write_grpc_err
grpc_error_fails none = refl
grpc_error_fails (some (c, m)) = http_status_fails c

abbrev pub anonymous : String → List (String × String) → Post
anonymous url body = record { url = url; authorization = none; body = body }

module _ {R : Type 0} (rdb : RedisClient R) (uuid : UuidPackage) (from_error : FromError)
    (src : String → Source) (jwt : JwtPackage) (tokens : TokenManager)
    (identity : IdentityClient (System R)) (parse_error : GoError) where
  -- No other session writes the wallets, and every call of their database is served.
  abbrev pub Undisturbed : System R → Type 0
  Undisturbed s = s.wallets.remote.turns ≡ []

  -- What net/http and the gateway at `base` are relied on for: a POST to /v1/wallets fails, or its
  -- handler answers it; the posts to the identity service leave the wallets undisturbed.
  pub record Reaches (http : Http (System R)) (base : String) : Type 0 where
    pub registers :
        (body : List (String × String)) (s : System R)
        → Undisturbed s
        → Undisturbed (http.send (anonymous (base ++ "/v1/auth/register") body) s).1
    pub logs_in :
        (body : List (String × String)) (s : System R)
        → Undisturbed s
        → Undisturbed (http.send (anonymous (base ++ "/v1/auth/login") body) s).1
    pub delivers :
        (token : String) (s : System R)
        → ((e : GoError) × ((http.send (wallet_post base token) s).0 ≡ err e))
          ⊎ ((fresh : Fresh) × (reply : Reply) × (http.send (wallet_post base token) s ≡ (
            ok reply,
            (serve
                (site rdb uuid from_error src jwt tokens identity parse_error fresh)
                (wallet_request token)
                s).1,
          ))
              × (reply.status
                  ≡ (serve
                      (site rdb uuid from_error src jwt tokens identity parse_error fresh)
                      (wallet_request token)
                      s).0.code))

  abbrev the_site : Fresh → Gateway (System R)
  the_site = site rdb uuid from_error src jwt tokens identity parse_error

  abbrev at_db : System R → WalletDb → System R
  at_db s d = record s { wallets = record s.wallets { remote = quiet d } }

  at_db-tables : (s : System R) → Undisturbed s → s ≡ at_db s s.wallets.remote.tables
  at_db-tables s e =
      ap
        (λ t. record s {
          wallets = record s.wallets {
            remote = record { tables = s.wallets.remote.tables; turns = t };
          };
        })
        e

  -- What the handler makes of an answer of the wallet server.
  abbrev serves : Fresh → Claims → System R → Response × System R
  serves fresh c s = do_create_wallet (the_site fresh) c (some "RUB") s

  module _ (reads : ReadsStatus from_error) (token : String) where
    handled_once :
        (fresh fresh' : Fresh) (c : Claims) (s : System R) (d : WalletDb)
        → (leb 300 (serves fresh c (at_db s d)).0.code ≡ true)
          ⊎ ((serves fresh' c (serves fresh c (at_db s d)).1).0.code ≡ 409)
    unfolding do_create_wallet write_grpc_err http_status
    handled_once fresh fresh' c s d =
        elim (create_wallet_once uuid fresh.wallet_id fresh'.wallet_id fresh.wallet_created
          fresh'.wallet_created c.user_id "RUB" d) [
            | inl (e, failed) ↦ inl (rw failed (grpc_error_fails (from_error e)))
            | inr (d', made, refused) ↦ inr (
                rw
                  (
                    made,
                    refused,
                    reads Code.already_exists (text (sentinel Sentinel.already_exists)),
                  )
                  refl)
          ]

    authorised :
        (fresh : Fresh) (c : Claims) (s : System R)
        → Carries (the_site fresh) (header (bearer token)) c
        → serve (the_site fresh) (wallet_request token) s ≡ serves fresh c s
    unfolding serve auth
    authorised fresh c s carries = rw (carries.0, carries.1) refl

    served_once :
        (fresh fresh' : Fresh) (s : System R)
        → Undisturbed s
        → let first = serve (the_site fresh) (wallet_request token) s in
          (leb 300 first.0.code ≡ true)
          ⊎ ((serve (the_site fresh') (wallet_request token) first.1).0.code ≡ 409)
    served_once fresh fresh' s undisturbed =
        elim (serve_guarded (the_site fresh) (wallet_request token) s tt) [
          | inl (bare, refused, same) ↦ inl (rw refused refl)
          | inr (c, carries, ran) ↦
              let once =
                subst
                  (λ x.
                    (leb 300 (serves fresh c x).0.code ≡ true)
                    ⊎ ((serves fresh' c (serves fresh c x).1).0.code ≡ 409))
                  (sym (at_db-tables s undisturbed))
                  (handled_once fresh fresh' c s s.wallets.remote.tables) in
              rw (ran, authorised fresh' c (serves fresh c s).1 carries) once
        ]

  -- mustPost when its answer arrives.
  module _ (http : Http (System R)) (url token : String) (body : List (String × String))
      (s s' : System R) (reply : Reply) (fine : http.new_request url ≡ none)
      (sent : http.send (record { url = url; authorization = bearer token; body = body }) s
        ≡ (ok reply, s')) where
    post_state : (must_post http url token body s).1 ≡ s'
    unfolding must_post
    post_state = elim (Bool-cases (leb 300 reply.status)) [
      | inl bad ↦ rw (fine, sent, bad) refl
      | inr good ↦ rw (fine, sent, good) refl
    ]

    post_refused :
        leb 300 reply.status ≡ true → (e : GoError) × ((must_post http url token body s).0 ≡ err e)
    unfolding must_post
    post_refused bad = (
      plain (url ++ " -> " ++ http.decimal reply.status ++ " " ++ reply.raw),
      rw (fine, sent, bad) refl,
    )

  module _ (reads : ReadsStatus from_error) (http : Http (System R)) (base token : String)
      (reaches : Reaches http base) where
    abbrev url : String
    url = base ++ "/v1/wallets"

    abbrev post : System R → Result (List (String × Value)) × System R
    post = must_post http url token wallet_body

    from_second :
        (s s1 : System R)
        → (post s).1 ≡ s1
        → (e : GoError) → (post s1).0 ≡ err e
        → (post (post s).1).0 ≡ err e
    from_second s s1 st e failed = subst (λ x. (post x).0 ≡ err e) (sym st) failed

    -- Two posts of the script for a wallet do not both succeed.
    second_refused :
        (s : System R)
        → Undisturbed s
        → ((e : GoError) × ((post s).0 ≡ err e)) ⊎ ((e : GoError) × ((post (post s).1).0 ≡ err e))
    unfolding must_post
    second_refused s undisturbed = elim (Option-cases (http.new_request url)) [
      | inr (e, bad) ↦ inl (e, rw bad refl)
      | inl fine ↦ elim (reaches.delivers token s) [
        | inl (e, lost) ↦ inl (e, rw (fine, lost) refl)
        | inr (fresh, reply, sent, code) ↦
            let s1 = (serve (the_site fresh) (wallet_request token) s).1 in
            elim (reaches.delivers token s1) [
              | inl (e, lost) ↦ inr (
                e,
                from_second s s1 (post_state http url token wallet_body s s1 reply fine sent) e
                    (rw (fine, lost) refl),
              )
              | inr (fresh', reply', sent', code') ↦
                  elim (served_once reads token fresh fresh' s undisturbed) [
                    | inl big ↦
                        inl (
                          post_refused http url token wallet_body s s1 reply fine sent
                            (rw code big))
                    | inr conflict ↦
                        let (e, failed) =
                          post_refused http url token wallet_body s1
                            (serve (the_site fresh') (wallet_request token) s1).1 reply' fine sent'
                            (rw (code', conflict) refl) in
                        inr (
                          e,
                          from_second s s1
                              (post_state http url token wallet_body s s1 reply fine sent) e failed,
                        )
                  ]
            ]
      ]
    ]

  must_post_stays :
      (http : Http (System R)) (url : String) (body : List (String × String)) (s : System R)
      → Undisturbed s
      → Undisturbed (http.send (anonymous url body) s).1
      → Undisturbed (must_post http url "" body s).1
  unfolding must_post
  must_post_stays http url body s undisturbed after = elim (Option-cases (http.new_request url)) [
    | inr (e, bad) ↦ rw bad undisturbed
    | inl fine ↦ elim (Result-cases (http.send (anonymous url body) s).0) [
      | inr (e, lost) ↦ rw (fine, lost) after
      | inl (reply, sent) ↦ elim (Bool-cases (leb 300 reply.status)) [
        | inl bad ↦ rw (fine, sent, bad) after
        | inr good ↦ rw (fine, sent, good) after
      ]
    ]
  ]

  wallets_fail :
      (http : Http (System R)) (base email token : String) (s : System R)
      → ReadsStatus from_error
      → Reaches http base
      → Undisturbed s
      → Fails (wallets http base email token) s
  unfolding wallets
  wallets_fail http base email token s reads reaches undisturbed =
      elim (second_refused reads http base token reaches s undisturbed) [
        | inl (e, failed) ↦ (e, rw failed refl)
        | inr (e, failed) ↦
            elim (Result-cases (must_post http (base ++ "/v1/wallets") token wallet_body s).0) [
              | inr (e', failed') ↦ (e', rw failed' refl)
              | inl (w1, made) ↦ (e, rw (made, failed) refl)
            ]
      ]

  -- Whatever the identity service answers and whatever rows there are, the seed script panics:
  -- for a status.FromError that reads status errors, an HTTP client whose post of a wallet fails
  -- or is answered by the handler of the gateway, wallet tables that no other session writes and
  -- whose every call is served, and posts to the identity service that leave them so.
  pub seed_panics :
      (http : Http (System R)) (getenv : String → String) (id : String) (s : System R)
      → ReadsStatus from_error
      → Reaches http (env getenv "GATEWAY_URL" "http://localhost:8080")
      → Undisturbed s
      → Fails (main http getenv id) s
  unfolding main
  seed_panics http getenv id s reads reaches undisturbed =
      let base = env getenv "GATEWAY_URL" "http://localhost:8080" in
      let email : String = "seed-" ++ slice id 0 8 ++ "@example.com" in
      let body : List (String × String) = ("email", email) ∷ ("password", "password1") ∷ [] in
      let register = base ++ "/v1/auth/register" in
      let login = base ++ "/v1/auth/login" in
      let s1 = (must_post http register "" body s).1 in
      let s2 = (must_post http login "" body s1).1 in
      let calm1 =
        must_post_stays http register body s undisturbed (reaches.registers body s undisturbed) in
      let calm2 = must_post_stays http login body s1 calm1 (reaches.logs_in body s1 calm1) in
      elim (Result-cases (must_post http register "" body s).0) [
        | inr (e, failed) ↦ (e, rw failed refl)
        | inl (r, registered) ↦ elim (Result-cases (must_post http login "" body s1).0) [
          | inr (e, failed) ↦ (e, rw (registered, failed) refl)
          | inl (l, logged_in) ↦ elim (Result-cases (string_of (lookup "token" l))) [
            | inr (e, failed) ↦ (e, rw (registered, logged_in, failed) refl)
            | inl (token, read) ↦
                let (e, failed) = wallets_fail http base email token s2 reads reaches calm2 in
                (e, rw (registered, logged_in, read, failed) refl)
          ]
        ]
      ]
