-- ===== src/Seed/Tests.antt =====
-- The seed script against a gateway with no wallets: it runs into its second wallet.
use go_payment.Identity.Keys.{whole_second}
use go_payment.Prelude.{
  pos, inr, refl, ℕ, suc, ◌+◌, String, none, some, true, List, [], ◌∷◌, str_eq, if◌then◌else◌,
}
use go_payment.Prelude.Map.{lookup}
use go_payment.Errors.{plain}
use go_payment.Exec.{Result, ok, fail}
use go_payment.Database.{quiet}
use go_payment.Samples.{unary_uuid, unary}
use go_payment.Wallet.Domain.{Wallet}
use go_payment.Transfer.Cache.{RedisClient}
use go_payment.Transfer.Service.{Draw}
use go_payment.Transfer.Funds.{at}
use go_payment.Transfer.Funds.Samples.{from_error, from_error-ReadsStatus, draws, circuit}
use go_payment.Identity.Token.{Claims, JwtPackage, TokenManager}
use go_payment.Gateway.Respond.{Response, text}
use go_payment.Gateway.Handler.{IdentityClient, Request, create_wallet, serve}
use go_payment.Platform.{System, Fresh}
use go_payment.Platform.Requests.{site}
use go_payment.Seed.{Post, Reply, Http, env, main}
use go_payment.Seed.Fails.{Reaches, Fails, header, wallet_request, seed_panics}

-- a redis that keeps nothing
abbrev redis : RedisClient (Unit {0})
redis = record { get = λ key r. (ok none, r); set = λ key value ttl r. (ok tt, r) }

abbrev claims : Claims
claims = record {
  user_id = unary 1;
  email = "a@b";
  role = "user";
  issuer = "i";
  subject = unary 1;
  expires_at = 100;
  issued_at = 1;
  id = "t";
}

abbrev jwt : JwtPackage
jwt = record {
  numeric_date = whole_second;
  sign = λ c s. ok "t";
  parse_with_claims = λ t key. ok (record { claims = some claims; valid = true });
}

abbrev tokens : TokenManager
tokens = record { secret = "s"; issuer = "i"; ttl = pos 60_000_000_000 }

abbrev identity : IdentityClient (System (Unit {0}))
identity = record { register = λ e p. fail (plain "down"); login = λ e p. fail (plain "down") }

abbrev draw : Draw
draw = record { transfer_id = 5; event_id = 6; created = 3; updated = 4; event_created = 4 }

abbrev count : List Wallet → ℕ
count [] = 0
count (w ∷ ws) = suc (count ws)

abbrev fresh : System (Unit {0}) → Fresh
fresh s = record {
  transfer = draw;
  wallet_id = 9 + count s.wallets.remote.tables.wallets;
  wallet_created = 3;
}

abbrev carried : Response × System (Unit {0}) → Result Reply × System (Unit {0})
carried (r, s) = (ok (record { status = r.code; raw = ""; object = ok r.body }), s)

abbrev read : Post → Request
read p = record {
  authorization = header p.authorization;
  idempotency_key = "";
  route = create_wallet (lookup "currency" p.body);
}

abbrev the_gateway : System (Unit {0}) → Request → System (Unit {0}) → Response × System (Unit {0})
the_gateway s =
    serve (site redis unary_uuid from_error draws jwt tokens identity (plain "bad id") (fresh s))

-- The routes of the script; the two of the identity service always succeed.
abbrev http : Http (System (Unit {0}))
http = record {
  new_request = λ url. none;
  send = λ p s.
      if str_eq p.url "http://localhost:8080/v1/wallets"
      then carried (the_gateway s (read p) s)
      else (ok (record { status = 200; raw = ""; object = ok (("token", text "t") ∷ []) }), s);
  print = λ line s. s;
  decimal = λ n. "";
  shown = λ v. "";
}

abbrev before : System (Unit {0})
before = record {
  transfers = quiet (record { transfers = []; outbox_events = [] });
  wallets =
      at unary_uuid from_error draws circuit 9
        (quiet (record { wallets = []; account_balances = []; ledger_entries = [] }));
  redis = tt;
}

abbrev answered : String → System (Unit {0}) → Reply
answered token s = record {
  status = (the_gateway s (wallet_request token) s).0.code;
  raw = "";
  object = ok (the_gateway s (wallet_request token) s).0.body;
}

http-Reaches :
    Reaches redis unary_uuid from_error draws jwt tokens identity
      (plain "bad id")
      http
      "http://localhost:8080"
unfolding lookup
http-Reaches = record {
  registers = λ body s h. h;
  logs_in = λ body s h. h;
  delivers = λ token s. inr (fresh s, answered token s, refl, refl);
}

seed_panics_example : Fails (main http (λ k. "") "0123456789") before
unfolding env
seed_panics_example =
    seed_panics redis unary_uuid from_error draws jwt tokens identity (plain "bad id") http
      (λ k. "") "0123456789" before from_error-ReadsStatus http-Reaches refl
