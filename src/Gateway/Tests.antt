-- ===== src/Gateway/Tests.antt =====
-- Requests with a token that parses and with none.
use go_payment.Identity.Keys.{whole_second}
use go_payment.Prelude.{pos, ◌≡◌, ◌⊎◌, ℕ, suc, true, refl, none, some}
use go_payment.Errors.{plain}
use go_payment.Exec.{ok, err}
use go_payment.Identity.Token.{Claims, parse}
use go_payment.Gateway.Handler.{Gateway, Request, get_balance, serve, auth, do_get_balance}
use go_payment.Gateway.Access.{serve_guarded, Carries, handler}

abbrev claims : Claims
claims = record {
  user_id = "u";
  email = "e";
  role = "user";
  issuer = "i";
  subject = "u";
  expires_at = 60;
  issued_at = 0;
  id = "7";
}

-- Its services count the calls; its JWT package takes any token.
abbrev gateway : Gateway ℕ
gateway = record {
  identity = record {
    register = λ e p n. (err (plain "down"), suc n);
    login = λ e p n. (err (plain "down"), suc n);
  };
  wallet = some (record {
    create_wallet = λ u c n. (err (plain "down"), suc n);
    get_balance = λ w n. (err (plain "down"), suc n);
  });
  transfer = none;
  jwt = record {
    numeric_date = whole_second;
    sign = λ c s. ok "token";
    parse_with_claims = λ t key. ok (record { claims = some claims; valid = true });
  };
  tokens = record { secret = "s"; issuer = "i"; ttl = pos 60_000_000_000 };
  from_error = λ e. none;
}

abbrev request : Request
request = record { authorization = "Bearer x"; idempotency_key = ""; route = get_balance "7" }

-- This one is let in.
one_call : (serve gateway request 0).1 ≡ 1
unfolding serve auth do_get_balance parse
one_call = refl

serve_guarded_example :
    (¬ ((c : Claims) × Carries gateway "Bearer x" c)
      × ((serve gateway request 0).0.code ≡ 401)
      × ((serve gateway request 0).1 ≡ 0))
    ⊎ ((c : Claims) × Carries gateway "Bearer x" c
        × (serve gateway request 0 ≡ handler gateway request c 0))
serve_guarded_example = serve_guarded gateway request 0 tt
