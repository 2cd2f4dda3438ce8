-- ===== src/Gateway/Access.antt =====
-- What the gateway lets in: the routes behind authMiddleware want a bearer token that parses.
use Prim.Native.String.{slice, len}
use package.text.Mathlib.Text.{starts_with}
use go_payment.Prelude.{◌≡◌, ◌⊎◌, refl, String, true, Bool-cases, inl, inr, arith}
use go_payment.Exec.{ok, Result-cases}
use go_payment.Identity.Token.{Claims, parse}
use go_payment.Gateway.Respond.{write_err}
use go_payment.Gateway.Handler.{
  Route, healthz, register, login, create_wallet, get_balance, get_transfer, create_transfer,
  Request, Gateway, Handler, auth, serve, do_create_wallet, do_get_balance, do_create_transfer,
  do_get_transfer,
}

module _ {S : Type 0} (h : Gateway S) where
  -- The header carries a token of these claims.
  abbrev pub Carries : String → Claims → Type 0
  Carries hdr c =
      (starts_with hdr "Bearer " ≡ true) × (parse h.jwt h.tokens (slice hdr 7 (len hdr)) ≡ ok c)

  auth_decides :
      (hdr : String) (next : Claims → Handler S) (s : S)
      → (¬ ((c : Claims) × Carries hdr c)
          × ((auth h hdr next s).0.code ≡ 401)
          × ((auth h hdr next s).1 ≡ s))
        ⊎ ((c : Claims) × Carries hdr c × (auth h hdr next s ≡ next c s))
  unfolding auth
  auth_decides hdr next s = elim (Bool-cases (starts_with hdr "Bearer ")) [
    | inl bearer ↦ elim (Result-cases (parse h.jwt h.tokens (slice hdr 7 (len hdr)))) [
      | inl (c, read) ↦ inr (c, (bearer, read), rw (bearer, read))
      | inr (e, bad) ↦ inl (
        λ (c, (is, reads)). ground (arith, reads, bad),
        rw (bearer, bad) refl,
        rw (bearer, bad) refl,
      )
    ]
    | inr bare ↦ inl (λ (c, (is, reads)). ground (arith, is, bare), rw bare refl, rw bare refl)
  ]

  -- The routes that the source registers behind the middleware.
  abbrev pub IsProtected : Route → Type 0
  IsProtected healthz = ⊥
  IsProtected (register b) = ⊥
  IsProtected (login b) = ⊥
  IsProtected (create_wallet b) = Unit
  IsProtected (get_balance id) = Unit
  IsProtected (create_transfer b) = Unit
  IsProtected (get_transfer id) = Unit

  -- The handler of a protected route, at the claims of the caller.
  abbrev pub handler : Request → Claims → Handler S
  handler q c = elim q.route [
    | healthz ↦ λ s. (write_err 404 "", s)
    | register b ↦ λ s. (write_err 404 "", s)
    | login b ↦ λ s. (write_err 404 "", s)
    | create_wallet b ↦ do_create_wallet h c b
    | get_balance id ↦ do_get_balance h id
    | create_transfer b ↦ do_create_transfer h c q.idempotency_key b
    | get_transfer id ↦ do_get_transfer h id
  ]

  protected :
      (auth_hdr key : String) (r : Route) (s : S)
      → IsProtected r
      → let q : Request = record { authorization = auth_hdr; idempotency_key = key; route = r } in
        serve h q s ≡ auth h auth_hdr (handler q) s
  unfolding serve
  protected a k healthz s p = elim p [ ]
  protected a k (register b) s p = elim p [ ]
  protected a k (login b) s p = elim p [ ]
  protected a k (create_wallet b) s p = refl
  protected a k (get_balance id) s p = refl
  protected a k (create_transfer b) s p = refl
  protected a k (get_transfer id) s p = refl

  -- On a protected route, either the Authorization header carries no bearer token that parses,
  -- the answer is 401 and no service is called; or it carries one, and the answer is that of the
  -- handler at the claims of the token.
  pub serve_guarded :
      (q : Request) (s : S)
      → IsProtected q.route
      → (¬ ((c : Claims) × Carries q.authorization c)
          × ((serve h q s).0.code ≡ 401)
          × ((serve h q s).1 ≡ s))
        ⊎ ((c : Claims) × Carries q.authorization c × (serve h q s ≡ handler q c s))
  serve_guarded q s p =
      rw (protected q.authorization q.idempotency_key q.route s p)
        (auth_decides q.authorization (handler q) s)
