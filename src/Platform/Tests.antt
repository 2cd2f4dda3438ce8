-- ===== src/Platform/Tests.antt =====
-- Runs of the whole platform: a transfer that is covered, sent twice, and one that is not.
use go_payment.Identity.Keys.{whole_second}
use go_payment.Prelude.{
  pos, eq_iff, true, leb_ℤ, false, ◌≡◌, refl, arith, String, some, List, [], ℤ, pos, ◌+ℤ◌, ◌-ℤ◌,
}
use go_payment.Prelude.Map.{assign, lookup, lookup-assign}
use go_payment.Errors.{plain}
use go_payment.Exec.{ok, fail}
use go_payment.Breaker
use go_payment.Database.{served, quiet}
use go_payment.Samples.{unary_uuid, unary_uuid-ReadsBack, unary}
use go_payment.Wallet.Tables.{find_balance, find_entry, find_wallet, has_entry_id}
use go_payment.Transfer.Tables.{TransferDb, find_by_key, find_transfer, has_event}
use go_payment.Transfer.Cache.{RedisClient}
use go_payment.Transfer.Service.{Draw}
use go_payment.Transfer.Funds.{at}
use go_payment.Transfer.Funds.Samples.{
  from_error, from_error-ReadsStatus, draws, circuit, row, two_wallets,
}
use go_payment.Identity.Token.{Claims, JwtPackage, TokenManager, parse}
use go_payment.Gateway.Respond.{write_err}
use go_payment.Gateway.Handler.{Gateway, TransferBody, IdentityClient, create_transfer, serve}
use go_payment.Gateway.Schema.{FitsRoute, serve-Fits}
use go_payment.Gateway.Access.{Carries}
use go_payment.Platform.{System, Fresh, ReadsSet}
use go_payment.Platform.Create.{IsNewRequest}
use go_payment.Transfer.Service.Begun.{done}
use go_payment.Platform.Requests.{post, asked, answer_of, site}
use go_payment.Platform.Overdraft.{overdraft_answered}
use go_payment.Platform.Completes.{transfer_answered, replay_answered}
use go_payment.Platform.After.{CanMove, after}
use go_payment.Prelude.{ℕ, ◌+◌, ◌++◌, ◌∷◌}
use go_payment.Outbox.{json, tick}
use go_payment.Outbox.Delivery.{store, publisher}
use go_payment.Transfer.Tables.{unpublished}
use go_payment.Transfer.Domain.{Transfer}
use go_payment.Transfer.Service.{payload_of}
use go_payment.Kafka.{Message, reliable}
use go_payment.Kafka.Delivery.{Broker}
use go_payment.Kafka.Delivery
use go_payment.Notification.Service.{notification}
use go_payment.Notification.Postgres.{NotificationDb, is_processed}
use go_payment.Notification.Consumer.{stop, run}
use go_payment.Notification.Commits.Loop
use go_payment.Notification.Stream
use go_payment.Notification.Stream.{IsReady, has_id}
use go_payment.Notification.Stream.Copies.{copies}
use go_payment.Platform.Notified.{transfer_notified}

abbrev Keys : Type 0
Keys = List (String × String)

-- a redis in which nothing runs out
abbrev redis : RedisClient Keys
redis = record {
  get = λ key r. (ok (lookup key r), r);
  set = λ key value ttl r. (ok tt, assign key value r);
}

abbrev claims : Claims
claims = record {
  user_id = unary 1;
  email = "a@b";
  role = "user";
  issuer = "i";
  subject = unary 1;
  expires_at = 100;
  issued_at = 1;
  id = "t";
}

-- It reads these claims from every token.
abbrev jwt : JwtPackage
jwt = record {
  numeric_date = whole_second;
  sign = λ c s. ok "token";
  parse_with_claims = λ t key. ok (record { claims = some claims; valid = true });
}

abbrev tokens : TokenManager
tokens = record { secret = "s"; issuer = "i"; ttl = pos 60_000_000_000 }

abbrev identity : IdentityClient (System Keys)
identity = record { register = λ e p. fail (plain "down"); login = λ e p. fail (plain "down") }

abbrev draw : Draw
draw = record { transfer_id = 5; event_id = 6; created = 3; updated = 4; event_created = 4 }

abbrev fresh : Fresh
fresh = record { transfer = draw; wallet_id = 9; wallet_created = 3 }

abbrev body : ℤ → TransferBody
body amount = record {
  from_wallet_id = unary 7;
  to_wallet_id = unary 8;
  amount_minor = amount;
  currency = "";
}

abbrev no_transfers : TransferDb
no_transfers = record { transfers = []; outbox_events = [] }

abbrev header : String
header = "Bearer t"

abbrev server : Gateway (System Keys)
server = site redis unary_uuid from_error draws jwt tokens identity (plain "bad id") fresh

header-Carries : Carries server header claims
unfolding parse
header-Carries = (refl, refl)

abbrev before : System Keys
before = record {
  transfers = quiet no_transfers;
  wallets = at unary_uuid from_error draws circuit 9 (quiet two_wallets);
  redis = [];
}

is_new :
    (amount : ℤ)
    → leb_ℤ amount (pos 0) ≡ false
    → IsNewRequest redis unary_uuid (asked claims "k" (body amount)) 7 8 1 no_transfers []
unfolding find_by_key lookup
is_new amount positive = record {
  valid = record {
    reads_from = refl;
    reads_to = refl;
    reads_user = refl;
    two_wallets = refl;
    positive = positive;
    has_key = refl;
  };
  new_key = refl;
  uncached = refl;
}

overdraft_answered_example :
    serve server (post header "k" (body (pos 1001))) before
    ≡ (write_err 409 "insufficient funds", before)
unfolding find_balance find_entry Breaker.allow
overdraft_answered_example =
    overdraft_answered redis unary_uuid from_error draws jwt tokens identity (plain "bad id") fresh
      header "k" claims (body (pos 1001)) header-Carries unary_uuid-ReadsBack no_transfers
      two_wallets [] circuit 9 7 8 1 (is_new (pos 1001) refl) refl (row 7 (pos 1000) (pos 1))
      from_error-ReadsStatus refl refl (ground arith)

abbrev ended : System Keys
ended =
    after redis unary_uuid from_error draws draw (asked claims "k" (body (pos 300))) no_transfers
      two_wallets [] circuit 9 7 8 1 (row 7 (pos 1000) (pos 1)) (row 8 (pos 0) (pos 0))

can_move :
    CanMove unary_uuid draws
      (asked claims "k" (body (pos 300)))
      5
      7
      8
      two_wallets
      (row 7 (pos 1000) (pos 1))
      (row 8 (pos 0) (pos 0))
unfolding find_balance find_entry find_wallet has_entry_id ◌+ℤ◌ ◌-ℤ◌
can_move = record {
  row_from = refl;
  row_to = refl;
  differ = omega arith;
  room_d = (refl, refl, refl, ground arith, ground arith);
  room_c = (refl, refl, refl, ground arith, ground arith);
  ids = omega arith;
  fits = ground arith;
  covered = ground arith;
  nonneg = refl;
  fits_to = ground arith;
}

serve-Fits_example :
    FitsRoute
      (create_transfer (some (body (pos 300))))
      (serve server (post header "k" (body (pos 300))) before).0
serve-Fits_example = serve-Fits server (post header "k" (body (pos 300))) before

transfer_answered_example : serve server (post header "k" (body (pos 300))) before ≡ (
  answer_of unary_uuid from_error (
      ok (record {
        transfer = done unary_uuid draw (asked claims "k" (body (pos 300))) 7 8 1;
        idempotent_replay = false;
      })),
  ended,
)
unfolding find_balance find_entry find_wallet has_entry_id find_transfer has_event Breaker.allow
    ◌+ℤ◌ ◌-ℤ◌
transfer_answered_example =
    transfer_answered redis unary_uuid from_error draws jwt tokens identity (plain "bad id") fresh
      header "k" claims (body (pos 300)) header-Carries unary_uuid-ReadsBack no_transfers
      two_wallets [] circuit 9 7 8 1 (is_new (pos 300) refl) refl (row 7 (pos 1000) (pos 1))
      (row 8 (pos 0) (pos 0)) can_move refl refl

-- Somebody else's request for another amount, with other draws.
abbrev fresh' : Fresh
fresh' = record { transfer = record draw { transfer_id = 11 }; wallet_id = 9; wallet_created = 3 }

redis-ReadsSet : ReadsSet redis
redis-ReadsSet key value ttl r kept =
    rw (lookup-assign key key value r) (ground (arith, eq_iff key key))

replay_answered_example :
    let first = serve server (post header "k" (body (pos 300))) before in
    serve
      (site redis unary_uuid from_error draws jwt tokens identity (plain "bad id") fresh')
      (post header "k" (body (pos 77)))
      first.1
    ≡ (
      answer_of unary_uuid from_error (
          ok (record {
            transfer = done unary_uuid draw (asked claims "k" (body (pos 300))) 7 8 1;
            idempotent_replay = true;
          })),
      first.1,
    )
unfolding find_balance find_entry find_wallet has_entry_id find_transfer has_event Breaker.allow
    ◌+ℤ◌ ◌-ℤ◌
replay_answered_example =
    replay_answered redis unary_uuid from_error draws jwt tokens identity (plain "bad id") fresh
      header "k" claims (body (pos 300)) header-Carries unary_uuid-ReadsBack no_transfers
      two_wallets [] circuit 9 7 8 1 (is_new (pos 300) refl) refl (row 7 (pos 1000) (pos 1))
      (row 8 (pos 0) (pos 0)) can_move refl refl fresh' header claims (body (pos 77)) header-Carries
      redis-ReadsSet refl

abbrev broker : Broker
broker = record {
  answers = served ∷ [];
  tried = 0;
  tried_dead = 0;
  topic = [];
  dead_letters = [];
  waits = [];
  trace = ("traceparent", "00") ∷ [];
}

abbrev nobody_told : NotificationDb
nobody_told = record { processed_events = []; notifications = [] }

abbrev ids : ℕ → ℕ
ids n = 10 + n

nobody_told-IsReady : IsReady ids 0 nobody_told
unfolding has_id Stream.has_event
nobody_told-IsReady = record {
  distinct = λ j k e. omega (arith, e);
  unused = λ k le. refl;
  backed = λ ev h. refl;
}

abbrev stored_transfer : Transfer
stored_transfer = done unary_uuid draw (asked claims "k" (body (pos 300))) 7 8 1

abbrev message : Message
message = record {
  key = unary 5;
  value = json (payload_of unary_uuid stored_transfer);
  headers = ("traceparent", "00") ∷ [];
}

abbrev no_digits : ℕ → String
no_digits n = ""

-- The message is delivered twice.
transfer_notified_example :
    let first = serve server (post header "k" (body (pos 300))) before in
    let (r, w) =
      tick store
        (publisher (reliable Delivery.publisher))
        (λ n. 50)
        (record { db = first.1.transfers; broker = broker }) in
    let (r', inbox) = run no_digits Loop.store Loop.reader 3 0 ids (record {
      db = quiet nobody_told;
      waiting = copies "transfers" message ((0, 0) ∷ (0, 0) ∷ []);
      commits = [];
      committed = [];
    }) in
    (r ≡ ok tt)
    × (unpublished w.db.tables.outbox_events ≡ [])
    × (w.broker.topic ≡ [] ++ message ∷ [])
    × (r' ≡ ok stop)
    × (inbox.committed ≡ copies "transfers" message ((0, 0) ∷ (0, 0) ∷ []))
    × (inbox.db.tables.notifications
        ≡ []
          ++ notification 10
              (unary 5)
              (json (payload_of unary_uuid stored_transfer))
              (payload_of unary_uuid stored_transfer)
            ∷ [])
unfolding find_balance find_transfer has_event Breaker.allow unpublished is_processed
transfer_notified_example =
    transfer_notified redis unary_uuid from_error draws jwt tokens identity (plain "bad id") fresh
      header "k" claims (body (pos 300)) header-Carries unary_uuid-ReadsBack no_transfers
      two_wallets [] circuit 9 7 8 1 (is_new (pos 300) refl) refl (row 7 (pos 1000) (pos 1))
      (row 8 (pos 0) (pos 0)) can_move refl refl broker [] (λ n. 50) "transfers" (0, 0)
      ((0, 0) ∷ []) no_digits ids nobody_told 3 refl refl refl refl nobody_told-IsReady
      (omega arith)
