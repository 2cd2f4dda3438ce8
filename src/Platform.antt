-- ===== src/Platform.antt =====
-- The platform put together, as cmd/gateway, cmd/transfer and cmd/wallet do: the gateway calls the
-- transfer server and the wallet server, the transfer service its tables, its redis cache and, through
-- the client with its circuit, the wallet server. The transport hands each answer over.
pub mod Keys
pub mod Create
pub mod Requests
pub mod Overdraft
pub mod After
pub mod Completes
pub mod Notified
mod Tests
use go_payment.Prelude.{◌≡◌, ℕ, String, some}
use go_payment.Errors.{GoError}
use go_payment.Exec.{ok, err, Exec}
use go_payment.Database.{Session}
use go_payment.Uuid.{Uuid, Time, UuidPackage, Source}
use go_payment.Wallet.Tables.{WalletDb}
use go_payment.Wallet.Postgres.{pg_repo as wallet_repo}
use go_payment.Wallet.Server as WalletServer
use go_payment.Transfer.Tables.{TransferDb}
use go_payment.Transfer.Ports.{TransferRepository, WalletClient, IdempotencyCache}
use go_payment.Transfer.Postgres.{pg_repo}
use go_payment.Transfer.Cache.{RedisClient, redis_cache}
use go_payment.Transfer.WalletClient.{FromError, Calling, client}
use go_payment.Transfer.Service.{Draw}
use go_payment.Transfer.Server as TransferServer
use go_payment.Transfer.Funds.{loopback}
use go_payment.Identity.Token.{JwtPackage, TokenManager}
use go_payment.Gateway.Handler.{Gateway, IdentityClient}
use go_payment.Gateway.Handler

-- The databases, the client of the transfer service, and redis.
pub record System (R : Type 0) : Type 0 where
  pub transfers : Session TransferDb
  pub wallets : Calling (Session WalletDb)
  pub redis : R

module _ {R A : Type 0} where
  abbrev pub on_transfers : Exec (Session TransferDb) A → Exec (System R) A
  on_transfers m s = let (r, db) = m s.transfers in (r, record s { transfers = db })

  abbrev pub on_wallets : Exec (Calling (Session WalletDb)) A → Exec (System R) A
  on_wallets m s = let (r, w) = m s.wallets in (r, record s { wallets = w })

  abbrev pub on_redis : Exec R A → Exec (System R) A
  on_redis m s = let (r, redis) = m s.redis in (r, record s { redis = redis })

  abbrev pub on_wallet_db : Exec (Session WalletDb) A → Exec (System R) A
  on_wallet_db m = on_wallets (λ c. let (r, db) = m c.remote in (r, record c { remote = db }))

module _ {R : Type 0} where
  abbrev pub repo : TransferRepository (System R)
  repo = record {
    get_by_idempotency_key =
        λ k. on_transfers (TransferRepository.get_by_idempotency_key pg_repo k);
    get_by_id = λ id. on_transfers (TransferRepository.get_by_id pg_repo id);
    insert_completed_with_outbox =
        λ tr ev. on_transfers (TransferRepository.insert_completed_with_outbox pg_repo tr ev);
  }

  -- rediscache.New over the connection to redis
  abbrev pub cache : RedisClient R → IdempotencyCache (System R)
  cache rdb = redis_cache (record {
    get = λ key. on_redis (rdb.get key);
    set = λ key value ttl. on_redis (rdb.set key value ttl);
  })

  abbrev pub lifted : WalletClient (Calling (Session WalletDb)) → WalletClient (System R)
  lifted w = record {
    debit = λ id amount tid key. on_wallets (w.debit id amount tid key);
    credit = λ id amount tid key. on_wallets (w.credit id amount tid key);
  }

-- Documented of redis: GET reads what SET wrote, and changes nothing.
abbrev pub ReadsSet : {R : Type 0} → RedisClient R → Type 0
ReadsSet {R} rdb =
    (key value : String) (ttl : ℕ) (r : R)
    → (rdb.set key value ttl r).0 ≡ ok tt
    → rdb.get key (rdb.set key value ttl r).1 ≡ (ok (some value), (rdb.set key value ttl r).1)

-- What one request draws from uuid.New and time.Now.
pub record Fresh : Type 0 where
  pub transfer : Draw
  pub wallet_id : Uuid
  pub wallet_created : Time

module _ {R : Type 0} (uuid : UuidPackage) (from_error : FromError) (src : String → Source) where
  -- walletclient.New over the connection to the wallet service
  abbrev pub wallet_calls : WalletClient (System R)
  wallet_calls = lifted (client from_error (loopback uuid from_error src))

module _ {R : Type 0} (rdb : RedisClient R) (uuid : UuidPackage) (from_error : FromError)
    (src : String → Source) (jwt : JwtPackage) (tokens : TokenManager)
    (identity : IdentityClient (System R)) (parse_error : GoError) where
  -- app.NewService: the repository, the wallet client and the cache
  abbrev pub transfer_client : Draw → Handler.TransferClient (System R)
  transfer_client draw = record {
    create_transfer =
        TransferServer.create_transfer uuid repo (wallet_calls uuid from_error src) (cache rdb)
          parse_error draw;
    get_transfer =
        TransferServer.get_transfer uuid repo (wallet_calls uuid from_error src) (cache rdb);
  }

  abbrev pub wallet_client : Fresh → Handler.WalletClient (System R)
  wallet_client fresh = record {
    create_wallet = λ user currency. on_wallet_db (
        WalletServer.create_wallet uuid wallet_repo fresh.wallet_id fresh.wallet_created user
          currency);
    get_balance = λ id. on_wallet_db (WalletServer.get_balance uuid wallet_repo id);
  }

  -- httpapi.New, with both connections made
  abbrev pub gateway : Fresh → Gateway (System R)
  gateway fresh = record {
    identity = identity;
    wallet = some (wallet_client fresh);
    transfer = some (transfer_client fresh.transfer);
    jwt = jwt;
    tokens = tokens;
    from_error = from_error;
  }
