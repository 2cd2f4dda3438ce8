-- ===== src/Platform/Create.antt =====
-- Service.Create on the whole platform.
use go_payment.Prelude.{◌≡◌, refl, true, false, some, none, str_eq, inl, inr}
use go_payment.Errors.{GoError, is}
use go_payment.Exec.{fail, Result, ok, err, Result-cases}
use go_payment.Database.{Session, quiet, query, in_transaction, tx_exec}
use go_payment.Uuid.{Uuid, UuidPackage}
use go_payment.Wallet.Tables.{WalletDb}
use go_payment.Transfer.Domain.{Transfer}
use go_payment.Transfer.Ports.{TransferRepository, WalletClient, IdempotencyCache}
use go_payment.Transfer.Tables.{
  TransferDb, find_by_key, find_transfer, has_event, insert_transfer, insert_event,
}
use go_payment.Transfer.Postgres.{
  scan, get_by_id, get_by_idempotency_key, insert_completed_with_outbox,
}
use go_payment.Transfer.Postgres.Atomic.{with_transfer}
use go_payment.Transfer.Cache
use go_payment.Transfer.Cache.{redis_key, ttl, RedisClient}
use go_payment.Transfer.Service.{
  bad_argument, Draw, CreateRequest, event_of, move_funds, create, debit_key, credit_key,
  credited_or_compensated,
}
use go_payment.Transfer.WalletClient.{Calling}
use go_payment.Transfer.Service.Begun.{begun, done, IsValid, new_transfer-begun}
use go_payment.Platform.{System, repo, cache, lifted}

-- The client as the wallet calls need it: move_funds calls neither of these.
abbrev pub no_repo : TransferRepository (Calling (Session WalletDb))
no_repo = record {
  get_by_idempotency_key = λ k. fail bad_argument;
  get_by_id = λ id. fail bad_argument;
  insert_completed_with_outbox = λ tr ev. fail bad_argument;
}

abbrev pub no_cache : IdempotencyCache (Calling (Session WalletDb))
no_cache = record { get = λ k. fail bad_argument; set = λ k v. fail bad_argument }

-- The two wallet calls touch the client and the wallets alone.
module _ {R : Type 0} (rdb : RedisClient R) (uuid : UuidPackage)
    (w : WalletClient (Calling (Session WalletDb))) (q : CreateRequest) (tr : Transfer) where
  abbrev debited : Calling (Session WalletDb) → Result (Unit {0}) × Calling (Session WalletDb)
  debited s = w.debit q.from_id q.amount (uuid.to_string tr.id) (debit_key uuid tr.id) s

  abbrev credited : Calling (Session WalletDb) → Result (Unit {0}) × Calling (Session WalletDb)
  credited s = w.credit q.to_id q.amount (uuid.to_string tr.id) (credit_key uuid tr.id) s

  pub lifted_funds :
      (s : System R)
      → move_funds uuid repo (lifted w) (cache rdb) q tr s ≡ (
          let (res, w') = move_funds uuid no_repo w no_cache q tr s.wallets in
          (res, record s { wallets = w' }))
  unfolding move_funds credited_or_compensated
  lifted_funds s = elim (Result-cases (debited s.wallets).0) [
    | inr (e, failed) ↦ rw failed refl
    | inl (u, done) ↦ elim (Result-cases (credited (debited s.wallets).1).0) [
      | inl (v, paid) ↦ rw (done, paid) refl
      | inr (e, failed) ↦ rw (done, failed) refl
    ]
  ]

-- A request in order, with a key that neither redis nor the table has.
pub record IsNewRequest {R : Type 0} (rdb : RedisClient R) (uuid : UuidPackage) (q : CreateRequest)
    (from to user : Uuid) (d : TransferDb) (keys : R) : Type 0 where
  pub valid : IsValid uuid q from to user
  pub new_key : find_by_key q.key d.transfers ≡ none
  pub uncached : rdb.get (redis_key q.key) keys ≡ (ok none, keys)

module _ {R : Type 0} (rdb : RedisClient R) (uuid : UuidPackage) (w : WalletClient (System R))
    (parse_error : GoError) (draw : Draw) (q : CreateRequest) (from to user : Uuid) (d : TransferDb)
    (wallets wallets' : Calling (Session WalletDb)) (keys : R)
    (new : IsNewRequest rdb uuid q from to user d keys) where
  abbrev before : System R
  before = record { transfers = quiet d; wallets = wallets; redis = keys }

  pub create_failed :
      (e : GoError)
      → move_funds uuid repo w (cache rdb) q (begun draw q from to user) before
        ≡ (err e, record before { wallets = wallets' })
      → create uuid repo w (cache rdb) parse_error draw q before
        ≡ (err e, record before { wallets = wallets' })
  unfolding create scan query get_by_idempotency_key Cache.get is
  create_failed e failed =
      rw
        (
          new.valid.has_key,
          new.uncached,
          new.new_key,
          new.valid.reads_from,
          new.valid.reads_to,
          new.valid.reads_user,
          new_transfer-begun uuid draw q from to user new.valid,
          failed,
        )
        refl

  pub create_moved :
      find_transfer draw.transfer_id d.transfers ≡ none
      → has_event draw.event_id d.outbox_events ≡ false
      → move_funds uuid repo w (cache rdb) q (begun draw q from to user) before
        ≡ (ok tt, record before { wallets = wallets' })
      → let tr = done uuid draw q from to user in
        create uuid repo w (cache rdb) parse_error draw q before ≡ (
          ok (record { transfer = tr; idempotent_replay = false }),
          record {
            transfers = quiet (with_transfer tr (event_of uuid draw tr) d);
            wallets = wallets';
            redis = (rdb.set (redis_key q.key) (uuid.to_string draw.transfer_id) ttl keys).1;
          },
        )
  unfolding create scan query get_by_idempotency_key Cache.get Cache.set is
      insert_completed_with_outbox in_transaction tx_exec insert_transfer insert_event
  create_moved new_id new_event moved =
      rw
        (
          new.valid.has_key,
          new.uncached,
          new.new_key,
          new.valid.reads_from,
          new.valid.reads_to,
          new.valid.reads_user,
          new_transfer-begun uuid draw q from to user new.valid,
          moved,
          new.valid.positive,
          new_id,
          new.new_key,
          new_event,
        )
        refl

module _ {R : Type 0} (rdb : RedisClient R) (uuid : UuidPackage) (w : WalletClient (System R))
    (parse_error : GoError) (draw : Draw) (q : CreateRequest) (id : Uuid) (tr : Transfer)
    (d : TransferDb) (wallets : Calling (Session WalletDb)) (keys : R) where
  abbrev now : System R
  now = record { transfers = quiet d; wallets = wallets; redis = keys }

  pub create_cached :
      str_eq q.key "" ≡ false
      → rdb.get (redis_key q.key) keys ≡ (ok (some (uuid.to_string id)), keys)
      → uuid.parse (uuid.to_string id) ≡ some id
      → find_transfer id d.transfers ≡ some tr
      → create uuid repo w (cache rdb) parse_error draw q now
        ≡ (ok (record { transfer = tr; idempotent_replay = true }), now)
  unfolding create scan query get_by_id Cache.get
  create_cached has_key cached reads there = rw (has_key, cached, reads, there) refl
