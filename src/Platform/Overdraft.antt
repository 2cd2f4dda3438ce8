-- ===== src/Platform/Overdraft.antt =====
-- A transfer of more than the wallet has, from the gateway to the ledger and back.
use go_payment.Prelude.{◌≡◌, refl, String, true, some, none, ◌<ℤ◌}
use go_payment.Errors.{GoError, Sentinel, sentinel, is, text as text_of}
use go_payment.Exec.{err}
use go_payment.Breaker
use go_payment.Breaker.{Circuit}
use go_payment.Database.{Session, quiet}
use go_payment.Uuid.{Uuid, Time, UuidPackage, Source, ReadsBack}
use go_payment.Wallet.Domain.{Balance}
use go_payment.Wallet.Server as WalletServer
use go_payment.Wallet.Tables.{WalletDb, find_balance, find_entry}
use go_payment.Wallet.Replies.{debit_refused}
use go_payment.Transfer.Tables.{TransferDb}
use go_payment.Transfer.Cache.{RedisClient}
use go_payment.Transfer.Domain.{Transfer}
use go_payment.Transfer.Server as TransferServer
use go_payment.Transfer.Service.{CreateRequest, move_funds, debit_key}
use go_payment.Transfer.WalletClient.{FromError, Calling, client}
use go_payment.Transfer.Funds.{ReadsStatus, loopback, at, debit_failed}
use go_payment.Identity.Token.{Claims, JwtPackage, TokenManager}
use go_payment.Gateway.Respond.{write_err, write_grpc_err}
use go_payment.Gateway.Handler.{TransferBody, IdentityClient, serve}
use go_payment.Gateway.Access.{Carries}
use go_payment.Platform.Requests.{post, asked, site, created_answer}
use go_payment.Platform.{System, Fresh, wallet_calls}
use go_payment.Platform.Keys.{debit-Accepted}
use go_payment.Platform.Create.{no_repo, no_cache, lifted_funds, create_failed, IsNewRequest}
use go_payment.Transfer.Service.Begun.{begun}

module _ {R : Type 0} (rdb : RedisClient R) (uuid : UuidPackage) (from_error : FromError)
    (src : String → Source) (jwt : JwtPackage) (tokens : TokenManager)
    (identity : IdentityClient (System R)) (parse_error : GoError) (fresh : Fresh)
    (hdr key : String) (claims : Claims) (body : TransferBody)
    (carries : Carries
      (site rdb uuid from_error src jwt tokens identity parse_error fresh)
      hdr
      claims)
    (readable : ReadsBack uuid) (d : TransferDb) (wd : WalletDb) (keys : R) (c : Circuit)
    (now : Time) (from to user : Uuid)
    (new : IsNewRequest rdb uuid (asked claims key body) from to user d keys)
    (closed : Breaker.allow now c ≡ true) where
  abbrev q : CreateRequest
  q = asked claims key body

  abbrev tid : Uuid
  tid = fresh.transfer.transfer_id

  abbrev key_d : String
  key_d = debit_key uuid tid

  abbrev wallets : Calling (Session WalletDb)
  wallets = at uuid from_error src c now (quiet wd)

  abbrev begun_transfer : Transfer
  begun_transfer = begun fresh.transfer q from to user

  abbrev before : System R
  before = record { transfers = quiet d; wallets = wallets; redis = keys }

  refused_funds :
      (b : Balance)
      → ReadsStatus from_error
      → find_balance from wd.account_balances ≡ some b
      → find_entry key_d wd.ledger_entries ≡ none
      → b.balance_minor <ℤ body.amount_minor
      → move_funds uuid no_repo
          (client from_error (loopback uuid from_error src))
          no_cache
          q
          begun_transfer
          wallets
        ≡ (err (sentinel Sentinel.insufficient_funds), wallets)
  unfolding move_funds WalletServer.map_err is text_of
  refused_funds b reads row fresh_entry short =
      rw
        (
          debit_failed uuid from_error src q.from_id q.amount (uuid.to_string tid) key_d c now
              (quiet wd) (quiet wd) closed (sentinel Sentinel.insufficient_funds)
              (debit_refused uuid (src key_d) q.from_id q.amount (uuid.to_string tid) key_d from tid
                (debit-Accepted uuid readable q.from_id q.amount from tid new.valid.reads_from
                  new.valid.positive)
                wd b row fresh_entry short),
          reads,
        )
        refl

  -- POST /v1/transfers at the gateway, down to the tables of the transfer and the wallet
  -- services, with every database call served and no other session: for a UUID package that reads
  -- what it prints and a status.FromError that reads status errors, a token that parses, a user
  -- id and wallet ids that parse, two different wallets, a positive amount above the balance of
  -- the first, a key that is not empty and that neither redis nor the table knows, a new key of
  -- the debit and a closed circuit, the answer is 409 with "insufficient funds", and nothing has
  -- changed, the circuit included.
  pub overdraft_answered :
      (b : Balance)
      → ReadsStatus from_error
      → find_balance from wd.account_balances ≡ some b
      → find_entry key_d wd.ledger_entries ≡ none
      → b.balance_minor <ℤ body.amount_minor
      → serve
          (site rdb uuid from_error src jwt tokens identity parse_error fresh)
          (post hdr key body)
          before
        ≡ (write_err 409 "insufficient funds", before)
  unfolding TransferServer.map_err is text_of write_grpc_err
  overdraft_answered b reads row fresh_entry short =
      let failed =
        create_failed rdb uuid (wallet_calls uuid from_error src) parse_error fresh.transfer q from
          to user d wallets wallets keys new (sentinel Sentinel.insufficient_funds)
          (rw
            (
              lifted_funds rdb uuid (client from_error (loopback uuid from_error src)) q
                  begun_transfer before,
              refused_funds b reads row fresh_entry short,
            )
            refl) in
      rw
        (
          created_answer rdb uuid from_error src jwt tokens identity parse_error fresh hdr key
              claims body carries (err (sentinel Sentinel.insufficient_funds)) before before failed,
          reads,
        )
        refl
