-- ===== src/Platform/Completes.antt =====
-- A transfer that goes through, and the same key sent again.
use go_payment.Prelude.{arith, ◌++◌, [], ◌∷◌, ◌≡◌, refl, String, true, false, some, none, List}
use go_payment.Errors.{GoError}
use go_payment.Exec.{ok}
use go_payment.Breaker
use go_payment.Breaker.{Circuit}
use go_payment.Database.{Session, quiet}
use go_payment.Uuid.{Uuid, Time, UuidPackage, Source, ReadsBack}
use go_payment.Wallet.Domain.{Balance}
use go_payment.Wallet.Tables.{WalletDb}
use go_payment.Transfer.Funds.Moves.{funds_move}
use go_payment.Transfer.Tables.{TransferDb, find_transfer, has_event}
use go_payment.Transfer.Cache.{redis_key, ttl, RedisClient}
use go_payment.Transfer.Domain.{Transfer}
use go_payment.Transfer.Service.{CreateRequest, create}
use go_payment.Transfer.WalletClient.{FromError, Calling, client}
use go_payment.Transfer.Funds.{loopback, at}
use go_payment.Identity.Token.{Claims, JwtPackage, TokenManager}
use go_payment.Gateway.Handler.{TransferBody, IdentityClient, serve}
use go_payment.Gateway.Access.{Carries}
use go_payment.Platform.Requests.{post, asked, answer_of, site, created_answer}
use go_payment.Platform.{ReadsSet, System, Fresh, repo, cache, wallet_calls}
use go_payment.Platform.Keys.{debit-Accepted, credit-Accepted}
use go_payment.Platform.Create.{
  no_repo, no_cache, lifted_funds, create_moved, create_cached, IsNewRequest,
}
use go_payment.Transfer.Service.Begun.{begun, done}
use go_payment.Platform.After.{CanMove, after}

find_transfer-append :
    (id : Uuid) (ts : List Transfer) (t : Transfer)
    → t.id ≡ id
    → find_transfer id ts ≡ none
    → find_transfer id (ts ++ t ∷ []) ≡ some t
unfolding find_transfer
find_transfer-append id [] t same h = ground (arith, same)
find_transfer-append id (x ∷ xs) t same h = ground (arith, find_transfer-append id xs t same, h)

module _ {R : Type 0} (rdb : RedisClient R) (uuid : UuidPackage) (from_error : FromError)
    (src : String → Source) (jwt : JwtPackage) (tokens : TokenManager)
    (identity : IdentityClient (System R)) (parse_error : GoError) (fresh : Fresh)
    (hdr key : String) (claims : Claims) (body : TransferBody)
    (carries : Carries
      (site rdb uuid from_error src jwt tokens identity parse_error fresh)
      hdr
      claims)
    (readable : ReadsBack uuid) (d : TransferDb) (wd : WalletDb) (keys : R) (c : Circuit)
    (now : Time) (from to user : Uuid)
    (new : IsNewRequest rdb uuid (asked claims key body) from to user d keys)
    (closed : Breaker.allow now c ≡ true) where
  abbrev q : CreateRequest
  q = asked claims key body

  abbrev tid : Uuid
  tid = fresh.transfer.transfer_id

  abbrev wallets : Calling (Session WalletDb)
  wallets = at uuid from_error src c now (quiet wd)

  abbrev begun_transfer : Transfer
  begun_transfer = begun fresh.transfer q from to user

  abbrev before : System R
  before = record { transfers = quiet d; wallets = wallets; redis = keys }

  abbrev tr : Transfer
  tr = done uuid fresh.transfer q from to user

  module _ (b_from b_to : Balance) (can : CanMove uuid src q tid from to wd b_from b_to)
      (new_id : find_transfer tid d.transfers ≡ none)
      (new_event : has_event fresh.transfer.event_id d.outbox_events ≡ false) where
    abbrev ended : System R
    ended = after rdb uuid from_error src fresh.transfer q d wd keys c now from to user b_from b_to

    created :
        create uuid repo
          (wallet_calls uuid from_error src)
          (cache rdb)
          parse_error
          fresh.transfer
          q
          before
        ≡ (ok (record { transfer = tr; idempotent_replay = false }), ended)
    created =
        create_moved rdb uuid (wallet_calls uuid from_error src) parse_error fresh.transfer q from
          to user d wallets ended.wallets keys new new_id new_event
          (rw
            (
              lifted_funds rdb uuid (client from_error (loopback uuid from_error src)) q
                  begun_transfer before,
              funds_move uuid from_error src no_repo no_cache q begun_transfer from to c now wd
                  b_from b_to
                  (debit-Accepted uuid readable q.from_id q.amount from tid new.valid.reads_from
                    new.valid.positive)
                  (credit-Accepted uuid readable q.to_id q.amount to tid new.valid.reads_to
                    new.valid.positive)
                  can.row_from can.row_to can.differ can.room_d can.room_c can.ids can.fits
                  can.covered can.nonneg can.fits_to closed,
            )
            refl)

    -- POST /v1/transfers at the gateway, down to the tables of the transfer and the wallet
    -- services, with every database call served and no other session: for a UUID package that
    -- reads what it prints, a token that parses, a user id and wallet ids that parse, a positive
    -- amount that the first of two different wallets covers and that fits the balance of the
    -- second, rows that are not negative and whose versions can be counted up, new ids and wallet
    -- keys, a key that is not empty and that neither redis nor the table knows, and a closed
    -- circuit, the answer is 200 with the id of a completed transfer that is no replay; the
    -- transfer carries the user of the token and the key of the header, its event is in the
    -- outbox, the two balances have moved by the amount with one entry each, and redis was given
    -- the key.
    pub transfer_answered :
        serve
          (site rdb uuid from_error src jwt tokens identity parse_error fresh)
          (post hdr key body)
          before
        ≡ (
          answer_of uuid from_error (ok (record { transfer = tr; idempotent_replay = false })),
          ended,
        )
    transfer_answered =
        created_answer rdb uuid from_error src jwt tokens identity parse_error fresh hdr key claims
          body carries (ok (record { transfer = tr; idempotent_replay = false })) before ended
          created

    stored : find_transfer tid ended.transfers.tables.transfers ≡ some tr
    stored = find_transfer-append tid d.transfers tr refl new_id

    -- After a POST /v1/transfers that went through (with every database call served and no other
    -- session, a UUID package that reads what it prints, a token that parses, a user id and
    -- wallet ids that parse, a positive amount that is covered and that fits between two
    -- different wallets whose rows are not negative and whose versions can be counted up, new ids
    -- and keys, a key that is not empty, and a closed circuit), for a redis whose GET reads what
    -- SET wrote and which has taken the key: a second POST /v1/transfers with a token that parses
    -- and the same key answers the first transfer as a replay and changes nothing, whatever its
    -- JSON body is and whosever token it carries.
    pub replay_answered :
        (fresh' : Fresh) (hdr' : String) (claims' : Claims) (body' : TransferBody)
        → Carries (site rdb uuid from_error src jwt tokens identity parse_error fresh') hdr' claims'
        → ReadsSet rdb
        → (rdb.set (redis_key key) (uuid.to_string tid) ttl keys).0 ≡ ok tt
        → let first =
            serve
              (site rdb uuid from_error src jwt tokens identity parse_error fresh)
              (post hdr key body)
              before in
          serve
            (site rdb uuid from_error src jwt tokens identity parse_error fresh')
            (post hdr' key body')
            first.1
          ≡ (
            answer_of uuid from_error (ok (record { transfer = tr; idempotent_replay = true })),
            first.1,
          )
    replay_answered fresh' hdr' claims' body' carries' reads_set kept =
        rw
          (
            transfer_answered,
            created_answer rdb uuid from_error src jwt tokens identity parse_error fresh' hdr' key
                claims' body' carries' (ok (record { transfer = tr; idempotent_replay = true }))
                ended ended
                (create_cached rdb uuid (wallet_calls uuid from_error src) parse_error
                  fresh'.transfer (asked claims' key body') tid tr ended.transfers.tables
                  ended.wallets ended.redis new.valid.has_key
                  (reads_set (redis_key key) (uuid.to_string tid) ttl keys kept) (readable tid)
                  stored),
          )
          refl
