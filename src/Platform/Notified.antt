-- ===== src/Platform/Notified.antt =====
-- From a transfer at the gateway to the notification: the worker publishes its event, and the consumer
-- gets the message, however often.
use go_payment.Prelude.{◌++◌, [], ◌∷◌, ◌≡◌, refl, String, true, false, none, List}
use go_payment.Errors.{GoError}
use go_payment.Exec.{ok}
use go_payment.Breaker
use go_payment.Breaker.{Circuit}
use go_payment.Database.{Session, quiet, Verdict, served}
use go_payment.Uuid.{Uuid, Time, UuidPackage, Source, ReadsBack}
use go_payment.Wallet.Domain.{Balance}
use go_payment.Wallet.Tables.{WalletDb}
use go_payment.Transfer.Tables.{TransferDb, find_transfer, has_event}
use go_payment.Transfer.Cache.{RedisClient}
use go_payment.Transfer.Domain.{Transfer}
use go_payment.Transfer.Service.{CreateRequest}
use go_payment.Transfer.WalletClient.{FromError, Calling}
use go_payment.Transfer.Funds.{at}
use go_payment.Identity.Token.{Claims, JwtPackage, TokenManager}
use go_payment.Gateway.Handler.{TransferBody, IdentityClient, serve}
use go_payment.Gateway.Access.{Carries}
use go_payment.Platform.Requests.{post, asked, site}
use go_payment.Platform.{System, Fresh}
use go_payment.Platform.Create.{IsNewRequest}
use go_payment.Transfer.Service.Begun.{begun, done}
use go_payment.Platform.After.{CanMove, after}
use go_payment.Platform.Completes.{transfer_answered}
use go_payment.Prelude.{suc, ℕ, ◌<◌, str_eq}
use go_payment.Outbox.{Payload, json, tick}
use go_payment.Outbox.Delivery.{store, publisher}
use go_payment.Outbox.Single.{none_pending, tick_single}
use go_payment.Transfer.Tables.{unpublished}
use go_payment.Transfer.Service.{event_of, payload_of}
use go_payment.Kafka.{Message, reliable, publish, publish_rounds, write}
use go_payment.Kafka.Delivery.{Broker}
use go_payment.Kafka.Delivery
use go_payment.Notification.Service.{notification}
use go_payment.Notification.Postgres.{NotificationDb, is_processed}
use go_payment.Notification.Consumer.{stop, run}
use go_payment.Notification.Commits.Loop
use go_payment.Notification.Stream.{IsReady}
use go_payment.Notification.Stream.Runs.{length, run_stores}
use go_payment.Notification.Stream.Copies.{copies, stored-copies}

-- Publish, at a broker that takes the next message.
publish_taken :
    (key : String) (value : Payload) (b : Broker) (rest : List Verdict)
    → b.answers ≡ served ∷ rest
    → (reliable Delivery.publisher).publish key value b ≡ (
      ok tt,
      record b {
        answers = rest;
        tried = suc b.tried;
        topic = b.topic ++ record { key = key; value = value; headers = b.trace } ∷ [];
      },
    )
unfolding publish publish_rounds write
publish_taken key value b rest e = rw e refl

module _ {R : Type 0} (rdb : RedisClient R) (uuid : UuidPackage) (from_error : FromError)
    (src : String → Source) (jwt : JwtPackage) (tokens : TokenManager)
    (identity : IdentityClient (System R)) (parse_error : GoError) (fresh : Fresh)
    (hdr key : String) (claims : Claims) (body : TransferBody)
    (carries : Carries
      (site rdb uuid from_error src jwt tokens identity parse_error fresh)
      hdr
      claims)
    (readable : ReadsBack uuid) (d : TransferDb) (wd : WalletDb) (keys : R) (c : Circuit)
    (now : Time) (from to user : Uuid)
    (new : IsNewRequest rdb uuid (asked claims key body) from to user d keys)
    (closed : Breaker.allow now c ≡ true) where
  abbrev q : CreateRequest
  q = asked claims key body

  abbrev tid : Uuid
  tid = fresh.transfer.transfer_id

  abbrev wallets : Calling (Session WalletDb)
  wallets = at uuid from_error src c now (quiet wd)

  abbrev begun_transfer : Transfer
  begun_transfer = begun fresh.transfer q from to user

  abbrev before : System R
  before = record { transfers = quiet d; wallets = wallets; redis = keys }

  abbrev tr : Transfer
  tr = done uuid fresh.transfer q from to user

  module _ (b_from b_to : Balance) (can : CanMove uuid src q tid from to wd b_from b_to)
      (new_id : find_transfer tid d.transfers ≡ none)
      (new_event : has_event fresh.transfer.event_id d.outbox_events ≡ false) where
    abbrev ended : System R
    ended = after rdb uuid from_error src fresh.transfer q d wd keys c now from to user b_from b_to

    abbrev message : Broker → Message
    message b = record {
      key = uuid.to_string tid;
      value = json (payload_of uuid tr);
      headers = b.trace;
    }

    -- From a transfer at the gateway to its notification, with every database call served and no
    -- other session: when a POST /v1/transfers finds a UUID package that reads what it prints and
    -- prints no empty text for the id of the transfer, a token that parses, a user id and wallet
    -- ids that parse, a positive amount that the first of two different wallets covers and that
    -- fits the balance of the second, rows that are not negative and whose versions can be
    -- counted up, new ids and wallet keys, a key that is not empty and that neither redis nor the
    -- table knows, a closed circuit and no event left unpublished, then a Tick of the worker with
    -- a broker that takes the next message succeeds, leaves no event unpublished and puts one
    -- message on the topic, with the id of the transfer as its key and its payload as the value;
    -- and a consumer that gets this message one or more times, from any offsets, with the event
    -- not processed before, new and different ids to draw, every notification belonging to a
    -- processed event, and more rounds than messages, ends with every copy committed and with
    -- exactly one notification more, that of the transfer.
    pub transfer_notified :
        (b : Broker) (answers : List Verdict) (now' : ℕ → Time) (topic : String) (p : ℕ × ℕ)
        (ps : List (ℕ × ℕ)) (show : ℕ → String) (drawn : ℕ → Uuid) (nd : NotificationDb) (fuel : ℕ)
        → unpublished d.outbox_events ≡ []
        → b.answers ≡ served ∷ answers
        → str_eq (uuid.to_string tid) "" ≡ false
        → is_processed (uuid.to_string tid) nd.processed_events ≡ false
        → IsReady drawn 0 nd
        → length (copies topic (message b) (p ∷ ps)) < fuel
        → let first =
            serve
              (site rdb uuid from_error src jwt tokens identity parse_error fresh)
              (post hdr key body)
              before in
          let (r, w) =
            tick store
              (publisher (reliable Delivery.publisher))
              now'
              (record { db = first.1.transfers; broker = b }) in
          let (r', inbox) = run show Loop.store Loop.reader fuel 0 drawn (record {
            db = quiet nd;
            waiting = copies topic (message b) (p ∷ ps);
            commits = [];
            committed = [];
          }) in
          (r ≡ ok tt)
          × (unpublished w.db.tables.outbox_events ≡ [])
          × (w.broker.topic ≡ b.topic ++ message b ∷ [])
          × (r' ≡ ok stop)
          × (inbox.committed ≡ copies topic (message b) (p ∷ ps))
          × (inbox.db.tables.notifications
              ≡ nd.notifications
                ++ notification
                    (drawn 0)
                    (uuid.to_string tid)
                    (json (payload_of uuid tr))
                    (payload_of uuid tr)
                  ∷ [])
    transfer_notified b answers now' topic p ps show drawn nd fuel settled takes keyed unseen ready
          enough =
        let done_db : TransferDb = record d { transfers = d.transfers ++ tr ∷ [] } in
        let ev = event_of uuid fresh.transfer tr in
        let ticked =
          tick_single (reliable Delivery.publisher) now' ev done_db b _ settled new_event
            (publish_taken (uuid.to_string tid) (json (payload_of uuid tr)) b answers takes) in
        let ran =
          run_stores show drawn fuel 0 (copies topic (message b) (p ∷ ps)) [] nd enough ready in
        let (one, all) =
          stored-copies show drawn topic (message b) keyed (payload_of uuid tr) p ps nd refl
            unseen in
        rw
          (
            transfer_answered rdb uuid from_error src jwt tokens identity parse_error fresh hdr key
                claims body carries readable d wd keys c now from to user new closed b_from b_to can
                new_id new_event,
            ticked,
            ran,
            one,
            all,
          )
          (refl, none_pending ev (now' 0) done_db settled, refl, refl, refl, refl)
