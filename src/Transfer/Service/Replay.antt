-- ===== src/Transfer/Service/Replay.antt =====
-- A client that repeats a request after a success: the stored transfer answers it.
use go_payment.Prelude.{
  ◌≡◌, refl, String, true, false, none, some, List, [], ◌∷◌, ◌++◌, arith, str_eq, eq_iff,
}
use go_payment.Errors.{GoError}
use go_payment.Exec.{ok}
use go_payment.Database.{quiet, query}
use go_payment.Uuid.{Uuid, UuidPackage}
use go_payment.Transfer.Domain.{Transfer}
use go_payment.Transfer.Tables.{TransferDb, find_by_key, find_transfer, has_event}
use go_payment.Transfer.Postgres.{get_by_idempotency_key, scan}
use go_payment.Transfer.Postgres.Atomic.{with_transfer}
use go_payment.Transfer.Service.{Draw, CreateRequest, event_of, create}
use go_payment.Transfer.Service.Begun.{done, IsValid}
use go_payment.Transfer.Service.Retry.{Call, recorded_repo, recording, empty_cache, moved, repeated}

pub find_by_key-append :
    (key : String) (tr : Transfer) (ts : List Transfer)
    → tr.idempotency_key ≡ key
    → find_by_key key ts ≡ none
    → find_by_key key (ts ++ tr ∷ []) ≡ some tr
unfolding find_by_key
find_by_key-append key tr [] h new = ground (arith, eq_iff tr.idempotency_key key)
find_by_key-append key tr (x ∷ ts) h new = ground (arith, find_by_key-append key tr ts h)

module _ (uuid : UuidPackage) (parse_error : GoError) where
  -- A key that is stored: whatever else the request says, the transfer with the key is the answer,
  -- no wallet is called and nothing is written.
  pub create_replays :
      (draw : Draw) (q : CreateRequest) (tr : Transfer) (d : TransferDb) (calls : List Call)
      → str_eq q.key "" ≡ false
      → find_by_key q.key d.transfers ≡ some tr
      → create uuid recorded_repo recording empty_cache parse_error draw q
          (record { db = quiet d; calls = calls })
        ≡ (
          ok (record { transfer = tr; idempotent_replay = true }),
          record { db = quiet d; calls = calls },
        )
  unfolding create scan query get_by_idempotency_key
  create_replays draw q tr d calls has_key there = rw (has_key, there)

  -- With every database call served, no other session, a wallet service that accepts every call
  -- and a cache that holds nothing, a valid request with a new key debits and credits once and
  -- stores the transfer; a second request with the key, whatever else it says, answers the stored
  -- transfer as a replay, makes no wallet call and writes nothing.
  pub create_once :
      (q q' : CreateRequest) (from to user : Uuid) (d : TransferDb) (draw draw' : Draw)
      → IsValid uuid q from to user
      → find_by_key q.key d.transfers ≡ none
      → find_transfer draw.transfer_id d.transfers ≡ none
      → has_event draw.event_id d.outbox_events ≡ false
      → q'.key ≡ q.key
      → let call = create uuid recorded_repo recording empty_cache parse_error in
        let (r1, s1) = call draw q (record { db = quiet d; calls = [] }) in
        let (r2, s2) = call draw' q' s1 in
        (tr : Transfer) × (r1 ≡ ok (record { transfer = tr; idempotent_replay = false }))
        × (r2 ≡ ok (record { transfer = tr; idempotent_replay = true }))
        × (s2 ≡ s1)
        × (s2.calls ≡ moved uuid q draw)
  create_once q q' from to user d draw draw' valid fresh new_id new_event same =
      let tr = done uuid draw q from to user in
      let first = repeated uuid parse_error q from to user d valid fresh draw [] new_id new_event in
      let again =
        create_replays draw' q' tr (with_transfer tr (event_of uuid draw tr) d) (moved uuid q draw)
          (rw same valid.has_key) (rw same (find_by_key-append q.key tr d.transfers refl fresh)) in
      rw (first, again) (tr, refl, refl, refl, refl)
