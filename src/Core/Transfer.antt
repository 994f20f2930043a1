-- ===== src/Core/Transfer.antt =====
-- accelerator/core/core.c: sending a transfer, and sending a bundle.
pub mod Buffered
use tangle_accelerator.Base.{ℕ, Bool, true, false, Option, none, some, Bytes, List, [], ◌∷◌, map}
use tangle_accelerator.Errors.{Status, null, oom, cclient_failed_response}
use tangle_accelerator.Exec.{Outcome, done, fail, Exec, ◌>>=◌, continue}
use tangle_accelerator.Env.{Env}
use tangle_accelerator.Env.Iota.{Iota}
use tangle_accelerator.Env.Tangle.{Tangle, Transfer}
use tangle_accelerator.Core.Buffer.{TaCache, push_txn_to_buffer}
use tangle_accelerator.Core.Attach.{SendConfig, ta_send_trytes, serialize_all}
use tangle_accelerator.Core.Query.{front, or_failed, by_bundle}

-- ta_send_transfer_req_t: the queues of addresses and tags have the element that is used.
pub record SendTransferReq : Type 0 where
  pub message : Bytes
  pub msg_len : ℕ
  pub address : Bytes
  pub tag : Bytes

-- What ta_send_transfer sets of ta_send_transfer_res_t.
pub record SendTransferRes : Type 0 where
  pub uuid : Option Bytes
  pub address : Option Bytes
  pub hash : List Bytes

module _ {W : Type 0} (i : Iota W) (t : Tangle i) where
  -- Any error of sending is logged only.
  unfoldable pub ta_send_bundle : SendConfig → List i.Txn → Exec W Unit
  ta_send_bundle iconf bundle w =
      (done tt, (ta_send_trytes i iconf (map (λ x. (i.on_trits x).1) (t.finalize bundle)) w).1)

  abbrev pub transfer_of : SendTransferReq → ℕ → Option Bytes → Outcome Transfer
  transfer_of req now none = fail oom
  transfer_of req now (some message) =
      done (record { timestamp = now; message = message; address = req.address; tag = req.tag })

  abbrev pub timestamp_now : Exec W ℕ
  timestamp_now w = let (now, w') = i.current_timestamp_ms w in (done now, w')

  -- From the start to iota_client_prepare_transfers.
  unfoldable pub prepared_bundle : Bytes → SendTransferReq → Exec W (List i.Txn)
  prepared_bundle seed req = do
    now ← timestamp_now
    transfer ← λ w. (transfer_of req now (t.message_of req.message req.msg_len), w)
    later ← timestamp_now
    or_failed i t (t.prepare_transfers (i.from_trytes seed) 2 transfer later)

  abbrev pub found_in : SendTransferRes → Option (List Bytes) → Outcome (Unit {0}) × SendTransferRes
  found_in res none = (fail cclient_failed_response, res)
  found_in res (some hashes) = (done tt, record res { hash = hashes })

module _ (e : Env) (state : Bool) (txn_size : ℕ) (i : Iota e.World) (t : Tangle i) where
  -- Behind ta_send_trytes: `raw_tx` is still what it was where that fails.
  abbrev pub after_send :
      TaCache
      → List i.Txn
      → List Bytes
      → SendTransferRes
      → Outcome (List Bytes) × e.World
      → (Outcome (Unit {0}) × SendTransferRes) × e.World
  after_send cache out_bundle raw_tx res (fail s, w) =
      let (ret, uuid, w') = push_txn_to_buffer e state txn_size cache raw_tx true w in
      (
        (
          fail s,
          record res {
            uuid = some uuid;
            address = some (i.to_trytes (t.address_of (front out_bundle)));
          },
        ),
        w',
      )
  after_send cache out_bundle raw_tx res (done sent, w) =
      let (r, w') = t.find_transactions (by_bundle (t.bundle_of (front out_bundle))) w in
      (found_in i t res r, w')

  abbrev pub with_raw :
      SendConfig
      → TaCache
      → List i.Txn
      → SendTransferRes
      → Outcome (List Bytes)
      → e.World
      → (Outcome (Unit {0}) × SendTransferRes) × e.World
  with_raw iconf cache out_bundle res (fail s) w = ((fail s, res), w)
  with_raw iconf cache out_bundle res (done raw_tx) w =
      after_send cache out_bundle raw_tx res (ta_send_trytes i iconf raw_tx w)

  abbrev pub with_bundle :
      SendConfig
      → TaCache
      → SendTransferRes
      → Outcome (List i.Txn) × e.World
      → (Outcome (Unit {0}) × SendTransferRes) × e.World
  with_bundle iconf cache res (fail s, w) = ((fail s, res), w)
  with_bundle iconf cache res (done out_bundle, w) =
      with_raw iconf cache out_bundle res (serialize_all i out_bundle) w

  -- `req` may be NULL; the response, which is not, is also read behind an error.
  unfoldable pub ta_send_transfer :
      SendConfig
      → Bytes
      → TaCache
      → Option SendTransferReq
      → SendTransferRes
      → e.World
      → (Outcome (Unit {0}) × SendTransferRes) × e.World
  unfolding prepared_bundle
  ta_send_transfer iconf seed cache none res w = ((fail null, res), w)
  ta_send_transfer iconf seed cache (some req) res w =
      with_bundle iconf cache res (prepared_bundle i t seed req w)
