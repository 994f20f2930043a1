-- ===== src/Core/Apis/Refused.antt =====
-- accelerator/core/apis.c: a transfer that the node refuses is answered with the UUID under which it is buffered.
use tangle_accelerator.Base.{ℕ, true, none, some, Bytes, List, ◌≡◌, sym, ap, subst, ◌∙◌}
use tangle_accelerator.Errors.{cclient_failed_response}
use tangle_accelerator.Exec.{done, fail, continue}
use tangle_accelerator.Env.{Env}
use tangle_accelerator.Env.Laws.{RedisLaws, LockLaws, UuidLaws}
use tangle_accelerator.Env.Iota.{Iota}
use tangle_accelerator.Env.Tangle.{Tangle}
use tangle_accelerator.Env.Frame.{NetLaws}
use tangle_accelerator.Cache.Steps.{IsAlive}
use tangle_accelerator.Core.Buffer.{TaCache}
use tangle_accelerator.Core.Buffer.Push.{HaveSize}
use tangle_accelerator.Core.Attach.{SendConfig, ta_send_trytes, serialize_all}
use tangle_accelerator.Core.Requests.{Requests, AreNames, Shows, submit}
use tangle_accelerator.Core.Transfer.{
  SendTransferReq, SendTransferRes, prepared_bundle, ta_send_transfer,
}
use tangle_accelerator.Core.Transfer.Buffered.{PreparesApart, IsUnused, ta_send_transfer_buffers}
use tangle_accelerator.Core.Apis.{Serializers, no_res_yet, transfer_answer, api_send_transfer}

module _ {e : Env} {r : RedisLaws e} (l : LockLaws e r) (alive : IsAlive r) (u : UuidLaws e r)
    (txn_size : ℕ) (i : Iota e.World) (t : Tangle i) (net : NetLaws l i) (cache : TaCache)
    (names : AreNames cache) (iconf : SendConfig) (seed : Bytes) (req : SendTransferReq)
    (s : Serializers i.Txn) where
  -- If the request's text is read as a transfer, the database shows an abstract state, the transfer's transactions can
  -- be made and serialized with the serialized size, the node then refuses them with
  -- SC_CCLIENT_FAILED_RESPONSE, and the UUID made behind that is not in use, then the answer is what the serializer makes of a response with a UUID, and the
  -- request is submitted under it in the state that the database then shows.
  pub api_send_transfer_buffers :
      (obj : Bytes) (w : e.World) (a : Requests) (out_bundle : List i.Txn) (raw_tx : List Bytes)
      → PreparesApart l alive u txn_size i t net cache names iconf seed req
          (no_res_yet e true i t s)
      → s.send_transfer_req_deserialize obj ≡ done req
      → Shows r cache w a
      → (prepared_bundle i t seed req w).0 ≡ done out_bundle
      → serialize_all i out_bundle ≡ done raw_tx
      → HaveSize r alive txn_size raw_tx
      → (ta_send_trytes i iconf raw_tx (prepared_bundle i t seed req w).1).0
        ≡ fail cclient_failed_response
      → IsUnused l alive u txn_size i t net cache names iconf seed req
          (no_res_yet e true i t s)
          a
          (ta_send_trytes i iconf raw_tx (prepared_bundle i t seed req w).1).1
      → let (ret, w') = api_send_transfer e true i t s txn_size iconf seed cache obj w in
        (res : SendTransferRes) × (uuid : Bytes) × (ret ≡ s.send_transfer_res_serialize res none)
        × (res.uuid ≡ some uuid)
        × Shows r cache w' (submit uuid raw_tx a)
  unfolding api_send_transfer
  api_send_transfer_buffers obj w a out_bundle raw_tx apart read shown p q size refuses unused =
      let no_res = no_res_yet e true i t s in
      let sent = ta_send_transfer e true txn_size i t iconf seed cache (some req) no_res w in
      let (ret, uuid, told, after) =
        ta_send_transfer_buffers l alive u txn_size i t net cache names iconf seed req no_res w a
          out_bundle raw_tx cclient_failed_response apart shown p q size refuses unused in
      let path : api_send_transfer e true i t s txn_size iconf seed cache obj w
          ≡ (s.send_transfer_res_serialize sent.0.1 none, sent.1) =
        ap
          (λ o.
            continue o
              (λ x v.
                transfer_answer e true i t s
                  (ta_send_transfer e true txn_size i t iconf seed cache (some x) no_res v))
              w)
          read
        ∙ ap (λ x. transfer_answer e true i t s ((x, sent.0.1), sent.1)) ret in
      (
        sent.0.1,
        uuid,
        ap (λ y. y.0) path,
        told,
        subst (λ y. Shows r cache y.1 (submit uuid raw_tx a)) (sym path) after,
      )
