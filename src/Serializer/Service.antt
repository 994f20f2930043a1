-- ===== src/Serializer/Service.antt =====
-- The serializers as the operations of accelerator/core/apis.c call them.
use tangle_accelerator.Base.{ℕ, true, none, some, Bytes, List, [], codes, ◌≡◌, sym, ◌∙◌}
use tangle_accelerator.Errors.{Status, ok, cclient_failed_response}
use tangle_accelerator.Exec.{Outcome, done, fail}
use tangle_accelerator.Env.{Env}
use tangle_accelerator.Env.Json.{JsonTree, JsonLaws}
use tangle_accelerator.Env.Trits.{Trits, TxnFields}
use tangle_accelerator.Env.Laws.{RedisLaws, LockLaws, UuidLaws}
use tangle_accelerator.Env.Iota.{Iota}
use tangle_accelerator.Env.Tangle.{Tangle}
use tangle_accelerator.Env.Frame.{NetLaws}
use tangle_accelerator.Cache.Steps.{IsAlive}
use tangle_accelerator.Core.Buffer.{TaCache}
use tangle_accelerator.Core.Buffer.Push.{HaveSize}
use tangle_accelerator.Core.Attach.{SendConfig, ta_send_trytes, serialize_all}
use tangle_accelerator.Core.Requests.{Requests, AreNames, Shows, submit}
use tangle_accelerator.Core.Transfer.{SendTransferReq, prepared_bundle}
use tangle_accelerator.Core.Transfer.Buffered.{PreparesApart, IsUnused}
use tangle_accelerator.Core.Apis.{Serializers, no_res_yet, api_send_transfer}
use tangle_accelerator.Core.Apis.Refused.{api_send_transfer_buffers}
use tangle_accelerator.Serializer.Helper.{◌>>?◌}
use tangle_accelerator.Serializer.Transfer.{ta_send_transfer_req_deserialize}
use tangle_accelerator.Serializer.Requests.{
  ta_send_trytes_req_deserialize, ta_find_transaction_objects_req_deserialize,
}
use tangle_accelerator.Serializer.Responses.{
  Info, ta_get_info_serialize, ta_send_trytes_res_serialize,
  ta_find_transactions_by_tag_res_serialize, ta_find_transaction_object_single_res_serialize,
  ta_find_transaction_objects_res_serialize, ta_send_transfer_res_serialize,
  get_node_status_res_serialize, fetch_buffered_request_status_res_serialize,
}
use tangle_accelerator.Serializer.Mam.{SendMamReq}
use tangle_accelerator.Serializer.Mam.Requests.{send_mam_message_req_deserialize}
use tangle_accelerator.Serializer.Mam.Responses.{send_mam_message_res_serialize}
use tangle_accelerator.Serializer.RoundTrip.{ta_send_transfer_res_serialize-uuid}

abbrev status_of : Outcome (Unit {0}) → Status
status_of (done u) = ok
status_of (fail s) = s

unfoldable pub api_get_ta_info : (j : JsonTree) → Info → Outcome Bytes
api_get_ta_info j info = ta_get_info_serialize j info

-- `behind`, `stack` and `req` are what the memory holds behind a string, in an array and in a new request.
module _ (j : JsonTree) (t : Trits) (behind : Bytes → Bytes) (stack : Bytes) (req : SendMamReq)
    {Txn : Type 0} (f : TxnFields Txn) where
  abbrev pub source_serializers : Serializers Txn
  source_serializers = record {
    find_transaction_objects_req_deserialize =
        λ obj. ta_find_transaction_objects_req_deserialize j t behind (some obj) [];
    find_transaction_objects_res_serialize = ta_find_transaction_objects_res_serialize j t f;
    find_transaction_object_single_res_serialize =
        ta_find_transaction_object_single_res_serialize j t f;
    find_transactions_by_tag_res_serialize =
        λ hashes. ta_find_transactions_by_tag_res_serialize j t (some (some hashes));
    send_transfer_req_deserialize = λ obj.
        ta_send_transfer_req_deserialize j t behind stack (some obj) >>? λ (value, r). done r;
    send_transfer_res_serialize = ta_send_transfer_res_serialize j t f;
    send_trytes_req_deserialize = λ obj. ta_send_trytes_req_deserialize j t (some obj) true [];
    send_trytes_res_serialize = λ trytes. ta_send_trytes_res_serialize j t (some trytes);
    get_node_status_res_serialize = λ ret. get_node_status_res_serialize j (status_of ret);
    fetch_buffered_request_status_res_serialize =
        λ res. fetch_buffered_request_status_res_serialize j t f (some res);
    send_mam_message_req_deserialize =
        λ obj. send_mam_message_req_deserialize j (some obj) (some req) >>? λ r. done tt;
    send_mam_message_res_serialize = λ uuid. send_mam_message_res_serialize j none (some uuid);
  }

module _ {e : Env} {r : RedisLaws e} (l : LockLaws e r) (alive : IsAlive r) (u : UuidLaws e r)
    (txn_size : ℕ) (i : Iota e.World) (tangle : Tangle i) (net : NetLaws l i) (cache : TaCache)
    (names : AreNames cache) (iconf : SendConfig) (seed : Bytes) (req : SendTransferReq)
    {j : JsonTree} (laws : JsonLaws j) (t : Trits) (behind : Bytes → Bytes) (stack : Bytes)
    (mam_req : SendMamReq) (f : TxnFields i.Txn) where
  -- While redis refuses no command, and where preparing a transfer and asking the node leave the database and the lock
  -- alone: if the request's text is read as a transfer, the database shows an abstract state, the names of both lists
  -- hold no NUL and differ, the transfer's transactions can be made and serialized with the serialized size, the node
  -- then refuses them with SC_CCLIENT_FAILED_RESPONSE, the UUID made behind that is not in use (by no request, as no
  -- list's name and as no key), and the request is answered with a text, then that text is JSON whose member "uuid" is
  -- the string of the UUID under which the request is submitted in the state that the database then shows.
  pub api_send_transfer_uuid :
      let s = source_serializers j t behind stack mam_req f in
      (obj text : Bytes) (w : e.World) (a : Requests) (out_bundle : List i.Txn)
      (raw_tx : List Bytes)
      → PreparesApart l alive u txn_size i tangle net cache names iconf seed req
          (no_res_yet e true i tangle s)
      → s.send_transfer_req_deserialize obj ≡ done req
      → Shows r cache w a
      → (prepared_bundle i tangle seed req w).0 ≡ done out_bundle
      → serialize_all i out_bundle ≡ done raw_tx
      → HaveSize r alive txn_size raw_tx
      → (ta_send_trytes i iconf raw_tx (prepared_bundle i tangle seed req w).1).0
        ≡ fail cclient_failed_response
      → IsUnused l alive u txn_size i tangle net cache names iconf seed req
          (no_res_yet e true i tangle s)
          a
          (ta_send_trytes i iconf raw_tx (prepared_bundle i tangle seed req w).1).1
      → (api_send_transfer e true i tangle s txn_size iconf seed cache obj w).0 ≡ done text
      → (json : j.Json) × (item : j.Json) × (uuid : Bytes) × (j.parse text ≡ some json)
        × (j.get_object_item json (codes "uuid") ≡ some item)
        × (j.create_string uuid ≡ some item)
        × Shows r cache
            (api_send_transfer e true i tangle s txn_size iconf seed cache obj w).1
            (submit uuid raw_tx a)
  api_send_transfer_uuid obj text w a out_bundle raw_tx apart read shown p q size refuses unused h =
      let s = source_serializers j t behind stack mam_req f in
      let (res, uuid, ret, told, after) =
        api_send_transfer_buffers l alive u txn_size i tangle net cache names iconf seed req s obj w
          a out_bundle raw_tx apart read shown p q size refuses unused in
      let (json, item, parsed, got, string) =
        ta_send_transfer_res_serialize-uuid laws t f res uuid text told (sym ret ∙ h) in
      (json, item, uuid, parsed, got, string, after)
