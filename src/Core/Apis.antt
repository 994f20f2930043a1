-- ===== src/Core/Apis.antt =====
-- accelerator/core/apis.c: the operations that the HTTP server calls, from a request's text to a response's.
pub mod Refused
use tangle_accelerator.Base.{
  ℕ, zero, suc, ◌-◌, Bool, Option, none, some, Bytes, List, [], ◌∷◌, if◌then◌else◌, length, take,
  drop, c_str, ltb,
}
use tangle_accelerator.Errors.{oom, cclient_failed_response, core_node_unsync}
use tangle_accelerator.Exec.{Outcome, done, fail, Exec, ◌>>=◌, ◌>>◌, pure, raise}
use tangle_accelerator.Env.{Env, Cjson}
use tangle_accelerator.Env.Iota.{Iota}
use tangle_accelerator.Env.Tangle.{Tangle, FindTransactionsReq}
use tangle_accelerator.Utils.FillNines.{Padding, returns, fill_nines, num_trytes_tag}
use tangle_accelerator.Cache.{cache_set, cache_list_push}
use tangle_accelerator.Core.Buffer.{
  TaCache, BufferedStatus, FetchRes, mam_bufreq_not_exist, uuid_len, ta_fetch_txn_with_uuid,
  ta_fetch_mam_with_uuid,
}
use tangle_accelerator.Core.Node.{Service, ta_get_node_status}
use tangle_accelerator.Core.Attach.{SendConfig, ta_send_trytes}
use tangle_accelerator.Core.Query.{
  or_failed, result_set_limit, ta_find_transaction_objects, ta_find_transactions_obj_by_tag,
}
use tangle_accelerator.Core.Transfer.{SendTransferReq, SendTransferRes, ta_send_transfer}

-- The serializers of accelerator/core/serializer, by the functions' names without the `ta_` in front.
pub record Serializers (Txn : Type 0) : Type 0 where
  pub find_transaction_objects_req_deserialize : Bytes → Outcome (List Bytes)
  pub find_transaction_objects_res_serialize : List Txn → Outcome Bytes
  pub find_transaction_object_single_res_serialize : List Txn → Outcome Bytes
  pub find_transactions_by_tag_res_serialize : List Bytes → Outcome Bytes
  pub send_transfer_req_deserialize : Bytes → Outcome SendTransferReq
  pub send_transfer_res_serialize : SendTransferRes → Option (List Txn) → Outcome Bytes
  pub send_trytes_req_deserialize : Bytes → Outcome (List Bytes)
  pub send_trytes_res_serialize : List Bytes → Outcome Bytes
  pub get_node_status_res_serialize : Outcome (Unit {0}) → Outcome Bytes
  pub fetch_buffered_request_status_res_serialize : FetchRes Txn → Outcome Bytes
  pub send_mam_message_req_deserialize : Bytes → Outcome (Unit {0})
  pub send_mam_message_res_serialize : Bytes → Outcome Bytes

abbrev pub by_tag : Bytes → FindTransactionsReq
by_tag tag = record { bundles = []; addresses = []; tags = tag ∷ []; approvees = [] }

-- The first 27 bytes of the array `new_tag` behind fill_nines.
abbrev pub new_tag : Bytes → Padding → Bytes
new_tag stack (returns s (some b)) = take num_trytes_tag b
new_tag stack _ = take num_trytes_tag stack

-- A tag of fewer than 27 trytes is filled up.
abbrev pub tag_trytes : Bytes → Bytes → Bytes
tag_trytes stack obj =
    if ltb (length (c_str obj)) num_trytes_tag
    then new_tag stack (fill_nines (some stack) (some (c_str obj)) num_trytes_tag)
    else take num_trytes_tag obj

module _ (e : Env) (state : Bool) (i : Iota e.World) (t : Tangle i) (s : Serializers i.Txn) where
  abbrev pub given : {A : Type 0} → Outcome A → Exec e.World A
  given r w = (r, w)

  unfoldable pub api_find_transaction_object_single : Bytes → Exec e.World Bytes
  api_find_transaction_object_single obj = do
    res ← ta_find_transaction_objects e state i t (some (i.from_trytes obj ∷ [])) (some [])
    given (s.find_transaction_object_single_res_serialize res)

  -- The loop that limits the request takes hashes off its front.
  unfoldable pub api_find_transaction_objects : Bytes → Exec e.World Bytes
  api_find_transaction_objects obj = do
    hashes ← given (s.find_transaction_objects_req_deserialize obj)
    res ←
        ta_find_transaction_objects e state i t
          (some (drop (length hashes - result_set_limit) hashes)) (some [])
    given (s.find_transaction_objects_res_serialize res)

  module _ (stack : Bytes) where
    unfoldable pub api_find_transactions_by_tag : Option Bytes → Exec e.World Bytes
    api_find_transactions_by_tag none = raise oom
    api_find_transactions_by_tag (some obj) = do
      hashes ← or_failed i t (t.find_transactions (by_tag (i.from_trytes (tag_trytes stack obj))))
      given (s.find_transactions_by_tag_res_serialize hashes)

    unfoldable pub api_find_transactions_obj_by_tag : Option Bytes → Exec e.World Bytes
    api_find_transactions_obj_by_tag none = raise oom
    api_find_transactions_obj_by_tag (some obj) = do
      res ←
          ta_find_transactions_obj_by_tag e state i t
            (some (by_tag (i.from_trytes (tag_trytes stack obj)))) (some [])
      given (s.find_transaction_objects_res_serialize res)

  -- Where no UUID was made, SC_OK is returned without a response.
  abbrev pub buffer_mam : TaCache → Bytes → Bytes → Exec e.World (Option Bytes)
  buffer_mam cache obj [] = pure none
  buffer_mam cache obj (zero ∷ uuid) = pure none
  buffer_mam cache obj (suc c ∷ uuid) = do
    let name = cache.mam_buffer_list_name
    cache_set e state (some (suc c ∷ uuid)) uuid_len (some obj) (length (c_str obj)) cache.timeout
    cache_list_push e state (some name) (length name) (some (suc c ∷ uuid)) uuid_len
    text ← given (s.send_mam_message_res_serialize (suc c ∷ uuid))
    pure (some text)

  unfoldable pub api_send_mam_message : TaCache → Bytes → Exec e.World (Option Bytes)
  api_send_mam_message cache obj = do
    given (s.send_mam_message_req_deserialize obj)
    uuid ← λ w. let (text, w') = e.new_uuid w in (done text, w')
    buffer_mam cache obj uuid

  -- The found objects of the first hash; without a hash the transfer counts as failed.
  abbrev pub transfer_objects : List Bytes → Exec e.World (List i.Txn)
  transfer_objects [] = raise cclient_failed_response
  transfer_objects (h ∷ hs) = ta_find_transaction_objects e state i t (some (h ∷ [])) (some [])

  -- A refused transfer is answered with the UUID.
  abbrev pub transfer_answer :
      (Outcome (Unit {0}) × SendTransferRes) × e.World → Outcome Bytes × e.World
  transfer_answer ((fail cclient_failed_response, res), w) =
      (s.send_transfer_res_serialize res none, w)
  transfer_answer ((fail ret, res), w) = (fail ret, w)
  transfer_answer ((done u, res), w) =
      (transfer_objects res.hash >>= λ objects.
      given (s.send_transfer_res_serialize res (some objects)))
        w

  abbrev pub no_res_yet : SendTransferRes
  no_res_yet = record { uuid = none; address = none; hash = [] }

  unfoldable pub api_send_transfer : ℕ → SendConfig → Bytes → TaCache → Bytes → Exec e.World Bytes
  unfolding ta_send_transfer
  api_send_transfer txn_size iconf seed cache obj = do
    req ← given (s.send_transfer_req_deserialize obj)
    λ w.
        transfer_answer
          (ta_send_transfer e state txn_size i t iconf seed cache (some req) no_res_yet w)

  unfoldable pub api_send_trytes : SendConfig → Bytes → Exec e.World Bytes
  api_send_trytes iconf obj = do
    trytes ← given (s.send_trytes_req_deserialize obj)
    sent ← ta_send_trytes i iconf trytes
    given (s.send_trytes_res_serialize sent)

  abbrev pub node_answer : Outcome (Unit {0}) → Outcome Bytes
  node_answer (fail cclient_failed_response) =
      s.get_node_status_res_serialize (fail cclient_failed_response)
  node_answer (fail core_node_unsync) = s.get_node_status_res_serialize (fail core_node_unsync)
  node_answer (done u) = s.get_node_status_res_serialize (done u)
  node_answer (fail ret) = fail ret

  unfoldable pub api_get_node_status : Cjson → Service → Exec e.World Bytes
  api_get_node_status json service w =
      let (ret, w') = ta_get_node_status json e service w in (node_answer ret, w')

  -- A UUID that no transaction was buffered under is looked up among the MAM requests.
  module _ (txn_size : ℕ) (stack : Bytes) (cache : TaCache) where
    abbrev pub deserialize : Bytes → Option i.Txn
    deserialize raw = t.deserialize (some raw)

    abbrev pub or_mam : BufferedStatus → Bytes → FetchRes i.Txn → Exec e.World (FetchRes i.Txn)
    or_mam mam_bufreq_not_exist uuid res =
        ta_fetch_mam_with_uuid e state txn_size deserialize stack cache uuid res
    or_mam _ uuid res = pure res

    unfoldable pub api_fetch_buffered_request_status : Bytes → Exec e.World Bytes
    api_fetch_buffered_request_status uuid = do
      res ←
          ta_fetch_txn_with_uuid e state txn_size deserialize stack cache uuid
            (record { status = mam_bufreq_not_exist; bundle = []; mam_result = none })
      res' ← or_mam res.status uuid res
      given (s.fetch_buffered_request_status_res_serialize res')
