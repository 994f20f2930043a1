-- ===== src/Serializer/Responses.antt =====
-- accelerator/core/serializer/serializer.c: the responses, written as texts.
use tangle_accelerator.Base.{
  ℤ, Bool, true, false, Option, none, some, Bytes, List, [], ◌∷◌, codes, ◌≡◌, refl,
}
use tangle_accelerator.Errors.{
  Status, ok, null, serializer_null, serializer_json_parse, serializer_json_create,
  cclient_json_create, cclient_failed_response, core_node_unsync,
}
use tangle_accelerator.Exec.{Outcome, done, fail}
use tangle_accelerator.Env.Json.{JsonTree}
use tangle_accelerator.Env.Trits.{Trits, TxnFields}
use tangle_accelerator.Core.Buffer.{
  BufferedStatus, FetchRes, mam_bufreq_unsent, mam_bufreq_not_exist, mam_bufreq_sent,
}
use tangle_accelerator.Core.Transfer.{SendTransferRes}
use tangle_accelerator.Serializer.Helper.{
  ◌>>?◌, ta_hash8019_array_to_json_array, ta_hash243_queue_to_json_array,
}
use tangle_accelerator.Serializer.Transaction.{
  ta_iota_transaction_to_json_object, ta_transaction_array_to_json_array,
  ta_bundle_transaction_to_json_array,
}

-- What ta_get_info_serialize reads of the three configurations.
pub record Info : Type 0 where
  pub host : Bytes
  pub version : Bytes
  pub port : ℤ
  pub http_tpool_size : ℤ
  pub cache_host : Bytes
  pub cache_port : ℤ
  pub milestone_depth : ℤ
  pub mwm : ℤ
  -- is_option_enabled of CLI_QUIET_MODE
  pub quiet : Bool

abbrev pub first : {A : Type 0} → List A → Option A
first [] = none
first (x ∷ xs) = some x

module _ (j : JsonTree) where
  abbrev pub printed_text : Option Bytes → Outcome Bytes
  printed_text none = fail serializer_json_parse
  printed_text (some obj) = done obj

  abbrev pub printed_json : j.Json → Outcome Bytes
  printed_json json_root = printed_text (j.print_unformatted json_root)

  -- The members that `fill` adds to a new object or array are printed.
  abbrev pub filled : Status → (j.Json → Outcome j.Json) → Option j.Json → Outcome Bytes
  filled no_memory fill none = fail no_memory
  filled no_memory fill (some json_root) = fill json_root >>? printed_json

  pub printed_text-done :
      (p : Option Bytes) (text : Bytes) → printed_text p ≡ done text → p ≡ some text
  printed_text-done none text h = absurd cc
  printed_text-done (some t) text h = cc

  pub printed-done :
      (r : Outcome j.Json) (text : Bytes)
      → (r >>? printed_json) ≡ done text
      → (o : j.Json) × (r ≡ done o) × (j.print_unformatted o ≡ some text)
  printed-done (fail s) text h = absurd cc
  printed-done (done o) text h = (o, refl, printed_text-done (j.print_unformatted o) text h)

  -- A response is the text of what was filled.
  pub filled-done :
      (status : Status) (fill : j.Json → Outcome j.Json) (root : Option j.Json) (text : Bytes)
      → filled status fill root ≡ done text
      → (o : j.Json) × (made : j.Json) × (root ≡ some o)
        × (fill o ≡ done made)
        × (j.print_unformatted made ≡ some text)
  filled-done status fill none text h = absurd cc
  filled-done status fill (some o) text h =
      let (made, p, q) = printed-done (fill o) text h in (o, made, refl, p, q)

  abbrev pub info_members : Info → j.Json → j.Json
  info_members info o =
      let o1 = j.add_string_to_object o (codes "name") (codes "tangle-accelerator") in
      let o2 = j.add_string_to_object o1 (codes "host") info.host in
      let o3 = j.add_string_to_object o2 (codes "version") info.version in
      let o4 = j.add_number_to_object o3 (codes "port") info.port in
      let o5 = j.add_number_to_object o4 (codes "thread") info.http_tpool_size in
      let o6 = j.add_string_to_object o5 (codes "redis_host") info.cache_host in
      let o7 = j.add_number_to_object o6 (codes "redis_port") info.cache_port in
      let o8 = j.add_number_to_object o7 (codes "milestone_depth") info.milestone_depth in
      let o9 = j.add_number_to_object o8 (codes "mwm") info.mwm in
      j.add_bool_to_object o9 (codes "quiet") info.quiet

  unfoldable pub ta_get_info_serialize : Info → Outcome Bytes
  ta_get_info_serialize info =
      filled serializer_json_create (λ o. done (info_members info o)) j.create_object

  abbrev pub status_members : Status → j.Json → j.Json
  status_members ok o = j.add_bool_to_object o (codes "status") true
  status_members cclient_failed_response o =
      j.add_string_to_object (j.add_bool_to_object o (codes "status") false) (codes "status_code")
        (codes "SC_CCLIENT_FAILED_RESPONSE")
  status_members core_node_unsync o =
      j.add_string_to_object (j.add_bool_to_object o (codes "status") false) (codes "status_code")
        (codes "SC_CORE_NODE_UNSYNC")
  status_members _ o = j.add_bool_to_object o (codes "status") false

  unfoldable pub get_node_status_res_serialize : Status → Outcome Bytes
  get_node_status_res_serialize status =
      filled serializer_json_create (λ o. done (status_members status o)) j.create_object

  module _ (t : Trits) where
    -- An object that could not be made is NULL, of which nothing is printed.
    abbrev pub printed_root : Option j.Json → Outcome Bytes
    printed_root none = fail serializer_json_parse
    printed_root (some json_root) = printed_json json_root

    unfoldable pub ta_send_trytes_res_serialize : Option (List Bytes) → Outcome Bytes
    ta_send_trytes_res_serialize none = fail serializer_null
    ta_send_trytes_res_serialize (some trytes) =
        ta_hash8019_array_to_json_array j t trytes (codes "trytes") j.create_object >>? printed_root

    unfoldable pub ta_find_transactions_by_tag_res_serialize :
        Option (Option (List Bytes)) → Outcome Bytes
    ta_find_transactions_by_tag_res_serialize none = fail serializer_null
    ta_find_transactions_by_tag_res_serialize (some none) = fail serializer_null
    ta_find_transactions_by_tag_res_serialize (some (some hashes)) =
        filled serializer_json_create (ta_hash243_queue_to_json_array j t hashes) j.create_array

    module _ {Txn : Type 0} (f : TxnFields Txn) where
      abbrev pub single_members : Option Txn → j.Json → Outcome j.Json
      single_members txn o = ta_iota_transaction_to_json_object j t f txn (some o)

      -- Of an empty array the first transaction is NULL.
      unfoldable pub ta_find_transaction_object_single_res_serialize : List Txn → Outcome Bytes
      ta_find_transaction_object_single_res_serialize res =
          filled cclient_json_create (single_members (first res)) j.create_object

      unfoldable pub ta_find_transaction_objects_res_serialize : List Txn → Outcome Bytes
      ta_find_transaction_objects_res_serialize res =
          filled cclient_json_create (ta_transaction_array_to_json_array j t f res) j.create_array

      -- Without a UUID the first transaction is written. A buffered response has its address.
      abbrev pub transfer_members :
          Option Bytes → Option Bytes → Option Txn → j.Json → Outcome j.Json
      transfer_members (some uuid) (some address) txn o = done (
          j.add_string_to_object (j.add_string_to_object o (codes "uuid") uuid) (codes "address")
            address)
      transfer_members (some uuid) none txn o = done (j.add_string_to_object o (codes "uuid") uuid)
      transfer_members none address txn o = single_members txn o

      abbrev pub first_of : Option (List Txn) → Option Txn
      first_of none = none
      first_of (some txns) = first txns

      -- Without DB_ENABLE. `none` in the place of the array is NULL.
      unfoldable pub ta_send_transfer_res_serialize :
          SendTransferRes → Option (List Txn) → Outcome Bytes
      ta_send_transfer_res_serialize res txn_array =
          filled serializer_json_create (transfer_members res.uuid res.address (first_of txn_array))
            j.create_object

      abbrev pub buffered_members : BufferedStatus → List Txn → j.Json → Outcome j.Json
      buffered_members mam_bufreq_sent bundle o =
          ta_bundle_transaction_to_json_array j t f bundle (codes "bundle") o
      buffered_members mam_bufreq_unsent bundle o =
          done (j.add_string_to_object o (codes "status") (codes "unsent"))
      buffered_members mam_bufreq_not_exist bundle o =
          done (j.add_string_to_object o (codes "status") (codes "not_exist"))

      -- A MAM request's result is in the cache as the text of its response.
      abbrev pub buffered_text : BufferedStatus → Option Bytes → List Txn → j.Json → Outcome Bytes
      buffered_text mam_bufreq_sent (some mam_result) bundle o = done mam_result
      buffered_text status mam_result bundle o = buffered_members status bundle o >>? printed_json

      abbrev pub buffered_root : FetchRes Txn → Option j.Json → Outcome Bytes
      buffered_root res none = fail serializer_json_create
      buffered_root res (some o) = buffered_text res.status res.mam_result res.bundle o

      unfoldable pub fetch_buffered_request_status_res_serialize :
          Option (FetchRes Txn) → Outcome Bytes
      fetch_buffered_request_status_res_serialize none = fail null
      fetch_buffered_request_status_res_serialize (some res) = buffered_root res j.create_object
