-- ===== src/Serializer/Requests.antt =====
-- accelerator/core/serializer/serializer.c: the other requests, read from their texts.
use tangle_accelerator.Base.{ℕ, Bool, true, false, Option, none, some, Bytes, List, codes, strncpy}
use tangle_accelerator.Errors.{serializer_null, serializer_json_parse}
use tangle_accelerator.Exec.{Outcome, done, fail}
use tangle_accelerator.Env.Json.{JsonTree}
use tangle_accelerator.Env.Trits.{Trits}
use tangle_accelerator.Core.Buffer.{uuid_len}
use tangle_accelerator.Serializer.Helper.{
  ta_json_get_string, ta_json_array_to_hash243_queue, ta_json_array_to_hash8019_array,
}

abbrev pub max_cmd_len : ℕ
max_cmd_len = 30

module _ (j : JsonTree) where
  -- Where cJSON_Parse gives NULL, the request is refused.
  abbrev pub read_json : {A : Type 0} → (j.Json → Outcome A) → Option j.Json → Outcome A
  read_json read none = fail serializer_json_parse
  read_json read (some json_obj) = read json_obj

  unfoldable pub proxy_apis_command_req_deserialize : Option Bytes → Outcome Bytes
  proxy_apis_command_req_deserialize none = fail serializer_null
  proxy_apis_command_req_deserialize (some obj) =
      read_json
        (λ json_obj. ta_json_get_string j (some json_obj) (some (codes "command")) true max_cmd_len)
        (j.parse obj)

  -- The bytes that are written to `uuid`, where the tree has an item of that name. Of an item without a string
  -- strncpy gets NULL, and here nothing.
  abbrev pub uuid_written : Option j.Json → Option Bytes
  uuid_written none = none
  uuid_written (some item) = elim (j.valuestring item) [
    | none ↦ none
    | some s ↦ some (strncpy uuid_len s)
  ]

  unfoldable pub fetch_buffered_request_status_req_deserialize :
      Option Bytes → Outcome (Option Bytes)
  fetch_buffered_request_status_req_deserialize none = fail serializer_null
  fetch_buffered_request_status_req_deserialize (some obj) =
      read_json (λ json_obj. done (uuid_written (j.get_object_item json_obj (codes "uuid"))))
        (j.parse obj)

  module _ (t : Trits) where
    -- The flag says whether `out_trytes` points to memory.
    unfoldable pub ta_send_trytes_req_deserialize :
        Option Bytes → Bool → List Bytes → Outcome (List Bytes)
    ta_send_trytes_req_deserialize none given out_trytes = fail serializer_null
    ta_send_trytes_req_deserialize (some obj) false out_trytes = fail serializer_null
    ta_send_trytes_req_deserialize (some obj) true out_trytes =
        read_json
          (λ json_obj. ta_json_array_to_hash8019_array j t json_obj (codes "trytes") out_trytes)
          (j.parse obj)

    unfoldable pub ta_find_transaction_objects_req_deserialize :
        (Bytes → Bytes) → Option Bytes → List Bytes → Outcome (List Bytes)
    ta_find_transaction_objects_req_deserialize behind none hashes = fail serializer_null
    ta_find_transaction_objects_req_deserialize behind (some obj) hashes =
        read_json
          (λ json_obj. ta_json_array_to_hash243_queue j t behind json_obj (codes "hashes") hashes)
          (j.parse obj)
