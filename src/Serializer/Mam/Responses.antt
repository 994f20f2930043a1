-- ===== src/Serializer/Mam/Responses.antt =====
-- accelerator/core/serializer/ser_mam.c: the responses about MAM messages, written and read.
use tangle_accelerator.Base.{
  ℕ, true, Option, none, some, Bytes, List, [], ◌∷◌, ◌++◌, codes, drop, strncpy, c_str, map,
  if◌then◌else◌,
}
use tangle_accelerator.Errors.{
  Status, serializer_null, serializer_json_parse, serializer_json_create, cclient_json_key,
}
use tangle_accelerator.Exec.{Outcome, done, fail}
use tangle_accelerator.Env.Json.{JsonTree}
use tangle_accelerator.Serializer.Helper.{
  ◌>>?◌, num_trytes_hash, array_items, push_strings, ta_json_get_string,
}
use tangle_accelerator.Serializer.Requests.{read_json}
use tangle_accelerator.Serializer.Responses.{filled}
use tangle_accelerator.Serializer.Mam.{
  SendMamRes, RecvMamRes, num_trytes_mam_msg_id, send_mam_res_set_bundle_hash,
  send_mam_res_set_channel_id, send_mam_res_set_msg_id, send_mam_res_set_announce_bundle_hash,
  send_mam_res_set_chid1,
}

-- The digits of the time in front of a message
abbrev pub timestamp_len : ℕ
timestamp_len = 20

module _ (j : JsonTree) where
  -- Any error of the helper is answered with one status.
  abbrev pub or_error : {A : Type 0} → Status → Outcome A → Outcome A
  or_error status (fail s) = fail status
  or_error status (done a) = done a

  abbrev pub read_member : j.Json → Bytes → ℕ → Outcome Bytes
  read_member json_obj name size =
      or_error serializer_null (ta_json_get_string j (some json_obj) (some name) true size)

  -- The setter's own status is not tested; it is SC_OK, as both pointers are there.
  abbrev pub set_member :
      j.Json
      → Bytes
      → ℕ
      → (Option SendMamRes → Option Bytes → Outcome SendMamRes)
      → SendMamRes
      → Outcome SendMamRes
  set_member json_obj name size set res =
      read_member json_obj name size >>? λ text. set (some res) (some text)

  abbrev pub set_optional :
      j.Json
      → Bytes
      → ℕ
      → (Option SendMamRes → Option Bytes → Outcome SendMamRes)
      → SendMamRes
      → Outcome SendMamRes
  set_optional json_obj name size set res =
      if j.has_object_item json_obj name then set_member json_obj name size set res else done res

  abbrev pub send_mam_res_of_json : SendMamRes → j.Json → Outcome SendMamRes
  send_mam_res_of_json res o =
      set_member o (codes "chid") num_trytes_hash send_mam_res_set_channel_id res >>? λ r1.
      set_member o (codes "msg_id") num_trytes_mam_msg_id send_mam_res_set_msg_id r1 >>? λ r2.
      set_member o (codes "bundle_hash") num_trytes_hash send_mam_res_set_bundle_hash r2 >>? λ r3.
      set_optional o (codes "chid1") num_trytes_hash send_mam_res_set_chid1 r3 >>? λ r4.
      set_optional o (codes "announcement_bundle_hash") num_trytes_hash
        send_mam_res_set_announce_bundle_hash r4

  unfoldable pub send_mam_message_res_deserialize : Option Bytes → SendMamRes → Outcome SendMamRes
  send_mam_message_res_deserialize none res = fail serializer_null
  send_mam_message_res_deserialize (some obj) res =
      read_json j (send_mam_res_of_json res) (j.parse obj)

  -- An empty text is not written.
  abbrev pub optional_member : Bytes → Bytes → j.Json → j.Json
  optional_member name [] o = o
  optional_member name (c ∷ text) o = j.add_string_to_object o name (c ∷ text)

  abbrev pub mam_members : SendMamRes → j.Json → j.Json
  mam_members res o =
      let o1 = j.add_string_to_object o (codes "bundle_hash") res.bundle_hash in
      let o2 = j.add_string_to_object o1 (codes "chid") res.chid in
      let o3 = j.add_string_to_object o2 (codes "msg_id") res.msg_id in
      let o4 = optional_member (codes "announcement_bundle_hash") res.announcement_bundle_hash o3 in
      optional_member (codes "chid1") res.chid1 o4

  abbrev pub uuid_or_result : Option SendMamRes → Option Bytes → j.Json → Outcome j.Json
  uuid_or_result res (some uuid) o = done (j.add_string_to_object o (codes "uuid") uuid)
  uuid_or_result (some res) none o = done (mam_members res o)
  uuid_or_result none none o = fail serializer_null

  -- The result's place `obj` is there. A UUID is written in the place of a result.
  unfoldable pub send_mam_message_res_serialize : Option SendMamRes → Option Bytes → Outcome Bytes
  send_mam_message_res_serialize none none = fail serializer_null
  send_mam_message_res_serialize res uuid =
      filled j serializer_json_create (uuid_or_result res uuid) j.create_object

  -- The inner loop goes over the strings of one element.
  unfoldable pub push_payloads : List j.Json → List Bytes → Outcome (List Bytes)
  push_payloads [] ut = done ut
  push_payloads (json_subarray ∷ subarrays) ut = elim (push_strings j (j.items json_subarray) ut) [
    | fail s ↦ fail s
    | done ut' ↦ push_payloads subarrays ut'
  ]

  abbrev pub push_all_payloads : List Bytes → Option (List j.Json) → Outcome (List Bytes)
  push_all_payloads ut none = fail serializer_json_parse
  push_all_payloads ut (some xs) = push_payloads xs ut

  unfoldable pub ta_json_recv_payload_to_string_utarray :
      j.Json → Bytes → List Bytes → Outcome (List Bytes)
  ta_json_recv_payload_to_string_utarray obj obj_name ut =
      push_all_payloads ut (array_items j (j.get_object_item obj obj_name))

  abbrev pub next_chid : j.Json → Bytes → Outcome Bytes
  next_chid json_obj chid1 =
      if j.has_object_item json_obj (codes "chid1")
      then (or_error cclient_json_key
            (ta_json_get_string j (some json_obj) (some (codes "chid1")) true num_trytes_hash)
          >>? λ text. done (c_str text))
      else done chid1

  -- The strings are pushed into the array of a new response, which is empty.
  abbrev pub recv_mam_res_of_json : RecvMamRes → j.Json → Outcome RecvMamRes
  recv_mam_res_of_json res json_obj =
      or_error cclient_json_key
        (ta_json_recv_payload_to_string_utarray json_obj (codes "payload") [])
      >>? λ strings. next_chid json_obj res.chid1 >>? λ chid1.
          done (record {
            payload_array = res.payload_array ++ map (λ s. some s) strings;
            chid1 = chid1;
          })

  unfoldable pub recv_mam_message_res_deserialize :
      Option Bytes → Option RecvMamRes → Outcome RecvMamRes
  recv_mam_message_res_deserialize (some obj) (some res) =
      read_json j (recv_mam_res_of_json res) (j.parse obj)
  recv_mam_message_res_deserialize _ _ = fail serializer_null

  -- `behind s` is what the memory holds behind the NUL of an element `s`.
  module _ (behind : Bytes → Bytes) where
    abbrev pub timestamp_of : Bytes → Bytes
    timestamp_of p = c_str (strncpy timestamp_len p)

    abbrev pub text_behind : Bytes → Bytes
    text_behind p = c_str (drop timestamp_len (p ++ 0 ∷ behind p))

    -- An array that could not be made is NULL, and nothing is added to it.
    abbrev pub payload_element : Option j.Json → Bytes → Option j.Json
    payload_element none p = none
    payload_element (some array_elt) p = some (
        j.add_item_to_array (j.add_item_to_array array_elt (j.create_string (timestamp_of p)))
          (j.create_string (text_behind p)))

    unfoldable pub add_payloads : List (Option Bytes) → j.Json → j.Json
    add_payloads [] array_obj = array_obj
    add_payloads (none ∷ ps) array_obj = add_payloads ps array_obj
    add_payloads (some p ∷ ps) array_obj =
        add_payloads ps (j.add_item_to_array array_obj (payload_element j.create_array p))

    abbrev pub payload_member :
        List (Option Bytes) → Bytes → j.Json → Option j.Json → Outcome j.Json
    payload_member ut obj_name json_root none = fail serializer_json_create
    payload_member ut obj_name json_root (some array_obj) =
        done (j.add_item_to_object json_root obj_name (add_payloads ut array_obj))

    -- `none` is NULL. The object has the array before that is filled.
    unfoldable pub ta_mam_recv_payload_utarray_to_json_array :
        Option (List (Option Bytes)) → Bytes → j.Json → Outcome j.Json
    ta_mam_recv_payload_utarray_to_json_array none obj_name json_root = fail serializer_null
    ta_mam_recv_payload_utarray_to_json_array (some ut) obj_name json_root =
        payload_member ut obj_name json_root j.create_array

    abbrev pub recv_mam_members : RecvMamRes → j.Json → Outcome j.Json
    recv_mam_members res o =
        or_error serializer_json_parse
          (ta_mam_recv_payload_utarray_to_json_array (some res.payload_array) (codes "payload") o)
        >>? λ o1. done (optional_member (codes "chid1") res.chid1 o1)

    -- The result's place `obj` is there.
    unfoldable pub recv_mam_message_res_serialize : Option RecvMamRes → Outcome Bytes
    recv_mam_message_res_serialize none = fail serializer_null
    recv_mam_message_res_serialize (some res) =
        filled j serializer_json_create (recv_mam_members res) j.create_object
