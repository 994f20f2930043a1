-- ===== src/Serializer/Mam/Requests.antt =====
-- accelerator/core/serializer/ser_mam.c: the requests to send and to receive MAM messages.
use tangle_accelerator.Base.{
  ℤ, ℕ, Bool, true, false, Option, none, some, Bytes, List, codes, length, take, ltb, ◌==◌, mem_eq,
  c_str, if◌then◌else◌,
}
use tangle_accelerator.Errors.{
  serializer_null, serializer_json_parse, serializer_json_parse_not_tryte, serializer_invalid_req,
  cclient_json_key, cclient_json_parse,
}
use tangle_accelerator.Exec.{Outcome, done, fail}
use tangle_accelerator.Env.Json.{JsonTree}
use tangle_accelerator.Serializer.Helper.{
  ◌>>?◌, num_trytes_hash, ta_json_get_string, ta_json_string_array_to_string_utarray,
}
use tangle_accelerator.Serializer.Transfer.{is_ascii, member_string}
use tangle_accelerator.Serializer.Requests.{read_json}
use tangle_accelerator.Serializer.Mam.{
  SendMamReq, SendMamData, RecvMamReq, MamKey, MamProtocol, mam_v1, unset, num_trytes_mam_msg_id,
  send_mam_req_v1_init, recv_mam_req_v1_init, recv_mam_set_mam_v1_data_id,
}

-- SERVICE_TOKEN_LEN
abbrev pub service_token_len : ℕ
service_token_len = 64

abbrev pub protocol_len : ℕ
protocol_len = 20

module _ (j : JsonTree) where
  -- An array of keys that is there has strings only.
  abbrev pub key_array : Bool → j.Json → Bytes → List Bytes → Outcome (List Bytes)
  key_array false json_key name ut = done ut
  key_array true json_key name ut =
      elim (ta_json_string_array_to_string_utarray j json_key name ut) [
        | fail s ↦ fail serializer_json_parse
        | done ut' ↦ done ut'
      ]

  abbrev pub key_item : MamKey → Option j.Json → Outcome MamKey
  key_item key none = fail serializer_json_parse
  key_item key (some json_key) =
      key_array (j.has_object_item json_key (codes "psk")) json_key (codes "psk") key.psk_array
      >>? λ psks.
          key_array (j.has_object_item json_key (codes "ntru")) json_key (codes "ntru")
            key.ntru_array
          >>? λ ntrus. done (record { psk_array = psks; ntru_array = ntrus })

  -- The part of both requests that reads "key".
  abbrev pub mam_key : j.Json → MamKey → Outcome MamKey
  mam_key json_obj key =
      if j.has_object_item json_obj (codes "key")
      then key_item key (j.get_object_item_any_case json_obj (codes "key"))
      else done key

  abbrev pub service_token : j.Json → Bytes → Outcome Bytes
  service_token json_obj token =
      if j.has_object_item json_obj (codes "x-api-key")
      then (ta_json_get_string j (some json_obj) (some (codes "x-api-key")) true service_token_len
          >>? λ bytes. done (c_str bytes))
      else done token

  -- strnlen tells a string of 81 characters or more, of which 81 are kept.
  abbrev pub tryte_hash : Option Bytes → Outcome (Option Bytes)
  tryte_hash none = done none
  tryte_hash (some s) =
      if ltb (length s) num_trytes_hash
      then fail serializer_invalid_req
      else done (some (take num_trytes_hash s))

  abbrev pub mam_message : Option Bytes → Outcome Bytes
  mam_message none = fail serializer_null
  mam_message (some s) = if is_ascii s then done s else fail serializer_json_parse_not_tryte

  abbrev pub depth_of : ℤ → Option j.Json → ℤ
  depth_of depth none = depth
  depth_of depth (some item) = if j.is_number item then j.valueint item else depth

  abbrev pub mam_data : SendMamData → Option j.Json → Outcome SendMamData
  mam_data data' none = fail serializer_json_parse
  mam_data data' (some json_key) = tryte_hash (member_string j json_key (codes "seed")) >>? λ seed.
      tryte_hash (member_string j json_key (codes "chid")) >>? λ chid.
      mam_message (member_string j json_key (codes "message")) >>? λ message. done (record {
        seed = seed;
        ch_mss_depth =
            depth_of data'.ch_mss_depth (j.get_object_item json_key (codes "ch_mss_depth"));
        chid = chid;
        message = some message;
      })

  unfoldable pub send_mam_message_mam_v1_req_deserialize : j.Json → SendMamReq → Outcome SendMamReq
  send_mam_message_mam_v1_req_deserialize json_obj req =
      service_token json_obj req.service_token >>? λ token. mam_key json_obj req.key >>? λ key.
      mam_data req.data_v1 (j.get_object_item_any_case json_obj (codes "data")) >>? λ data'.
      done (record req { service_token = token; key = key; data_v1 = data' })

  abbrev pub protocol_of : MamProtocol → Bytes → MamProtocol
  protocol_of old protocol_str = if mem_eq 6 protocol_str (codes "MAM_V1") then mam_v1 else old

  abbrev pub protocol_item : j.Json → MamProtocol → Outcome MamProtocol
  protocol_item json_obj old =
      ta_json_get_string j (some json_obj) (some (codes "protocol")) true protocol_len >>? λ s.
      done (protocol_of old s)

  -- Whatever the protocol is, the request is read as one of MAM_V1.
  abbrev pub send_mam_of_json : SendMamReq → j.Json → Outcome SendMamReq
  send_mam_of_json req json_obj = protocol_item json_obj req.protocol >>? λ protocol.
      send_mam_message_mam_v1_req_deserialize json_obj
        (send_mam_req_v1_init (record req { protocol = protocol }))

  unfoldable pub send_mam_message_req_deserialize :
      Option Bytes → Option SendMamReq → Outcome SendMamReq
  send_mam_message_req_deserialize (some obj) (some req) =
      read_json j (send_mam_of_json req) (j.parse obj)
  send_mam_message_req_deserialize _ _ = fail serializer_null

  abbrev pub exact_string : ℕ → Bool → Option Bytes → Outcome (Option Bytes)
  exact_string n true (some s) = if length s == n then done (some s) else fail cclient_json_parse
  exact_string n _ _ = fail cclient_json_parse

  abbrev pub exact_item : ℕ → Option j.Json → Outcome (Option Bytes)
  exact_item n none = fail cclient_json_key
  exact_item n (some item) = exact_string n (j.is_string item) (j.valuestring item)

  -- A member of "data_id": it may be missing, but not have another length.
  abbrev pub id_member : ℕ → j.Json → Bytes → Outcome (Option Bytes)
  id_member n json_key name =
      if j.has_object_item json_key name
      then exact_item n (j.get_object_item json_key name)
      else done none

  -- Beside a bundle hash the rest is not looked at.
  abbrev pub set_data_id : RecvMamReq → j.Json → Option Bytes → Outcome RecvMamReq
  set_data_id req json_key (some bundle_hash) =
      recv_mam_set_mam_v1_data_id (some req) (some bundle_hash) none none
  set_data_id req json_key none = id_member num_trytes_hash json_key (codes "chid") >>? λ chid.
      id_member num_trytes_mam_msg_id json_key (codes "msg_id") >>? λ msg_id.
      recv_mam_set_mam_v1_data_id (some req) none chid msg_id

  abbrev pub data_id_item : RecvMamReq → Option j.Json → Outcome RecvMamReq
  data_id_item req none = fail serializer_json_parse
  data_id_item req (some json_key) =
      id_member num_trytes_hash json_key (codes "bundle_hash") >>? set_data_id req json_key

  unfoldable pub recv_mam_message_mam_v1_req_deserialize : j.Json → RecvMamReq → Outcome RecvMamReq
  recv_mam_message_mam_v1_req_deserialize json_obj req = mam_key json_obj req.key >>? λ key.
      data_id_item (record req { key = key })
        (j.get_object_item_any_case json_obj (codes "data_id"))

  abbrev pub recv_by_protocol : j.Json → RecvMamReq → MamProtocol → Outcome RecvMamReq
  recv_by_protocol json_obj req mam_v1 =
      recv_mam_message_mam_v1_req_deserialize json_obj
        (recv_mam_req_v1_init (record req { protocol = mam_v1 }))
  recv_by_protocol json_obj req unset = done (record req { protocol = unset })

  abbrev pub recv_mam_of_json : RecvMamReq → j.Json → Outcome RecvMamReq
  recv_mam_of_json req json_obj =
      protocol_item json_obj req.protocol >>? recv_by_protocol json_obj req

  unfoldable pub recv_mam_message_req_deserialize :
      Option Bytes → Option RecvMamReq → Outcome RecvMamReq
  recv_mam_message_req_deserialize (some obj) (some req) =
      read_json j (recv_mam_of_json req) (j.parse obj)
  recv_mam_message_req_deserialize _ _ = fail serializer_null
