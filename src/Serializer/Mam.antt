-- ===== src/Serializer/Mam.antt =====
-- accelerator/core/request and accelerator/core/response: the requests and responses of MAM channels.
pub mod Requests
pub mod Responses
pub mod Channel
pub mod RoundTrip
use tangle_accelerator.Base.{ℤ, pos, ℕ, Option, none, some, Bytes, List, [], c_str, take}
use tangle_accelerator.Errors.{null}
use tangle_accelerator.Exec.{Outcome, done, fail}
use tangle_accelerator.Serializer.Helper.{num_trytes_hash}

-- NUM_TRYTES_MAM_MSG_ID of the IOTA library
abbrev pub num_trytes_mam_msg_id : ℕ
num_trytes_mam_msg_id = 21

-- `unset` is what the memory of a new request holds where no protocol was stored.
pub data MamProtocol : Type 0 where
  mam_v1 unset : MamProtocol

-- send_mam_data_mam_v1_t
pub record SendMamData : Type 0 where
  pub seed : Option Bytes
  pub ch_mss_depth : ℤ
  pub chid : Option Bytes
  pub message : Option Bytes

-- send_mam_key_mam_v1_t and recv_mam_key_mam_v1_t
pub record MamKey : Type 0 where
  pub psk_array : List Bytes
  pub ntru_array : List Bytes

-- ta_send_mam_req_t with the two structures that it points to
pub record SendMamReq : Type 0 where
  pub service_token : Bytes
  pub data_v1 : SendMamData
  pub key : MamKey
  pub protocol : MamProtocol

-- recv_mam_data_id_mam_v1_t
pub record MamDataId : Type 0 where
  pub bundle_hash : Option Bytes
  pub chid : Option Bytes
  pub msg_id : Option Bytes

-- ta_recv_mam_req_t with the two structures that it points to
pub record RecvMamReq : Type 0 where
  pub data_id : MamDataId
  pub key : MamKey
  pub protocol : MamProtocol

-- ta_send_mam_res_t: what the arrays show as strings.
pub record SendMamRes : Type 0 where
  pub bundle_hash : Bytes
  pub chid : Bytes
  pub msg_id : Bytes
  pub announcement_bundle_hash : Bytes
  pub chid1 : Bytes

-- ta_recv_mam_res_t: an element of the array may be NULL.
pub record RecvMamRes : Type 0 where
  pub payload_array : List (Option Bytes)
  pub chid1 : Bytes

abbrev pub no_keys : MamKey
no_keys = record { psk_array = []; ntru_array = [] }

-- Where there is memory.
unfoldable pub send_mam_req_v1_init : SendMamReq → SendMamReq
send_mam_req_v1_init req = record req {
  service_token = [];
  data_v1 = record { seed = none; ch_mss_depth = pos 6; chid = none; message = none };
  key = no_keys;
}

-- Where there is memory.
unfoldable pub recv_mam_req_v1_init : RecvMamReq → RecvMamReq
recv_mam_req_v1_init req = record req {
  data_id = record { bundle_hash = none; chid = none; msg_id = none };
  key = no_keys;
}

-- What is stored of the one that is given, where there is memory.
abbrev pub kept_or : Option Bytes → Option Bytes → Option Bytes
kept_or old none = old
kept_or old (some text) = some text

abbrev pub with_data_id : RecvMamReq → Option Bytes → Option Bytes → Option Bytes → RecvMamReq
with_data_id req bundle_hash chid msg_id = record req {
  data_id = record {
    bundle_hash = kept_or req.data_id.bundle_hash bundle_hash;
    chid = kept_or req.data_id.chid chid;
    msg_id = kept_or req.data_id.msg_id msg_id;
  };
}

unfoldable pub recv_mam_set_mam_v1_data_id :
    Option RecvMamReq → Option Bytes → Option Bytes → Option Bytes → Outcome RecvMamReq
recv_mam_set_mam_v1_data_id none bundle_hash chid msg_id = fail null
recv_mam_set_mam_v1_data_id (some req) none none none = fail null
recv_mam_set_mam_v1_data_id (some req) bundle_hash chid msg_id =
    done (with_data_id req bundle_hash chid msg_id)

unfoldable pub send_mam_res_new : SendMamRes
send_mam_res_new = record {
  bundle_hash = [];
  chid = [];
  msg_id = [];
  announcement_bundle_hash = [];
  chid1 = [];
}

-- The setters copy so many bytes and put a NUL behind them.
abbrev pub shown_bytes : ℕ → Bytes → Bytes
shown_bytes n bytes = c_str (take n bytes)

unfoldable pub send_mam_res_set_bundle_hash : Option SendMamRes → Option Bytes → Outcome SendMamRes
send_mam_res_set_bundle_hash (some res) (some bundle_hash) =
    done (record res { bundle_hash = shown_bytes num_trytes_hash bundle_hash })
send_mam_res_set_bundle_hash _ _ = fail null

unfoldable pub send_mam_res_set_channel_id : Option SendMamRes → Option Bytes → Outcome SendMamRes
send_mam_res_set_channel_id (some res) (some channel_id) =
    done (record res { chid = shown_bytes num_trytes_hash channel_id })
send_mam_res_set_channel_id _ _ = fail null

unfoldable pub send_mam_res_set_msg_id : Option SendMamRes → Option Bytes → Outcome SendMamRes
send_mam_res_set_msg_id (some res) (some msg_id) =
    done (record res { msg_id = shown_bytes num_trytes_mam_msg_id msg_id })
send_mam_res_set_msg_id _ _ = fail null

unfoldable pub send_mam_res_set_announce_bundle_hash :
    Option SendMamRes → Option Bytes → Outcome SendMamRes
send_mam_res_set_announce_bundle_hash (some res) (some announcement_bundle_hash) =
    done (record res {
      announcement_bundle_hash = shown_bytes num_trytes_hash announcement_bundle_hash;
    })
send_mam_res_set_announce_bundle_hash _ _ = fail null

unfoldable pub send_mam_res_set_chid1 : Option SendMamRes → Option Bytes → Outcome SendMamRes
send_mam_res_set_chid1 (some res) (some chid1) =
    done (record res { chid1 = shown_bytes num_trytes_hash chid1 })
send_mam_res_set_chid1 _ _ = fail null

-- A setter whose error is not told leaves the response as it is.
abbrev pub or_same : SendMamRes → Outcome SendMamRes → SendMamRes
or_same res (fail s) = res
or_same res (done res') = res'

-- The hash is the first transaction's bundle; the pointers are there, and SC_OK is returned.
unfoldable pub send_mam_res_set_msg_result : SendMamRes → Bytes → Bytes → Bytes → SendMamRes
send_mam_res_set_msg_result res chid msg_id hash =
    let r1 = or_same res (send_mam_res_set_channel_id (some res) (some chid)) in
    let r2 = or_same r1 (send_mam_res_set_msg_id (some r1) (some msg_id)) in
    or_same r2 (send_mam_res_set_bundle_hash (some r2) (some hash))

unfoldable pub send_mam_res_set_announce : SendMamRes → Bytes → Bytes → SendMamRes
send_mam_res_set_announce res chid1 hash =
    let r1 = or_same res (send_mam_res_set_announce_bundle_hash (some res) (some hash)) in
    or_same r1 (send_mam_res_set_chid1 (some r1) (some chid1))
