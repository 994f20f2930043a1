-- ===== src/Serializer/Transfer.antt =====
-- accelerator/core/serializer/serializer.c: ta_send_transfer_req_deserialize.
pub mod Accepted
use tangle_accelerator.Base.{
  ℤ, pos, ℕ, zero, suc, ◌*◌, Bool, true, false, not, ◌&&◌, Option, none, some, Bytes, List, [], ◌∷◌,
  codes, length, take, leb, ltb, mem_eq, if◌then◌else◌,
}
use tangle_accelerator.Errors.{
  serializer_null, serializer_json_parse, serializer_json_parse_not_tryte, cclient_hash,
  serializer_message_overrun,
}
use tangle_accelerator.Exec.{Outcome, done, fail}
use tangle_accelerator.Env.Json.{JsonTree}
use tangle_accelerator.Env.Trits.{Trits}
use tangle_accelerator.Utils.FillNines.{fill_nines, num_trytes_tag}
use tangle_accelerator.Core.Transfer.{SendTransferReq}
use tangle_accelerator.Core.Apis.{new_tag}
use tangle_accelerator.Serializer.Helper.{num_trytes_hash, valid_tryte, memory_at, ◌>>?◌}

abbrev pub default_tag : Bytes
default_tag = codes "POWEREDBYTANGLEACCELERATOR9"

abbrev pub default_address : Bytes
default_address =
    codes "POWEREDBYTANGLEACCELERATOR9999999999999999999999999999999999999999999999999999999"

abbrev pub default_msg : Bytes
default_msg = codes "ZBCDKDTCFDTCSCEAQCMDEAHDPCBDVC9DTCRAPCRCRCTC9DTCFDPCHDCDFD"

abbrev pub default_msg_len : ℕ
default_msg_len = 58

-- NUM_TRYTES_MESSAGE of the IOTA library
abbrev pub num_trytes_message : ℕ
num_trytes_message = 2187

-- No byte has the bit 0x80.
unfoldable pub is_ascii : Bytes → Bool
is_ascii [] = true
is_ascii (c ∷ cs) = ltb c 0x80 && is_ascii cs

module _ (j : JsonTree) where
  -- `json_result->valuestring`, where there is an item
  abbrev pub valuestring_of : Option j.Json → Option Bytes
  valuestring_of none = none
  valuestring_of (some item) = j.valuestring item

  abbrev pub member_string : j.Json → Bytes → Option Bytes
  member_string json_obj name = valuestring_of (j.get_object_item json_obj name)

  abbrev pub value_of : Option j.Json → ℤ
  value_of none = pos 0
  value_of (some item) = if j.is_number item then j.valueint item else pos 0

  -- strncmp with "trytes"; a `message_format` without a string is not compared here.
  abbrev pub is_raw : Option Bytes → Bool
  is_raw none = true
  is_raw (some format) = not (mem_eq 6 (codes "trytes") format)

  -- `behind` as in the helpers, and `stack` the bytes of the array `new_tag`.
  module _ (t : Trits) (behind : Bytes → Bytes) (stack : Bytes) where
    abbrev pub address_trits : Option Bytes → Outcome Bytes
    address_trits none = done (t.from_trytes num_trytes_hash default_address)
    address_trits (some s) =
        if valid_tryte s (length s)
        then done (t.from_trytes num_trytes_hash (memory_at j t behind num_trytes_hash s))
        else fail serializer_json_parse_not_tryte

    -- A tag of fewer than 27 trytes is filled up, of a longer one the first 27 are taken.
    abbrev pub full_tag : Bytes → Bytes
    full_tag s =
        if ltb (length s) num_trytes_tag
        then new_tag stack (fill_nines (some stack) (some s) num_trytes_tag)
        else take num_trytes_tag s

    abbrev pub tag_trits : Option Bytes → Outcome Bytes
    tag_trits none = done (t.from_trytes num_trytes_tag default_tag)
    tag_trits (some s) =
        if valid_tryte s (length s)
        then done (t.from_trytes num_trytes_tag (full_tag s))
        else fail serializer_json_parse_not_tryte

    -- The queue is empty before: its element is what was pushed.
    abbrev pub taken_in : Bytes → Option (List Bytes) → Outcome Bytes
    taken_in trits none = fail cclient_hash
    taken_in trits (some queue) = done trits

    -- `message` and `msg_len`: two trytes for a character, or the trytes themselves.
    abbrev pub message_trytes : Bool → Option Bytes → Outcome (Bytes × ℕ)
    message_trytes raw none = done (t.from_trytes default_msg_len default_msg, default_msg_len * 3)
    message_trytes true (some s) =
        if not (is_ascii s)
        then fail serializer_json_parse_not_tryte
        else if ltb num_trytes_message (length s * 2)
        then fail serializer_message_overrun
        else done (t.ascii_to_trytes s, length s * 2)
    message_trytes false (some s) =
        if not (is_ascii s)
        then fail serializer_json_parse_not_tryte
        else if ltb num_trytes_message (length s)
        then fail serializer_message_overrun
        else done (s, length s)

    abbrev pub transfer_of_json : j.Json → Outcome (ℤ × SendTransferReq)
    transfer_of_json json_obj =
        let value = value_of (j.get_object_item json_obj (codes "value")) in
        address_trits (member_string json_obj (codes "address")) >>? λ a.
        taken_in a (t.queue_push [] a) >>? λ address.
        tag_trits (member_string json_obj (codes "tag")) >>? λ g.
        taken_in g (t.queue_push [] g) >>? λ tag.
        message_trytes (is_raw (member_string json_obj (codes "message_format")))
          (member_string json_obj (codes "message"))
        >>? λ (message, msg_len).
            done
              (value, record { message = message; msg_len = msg_len; address = address; tag = tag })

    abbrev pub parsed : {A : Type 0} → (j.Json → Outcome A) → Option j.Json → Outcome A
    parsed read none = fail serializer_json_parse
    parsed read (some json_obj) = read json_obj

    -- The request's `value`, which the transfer does not use, is beside the rest.
    unfoldable pub ta_send_transfer_req_deserialize : Option Bytes → Outcome (ℤ × SendTransferReq)
    ta_send_transfer_req_deserialize none = fail serializer_null
    ta_send_transfer_req_deserialize (some obj) = parsed transfer_of_json (j.parse obj)
