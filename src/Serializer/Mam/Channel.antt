-- ===== src/Serializer/Mam/Channel.antt =====
-- accelerator/core/serializer/ser_mam.c: registering a seed for MAM channels.
use tangle_accelerator.Base.{
  ℕ, Bool, true, Option, none, some, Bytes, codes, length, ◌==◌, if◌then◌else◌,
}
use tangle_accelerator.Errors.{
  serializer_null, serializer_json_parse, serializer_key_not_exists, serializer_value_empty,
  serializer_value_invlid,
}
use tangle_accelerator.Exec.{Outcome, done, fail}
use tangle_accelerator.Env.Json.{JsonTree}
use tangle_accelerator.Core.Buffer.{uuid_len}
use tangle_accelerator.Serializer.Helper.{num_trytes_hash}
use tangle_accelerator.Serializer.Requests.{read_json}
use tangle_accelerator.Serializer.Responses.{printed_text}

module _ (j : JsonTree) where
  abbrev pub sized_string : ℕ → Option Bytes → Outcome Bytes
  sized_string n none = fail serializer_value_empty
  sized_string n (some s) = if length s == n then done s else fail serializer_value_invlid

  abbrev pub sized_item : ℕ → Option j.Json → Outcome Bytes
  sized_item n none = fail serializer_key_not_exists
  sized_item n (some item) = sized_string n (j.valuestring item)

  -- The request's seed; the flag says whether the request is there.
  unfoldable pub register_mam_channel_req_deserialize : Option Bytes → Bool → Outcome Bytes
  register_mam_channel_req_deserialize (some obj) true =
      read_json j (λ o. sized_item num_trytes_hash (j.get_object_item o (codes "seed")))
        (j.parse obj)
  register_mam_channel_req_deserialize _ _ = fail serializer_null

  -- An object that could not be made is NULL, of which nothing is printed.
  abbrev pub user_text : Bytes → Option j.Json → Outcome Bytes
  user_text uuid none = fail serializer_json_parse
  user_text uuid (some json_root) =
      printed_text j (j.print_unformatted (j.add_string_to_object json_root (codes "user-id") uuid))

  unfoldable pub register_mam_channel_res_serialize : Option Bytes → Outcome Bytes
  register_mam_channel_res_serialize none = fail serializer_null
  register_mam_channel_res_serialize (some uuid) = user_text uuid j.create_object

  -- The text; the flag says whether `user_id` points to memory.
  unfoldable pub register_mam_channel_res_deserialize : Option Bytes → Bool → Outcome Bytes
  register_mam_channel_res_deserialize (some obj) true =
      read_json j (λ o. sized_item uuid_len (j.get_object_item o (codes "user-id"))) (j.parse obj)
  register_mam_channel_res_deserialize _ _ = fail serializer_null
