-- ===== src/Serializer/Helper.antt =====
-- accelerator/core/serializer/ser_helper.c: arrays and strings of a JSON tree to and from the program's data.
use tangle_accelerator.Base.{
  ℕ, zero, suc, Bool, true, false, ◌||◌, ◌&&◌, Option, none, some, Bytes, List, [], ◌∷◌, ◌++◌,
  length, take, strncpy, leb, ◌==◌, if◌then◌else◌,
}
use tangle_accelerator.Errors.{
  serializer_null, serializer_json_parse, serializer_json_create, serializer_invalid_req,
  cclient_not_found, cclient_json_key, cclient_json_parse, cclient_flex_trits,
  cclient_invalid_flex_trits,
}
use tangle_accelerator.Exec.{Outcome, done, fail}
use tangle_accelerator.Core.Attach.{num_trytes_serialized_transaction}
use tangle_accelerator.Env.Json.{JsonTree}
use tangle_accelerator.Env.Trits.{Trits}

-- NUM_TRYTES_HASH and NUM_TRYTES_ADDRESS, and NUM_TRYTES_SIGNATURE
abbrev pub num_trytes_hash : ℕ
num_trytes_hash = 81

abbrev pub num_trytes_signature : ℕ
num_trytes_signature = 2187

-- NUM_TRYTES_TAG and NUM_TRYTES_NONCE
abbrev pub num_trytes_tag_field : ℕ
num_trytes_tag_field = 27

abbrev pub is_tryte : ℕ → Bool
is_tryte c = (leb b'A' c && leb c b'Z') || c == b'9'

-- Behind the characters of a string is its NUL.
unfoldable pub valid_tryte : Bytes → ℕ → Bool
valid_tryte trytes zero = true
valid_tryte [] (suc len) = false
valid_tryte (c ∷ trytes) (suc len) = is_tryte c && valid_tryte trytes len

-- The step behind a call whose status is tested.
infixl 5 ◌>>?◌
abbrev pub ◌>>?◌ : {A B : Type 0} → Outcome A → (A → Outcome B) → Outcome B
done a >>? f = f a
fail s >>? f = fail s

module _ (j : JsonTree) where
  unfoldable pub push_strings : List j.Json → List Bytes → Outcome (List Bytes)
  push_strings [] ut = done ut
  push_strings (x ∷ xs) ut = elim (j.get_string_value x) [
    | none ↦ fail serializer_json_parse
    | some str ↦ push_strings xs (ut ++ str ∷ [])
  ]

  -- The items where there is an array.
  abbrev pub array_items : Option j.Json → Option (List j.Json)
  array_items none = none
  array_items (some item) = if j.is_array item then some (j.items item) else none

  abbrev pub push_all_strings : List Bytes → Option (List j.Json) → Outcome (List Bytes)
  push_all_strings ut none = fail serializer_json_parse
  push_all_strings ut (some xs) = push_strings xs ut

  unfoldable pub ta_json_string_array_to_string_utarray :
      j.Json → Bytes → List Bytes → Outcome (List Bytes)
  ta_json_string_array_to_string_utarray obj obj_name ut =
      push_all_strings ut (array_items (j.get_object_item obj obj_name))

  -- strncpy of a string item, which the buffer of `size` characters shows.
  abbrev pub string_text : ℕ → Bool → Option Bytes → Outcome Bytes
  string_text size false valuestring = fail cclient_json_parse
  string_text size true none = fail cclient_json_parse
  string_text size true (some s) = done (strncpy size s)

  abbrev pub item_text : ℕ → Option j.Json → Outcome Bytes
  item_text size none = fail cclient_json_key
  item_text size (some item) = string_text size (j.is_string item) (j.valuestring item)

  -- The `size` bytes that are written to `text`; the flag says whether `text` points to memory.
  unfoldable pub ta_json_get_string : Option j.Json → Option Bytes → Bool → ℕ → Outcome Bytes
  ta_json_get_string none obj_name text size = fail serializer_null
  ta_json_get_string (some json_obj) none text size = fail serializer_null
  ta_json_get_string (some json_obj) (some obj_name) false size = fail serializer_null
  ta_json_get_string (some json_obj) (some obj_name) true size =
      item_text size (j.get_object_item json_obj obj_name)

  module _ (t : Trits) where
    -- The texts of the elements, put in until one cannot be converted.
    unfoldable pub add_hashes : List Bytes → j.Json → Outcome j.Json
    add_hashes [] json_root = done json_root
    add_hashes (hash ∷ hashes) json_root =
        let (trytes_out, trits_count) = t.to_trytes num_trytes_hash hash in
        let rest = add_hashes hashes (j.add_item_to_array json_root (j.create_string trytes_out)) in
        if trits_count == 0 then fail cclient_invalid_flex_trits else rest

    unfoldable pub ta_hash243_stack_to_json_array : List Bytes → j.Json → Outcome j.Json
    ta_hash243_stack_to_json_array [] json_root = fail cclient_not_found
    ta_hash243_stack_to_json_array (hash ∷ stack) json_root = add_hashes (hash ∷ stack) json_root

    unfoldable pub ta_hash243_queue_to_json_array : List Bytes → j.Json → Outcome j.Json
    ta_hash243_queue_to_json_array [] json_root = fail cclient_not_found
    ta_hash243_queue_to_json_array (hash ∷ queue) json_root = add_hashes (hash ∷ queue) json_root

    unfoldable pub add_transactions : List Bytes → j.Json → Outcome j.Json
    add_transactions [] array_obj = done array_obj
    add_transactions (elt ∷ elts) array_obj =
        let (trytes_out, trits_count) = t.to_trytes num_trytes_serialized_transaction elt in
        let rest =
          add_transactions elts (j.add_item_to_array array_obj (j.create_string trytes_out)) in
        if trits_count == 0 then fail cclient_flex_trits else rest

    -- To NULL nothing is added.
    abbrev pub added : Option j.Json → Bytes → j.Json → Option j.Json
    added none obj_name item = none
    added (some json_root) obj_name item = some (j.add_item_to_object json_root obj_name item)

    -- The object has the array before that is filled; of a failed one nothing is printed.
    abbrev pub add_filled :
        Bytes → Option j.Json → List Bytes → Option j.Json → Outcome (Option j.Json)
    add_filled obj_name json_root array none = fail serializer_json_create
    add_filled obj_name json_root array (some array_obj) =
        add_transactions array array_obj >>? λ filled. done (added json_root obj_name filled)

    unfoldable pub ta_hash8019_array_to_json_array :
        List Bytes → Bytes → Option j.Json → Outcome (Option j.Json)
    ta_hash8019_array_to_json_array [] obj_name json_root = done json_root
    ta_hash8019_array_to_json_array (elt ∷ array) obj_name json_root =
        add_filled obj_name json_root (elt ∷ array) j.create_array

    -- `behind s` is what the memory holds behind the NUL of a string `s` of the tree.
    module _ (behind : Bytes → Bytes) where
      abbrev pub memory_at : ℕ → Bytes → Bytes
      memory_at n s = take n (s ++ 0 ∷ behind s)

      abbrev pub in_queue : Option (List Bytes) → Outcome (List Bytes)
      in_queue none = fail serializer_json_parse
      in_queue (some queue) = done queue

      -- An item without a string is passed over.
      abbrev pub push_hash : Option Bytes → List Bytes → Outcome (List Bytes)
      push_hash none queue = done queue
      push_hash (some s) queue =
          in_queue
            (t.queue_push queue (t.from_trytes num_trytes_hash (memory_at num_trytes_hash s)))

      unfoldable pub push_hashes : List j.Json → List Bytes → Outcome (List Bytes)
      push_hashes [] queue = done queue
      push_hashes (x ∷ xs) queue = elim (push_hash (j.valuestring x) queue) [
        | fail s ↦ fail s
        | done queue' ↦ push_hashes xs queue'
      ]

      abbrev pub push_item_hashes : List Bytes → Option j.Json → Outcome (List Bytes)
      push_item_hashes queue none = fail serializer_null
      push_item_hashes queue (some item) =
          if j.is_array item then push_hashes (j.items item) queue else fail serializer_json_parse

      unfoldable pub ta_json_array_to_hash243_queue :
          j.Json → Bytes → List Bytes → Outcome (List Bytes)
      ta_json_array_to_hash243_queue obj obj_name queue =
          push_item_hashes queue (j.get_object_item obj obj_name)

    abbrev pub push_transaction : Option Bytes → List Bytes → Outcome (List Bytes)
    push_transaction none array = done array
    push_transaction (some s) array =
        if length s == num_trytes_serialized_transaction
        then done (array ++ t.from_trytes num_trytes_serialized_transaction s ∷ [])
        else fail serializer_invalid_req

    unfoldable pub push_transactions : List j.Json → List Bytes → Outcome (List Bytes)
    push_transactions [] array = done array
    push_transactions (x ∷ xs) array = elim (push_transaction (j.valuestring x) array) [
      | fail s ↦ fail s
      | done array' ↦ push_transactions xs array'
    ]

    abbrev pub push_array_transactions : List Bytes → Option (List j.Json) → Outcome (List Bytes)
    push_array_transactions array none = fail cclient_json_parse
    push_array_transactions array (some xs) = push_transactions xs array

    unfoldable pub ta_json_array_to_hash8019_array :
        j.Json → Bytes → List Bytes → Outcome (List Bytes)
    ta_json_array_to_hash8019_array obj obj_name array =
        push_array_transactions array (array_items (j.get_object_item obj obj_name))
