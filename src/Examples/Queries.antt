-- ===== src/Examples/Queries.antt =====
-- Queries and transfers at concrete inputs. A transaction is a text whose first byte is its index; its trunk is
-- the text with the next index.
use tangle_accelerator.Base.{
  pos, ℕ, suc, true, false, Option, none, some, Bytes, List, [], ◌∷◌, ◌++◌, codes, bytes_eq,
  bytes_eq_iff, ◌≡◌, ◌≢◌, refl, arith,
}
use mathlib.Core.List.{Perm, Permᴰ}
use tangle_accelerator.Exec.{done}
use tangle_accelerator.Env.Memory.{Memory, update, memory_env, empty_memory, uuid_text}
use tangle_accelerator.Env.Memory.Lawful.{memory_redis, memory_lock, memory_uuid, impossible}
use tangle_accelerator.Env.Memory.Sort.{sort, perm-sort, IsSorted-sort}
use tangle_accelerator.Env.Iota.{Iota}
use tangle_accelerator.Env.Tangle.{Tangle, TangleLaws, Told}
use tangle_accelerator.Env.Frame.{NetLaws, Near, Near-refl}
use tangle_accelerator.Cache.Steps.{IsAlive}
use tangle_accelerator.Core.Buffer.{TaCache, push_txn_to_buffer}
use tangle_accelerator.Core.Attach.{SendConfig, ta_send_trytes, serialize_all}
use tangle_accelerator.Core.Requests.{Requests, AreNames, Shows, submit}
use tangle_accelerator.Core.Query.{ta_get_bundle, ta_find_transaction_objects}
use tangle_accelerator.Core.Query.Objects.{Looked, IsWhole}
use tangle_accelerator.Core.Transfer.{
  SendTransferReq, SendTransferRes, prepared_bundle, ta_send_transfer,
}
use tangle_accelerator.Core.Transfer.Buffered.{IsUnused}
use tangle_accelerator.Core.Apis.{Serializers, api_send_transfer}
use tangle_accelerator.Env.Trits.{Trits, TxnFields}
use tangle_accelerator.Env.Memory.Tree.{
  Item, text, object, member, encode, memory_json, memory_laws,
}
use tangle_accelerator.Serializer.Transfer.{
  default_msg, default_address, default_tag, ta_send_transfer_req_deserialize,
}
use tangle_accelerator.Serializer.Responses.{ta_send_transfer_res_serialize}
use tangle_accelerator.Serializer.Mam.{SendMamReq, no_keys, unset}
use tangle_accelerator.Serializer.Service.{source_serializers}
use tangle_accelerator.Core
use tangle_accelerator.Serializer

abbrev pub alive : IsAlive memory_redis
alive c w = refl

-- The node refuses every bundle.
abbrev pub stern_iota : Iota Memory
stern_iota = record {
  Txn = Bytes;
  of_trits = λ t. t;
  serialize = λ x. some x;
  on_trits = λ x. (true, x);
  last_index = λ x. 1;
  hash = λ x. x;
  set_trunk = λ t x. x;
  set_branch = λ t x. x;
  set_attachment_timestamp = λ n x. x;
  set_attachment_timestamp_upper = λ n x. x;
  set_attachment_timestamp_lower = λ n x. x;
  set_nonce = λ t x. x;
  to_trytes = λ t. t;
  from_trytes = λ t. t;
  digest = λ t. t;
  current_timestamp_ms = λ w. (0, w);
  dcurl_entry = λ t mwm w. (some [], w);
  get_transactions_to_approve = λ depth w. (none, w);
  blank_tips = ([], []);
  store_and_broadcast = λ t w. (true, w);
  get_trytes = λ hashes w. (some hashes, w);
}

abbrev pub first_byte : Bytes → ℕ
first_byte [] = 0
first_byte (c ∷ s) = c

abbrev pub next_text : Bytes → Bytes
next_text [] = []
next_text (c ∷ s) = suc c ∷ s

abbrev pub with_some : List Bytes → Option Bytes → List Bytes
with_some xs none = xs
with_some xs (some x) = xs ++ x ∷ []

abbrev pub text_0 : Bytes
text_0 = 70 ∷ b'X' ∷ b'Y' ∷ []

abbrev pub text_1 : Bytes
text_1 = 71 ∷ b'X' ∷ b'Y' ∷ []

-- Every bundle has two transactions, of which the node tells the second one first.
abbrev pub two_texts : Tangle stern_iota
two_texts = record {
  current_index = first_byte;
  trunk = next_text;
  bundle_of = λ x. [];
  address_of = λ x. [];
  deserialize = λ s. s;
  flex_trits_are_null = λ s. false;
  push_back = with_some;
  qsort = sort;
  finalize = λ xs. xs;
  message_of = λ s n. some s;
  prepare_transfers = λ seed n x now w. (some (text_0 ∷ text_1 ∷ []), w);
  find_transactions = λ q w. (some (text_1 ∷ text_0 ∷ []), w);
  get_transaction_objects = λ hashes w. (some hashes, w);
}

two_laws : TangleLaws stern_iota two_texts
two_laws = record {
  txn_set = hlevel;
  push_back_some = λ xs x. refl;
  qsort_perm = λ cmp xs. ∣ perm-sort cmp xs ∣₁;
  qsort_sorted = λ key cmp xs h. IsSorted-sort cmp key h xs;
}

swapped : Perm (text_1 ∷ text_0 ∷ []) (text_0 ∷ text_1 ∷ [])
swapped = ∣ Permᴰ.swap refl refl ∣₁

told : (h : Bytes) → Told stern_iota two_texts (λ t. t) h
told h v = refl

ta_get_bundle_lem_example :
    (ta_get_bundle stern_iota two_texts (codes "HASH") [] empty_memory).0
    ≡ done (text_0 ∷ text_1 ∷ [])
ta_get_bundle_lem_example =
    Core.Query.Bundle.ta_get_bundle_lem stern_iota two_texts two_laws (λ t. t)
      (text_1 ∷ text_0 ∷ []) (codes "HASH") text_0 (text_1 ∷ []) [] empty_memory refl
      (told text_1, (told text_0, tt)) (refl, refl, tt) swapped

-- Only "A" is cached, as `text_0`.
abbrev cached_world : Memory
cached_world = record empty_memory { strs = update empty_memory.strs (codes "A") (some text_0) }

abbrev known : Bytes → Option Bytes
known h = cached_world.strs h

ta_find_transaction_objects_twice_example :
    (ta_find_transaction_objects memory_env true stern_iota two_texts
      (some (codes "B" ∷ codes "A" ∷ codes "C" ∷ []))
      (some [])
      cached_world).0
    ≡ done (text_0 ∷ codes "B" ∷ codes "B" ∷ codes "C" ∷ codes "B" ∷ [])
ta_find_transaction_objects_twice_example =
    Core.Query.Objects.ta_find_transaction_objects_twice memory_redis alive stern_iota two_texts
      two_laws known (λ t. t) (codes "B" ∷ codes "A" ∷ codes "C" ∷ []) [] cached_world
      (
        (omega arith, refl, refl),
        ((omega arith, refl, (text_0, refl, omega arith, refl)), ((omega arith, refl, refl), tt)),
      )
      (told (codes "B"), (told (codes "C"), tt)) ((refl, refl), ((refl, refl), tt))

stern_net : NetLaws memory_lock stern_iota
stern_net = record {
  near_timestamp = Near-refl memory_lock;
  near_dcurl = λ t n. Near-refl memory_lock;
  near_tips = λ n. Near-refl memory_lock;
  near_broadcast = λ t. Near-refl memory_lock;
  near_get_trytes = λ t. Near-refl memory_lock;
}

abbrev lists : TaCache
lists = record {
  buffer_list_name = codes "buff";
  complete_list_name = codes "comp";
  mam_buffer_list_name = codes "mam_buff";
  mam_complete_list_name = codes "mam_comp";
  timeout = 600;
}

distinct : (a b : Bytes) → bytes_eq a b ≡ false → a ≢ b
distinct a b h p = impossible (cc ((bytes_eq_iff a b).1 p))

names : AreNames lists
names = record { buffer_text = omega arith; complete_text = omega arith; apart = distinct _ _ refl }

abbrev conf : SendConfig
conf = record { gtta = false; milestone_depth = 3; mwm = 14 }

abbrev no_requests : Requests
no_requests = record { pending = []; sent = [] }

none_shown : Shows memory_redis lists empty_memory no_requests
none_shown = record {
  pending_ids = refl;
  sent_ids = refl;
  buffer_list = refl;
  complete_list = refl;
  pending_stand = tt;
  sent_stand = tt;
  unique = tt;
}

-- The request of an empty object
abbrev req : SendTransferReq
req = record { message = default_msg; msg_len = 174; address = default_address; tag = default_tag }

abbrev no_res : SendTransferRes
no_res = record { uuid = none; address = none; hash = [] }

unused :
    (v : Memory)
    → Near memory_lock empty_memory v
    → IsUnused memory_lock alive memory_uuid 3 stern_iota two_texts stern_net lists names conf []
        req no_res no_requests v
unused v n = record {
  fresh = tt;
  not_buffer = distinct _ _ refl;
  not_complete = distinct _ _ refl;
  no_string = n.near_strings (uuid_text v.serial);
  no_items = n.near_items (uuid_text v.serial);
}

-- A text is its own trits, and the fields of a transaction are the transaction.
abbrev pub toy_trits : Trits
toy_trits = record {
  to_trytes = λ n h. (h, 1);
  from_trytes = λ n s. s;
  ascii_to_trytes = λ s. s;
  queue_push = λ q h. some (q ++ h ∷ []);
}

abbrev pub toy_fields : TxnFields Bytes
toy_fields = record {
  hash = λ x. x;
  message = λ x. x;
  address = λ x. x;
  value = λ x. pos 0;
  obsolete_tag = λ x. x;
  timestamp = λ x. 0;
  current_index = first_byte;
  last_index = λ x. 1;
  bundle = λ x. [];
  trunk = next_text;
  branch = λ x. x;
  tag = λ x. x;
  attachment_timestamp = λ x. 0;
  attachment_timestamp_lower = λ x. 0;
  attachment_timestamp_upper = λ x. 0;
  nonce = λ x. x;
}

abbrev new_mam_req : SendMamReq
new_mam_req = record {
  service_token = [];
  data_v1 = record { seed = none; ch_mss_depth = pos 6; chid = none; message = none };
  key = no_keys;
  protocol = unset;
}

abbrev nothing_behind : Bytes → Bytes
nothing_behind s = []

abbrev serializers : Serializers Bytes
serializers = source_serializers memory_json toy_trits nothing_behind [] new_mam_req toy_fields

-- What the postfix form of an empty object is.
abbrev empty_object : Bytes
empty_object = 7 ∷ []

abbrev refusal : Bytes
refusal =
    encode (member (member object (codes "uuid") (text (uuid_text 0))) (codes "address") (text []))
      []

api_send_transfer_uuid_example :
    (json : Item) × (item : Item) × (uuid : Bytes) × (memory_json.parse refusal ≡ some json)
    × (memory_json.get_object_item json (codes "uuid") ≡ some item)
    × (memory_json.create_string uuid ≡ some item)
    × Shows memory_redis lists
        (api_send_transfer memory_env true stern_iota two_texts serializers 3 conf [] lists
          empty_object empty_memory).1
        (submit uuid (text_0 ∷ text_1 ∷ []) no_requests)
api_send_transfer_uuid_example =
    Serializer.Service.api_send_transfer_uuid memory_lock alive memory_uuid 3 stern_iota two_texts
      stern_net lists names conf [] req memory_laws toy_trits nothing_behind [] new_mam_req
      toy_fields empty_object refusal empty_memory no_requests (text_0 ∷ text_1 ∷ [])
      (text_0 ∷ text_1 ∷ []) (λ s n x now. Near-refl memory_lock)
      (unfold ta_send_transfer_req_deserialize in refl) none_shown (unfold prepared_bundle in refl)
      (unfold serialize_all in refl) (refl, (refl, tt))
      (unfold prepared_bundle ta_send_trytes in refl)
      (unused _ (unfold prepared_bundle ta_send_trytes in Near-refl memory_lock _))
      (unfold api_send_transfer ta_send_transfer ta_send_transfer_req_deserialize prepared_bundle
          serialize_all ta_send_trytes push_txn_to_buffer ta_send_transfer_res_serialize in
        refl)
