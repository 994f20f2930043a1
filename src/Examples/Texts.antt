-- ===== src/Examples/Texts.antt =====
-- Requests and responses in texts at concrete inputs, over trees in memory.
use tangle_accelerator.Base.{
  pos, ℕ, ◌<◌, true, some, Bytes, [], ◌∷◌, codes, replicate, NulFree-replicate, length-replicate,
  ◌≡◌, refl, inl, inr, arith,
}
use tangle_accelerator.Exec.{done}
use tangle_accelerator.Env.Trits.{Converts}
use tangle_accelerator.Env.Memory.Tree.{
  Item, text, array, object, push, member, encode, memory_json, memory_laws,
}
use tangle_accelerator.Core.Transfer.{SendTransferReq}
use tangle_accelerator.Serializer.Helper.{
  add_transactions, ta_hash8019_array_to_json_array, ta_hash243_queue_to_json_array,
}
use tangle_accelerator.Serializer.Transfer.{
  default_address, default_tag, is_ascii, ta_send_transfer_req_deserialize,
}
use tangle_accelerator.Serializer.Transfer.Accepted.{Accepted}
use tangle_accelerator.Serializer.Requests.{
  ta_send_trytes_req_deserialize, ta_find_transaction_objects_req_deserialize,
}
use tangle_accelerator.Serializer.Responses.{ta_send_trytes_res_serialize}
use tangle_accelerator.Serializer.Mam.{SendMamRes, send_mam_res_new}
use tangle_accelerator.Serializer.Mam.Responses.{
  send_mam_message_res_serialize, send_mam_message_res_deserialize,
}
use tangle_accelerator.Serializer.Mam.RoundTrip.{Text}
use tangle_accelerator.Examples.Queries.{toy_trits}
use tangle_accelerator.Serializer

abbrev nothing_behind : Bytes → Bytes
nothing_behind s = []

same_letters : (n c : ℕ) → 0 < c → Converts toy_trits n (replicate n c)
same_letters n c h = record {
  counted = λ p. absurd (omega (arith, p));
  full = length-replicate n c;
  nul_free = NulFree-replicate n c h;
  back = refl;
}

Text-replicate : (n c : ℕ) → 0 < c → Text n (replicate n c)
Text-replicate n c h = (NulFree-replicate n c h, length-replicate n c)

abbrev transaction : Bytes
transaction = replicate 2673 b'A'

abbrev sent_text : Bytes
sent_text = encode (member object (codes "trytes") (push array (text transaction))) []

ta_send_trytes_req_deserialize-serialize_example :
    ta_send_trytes_req_deserialize memory_json toy_trits (some sent_text) true []
    ≡ done (transaction ∷ [])
ta_send_trytes_req_deserialize-serialize_example =
    Serializer.RoundTrip.ta_send_trytes_req_deserialize-serialize memory_laws toy_trits
      (transaction ∷ []) [] sent_text (same_letters 2673 b'A' (omega arith), tt)
      (unfold ta_send_trytes_res_serialize ta_hash8019_array_to_json_array add_transactions in refl)

abbrev hash : Bytes
hash = replicate 81 b'B'

ta_find_transaction_objects_req_deserialize-queue_example :
    (extended : Item) × (ta_hash243_queue_to_json_array memory_json toy_trits (hash ∷ []) array
      ≡ done extended)
    × ((text : Bytes)
        → memory_json.print_unformatted (member object (codes "hashes") extended) ≡ some text
        → ta_find_transaction_objects_req_deserialize memory_json toy_trits nothing_behind
            (some text)
            []
          ≡ done (hash ∷ []))
ta_find_transaction_objects_req_deserialize-queue_example =
    Serializer.RoundTrip.ta_find_transaction_objects_req_deserialize-queue memory_laws toy_trits
      nothing_behind [] [] hash array object (λ q h. refl) (same_letters 81 b'B' (omega arith), tt)
      refl refl

-- No channel was announced, but the next one is told.
abbrev mam_res : SendMamRes
mam_res = record {
  bundle_hash = replicate 81 b'B';
  chid = replicate 81 b'C';
  msg_id = replicate 21 b'M';
  announcement_bundle_hash = [];
  chid1 = replicate 81 b'D';
}

abbrev mam_text : Bytes
mam_text =
    encode
      (member
        (member
          (member (member object (codes "bundle_hash") (text mam_res.bundle_hash)) (codes "chid")
            (text mam_res.chid))
          (codes "msg_id") (text mam_res.msg_id))
        (codes "chid1") (text mam_res.chid1))
      []

send_mam_message_res_deserialize-serialize_example :
    send_mam_message_res_deserialize memory_json (some mam_text) send_mam_res_new ≡ done mam_res
send_mam_message_res_deserialize-serialize_example =
    Serializer.Mam.RoundTrip.send_mam_message_res_deserialize-serialize memory_laws mam_res mam_text
      (record {
        bundle_hash = Text-replicate 81 b'B' (omega arith);
        chid = Text-replicate 81 b'C' (omega arith);
        msg_id = Text-replicate 21 b'M' (omega arith);
        announcement = inl refl;
        chid1 = inr (Text-replicate 81 b'D' (omega arith));
      })
      (unfold send_mam_message_res_serialize in refl)

abbrev hello : Bytes
hello = encode (member object (codes "message") (text (codes "HI"))) []

abbrev hello_req : SendTransferReq
hello_req = record {
  message = codes "HI";
  msg_len = 4;
  address = default_address;
  tag = default_tag;
}

ta_send_transfer_req_deserialize-Accepted_example :
    (json : Item) × (memory_json.parse hello ≡ some json)
    × Accepted memory_json toy_trits nothing_behind [] json hello_req
ta_send_transfer_req_deserialize-Accepted_example =
    Serializer.Transfer.Accepted.ta_send_transfer_req_deserialize-Accepted memory_json toy_trits
      nothing_behind [] hello (pos 0) hello_req
      (unfold ta_send_transfer_req_deserialize is_ascii in refl)
