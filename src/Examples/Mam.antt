-- ===== src/Examples/Mam.antt =====
-- MAM channels at concrete inputs: a toy MAM library whose channel has two keys, and the cache in memory.
use tangle_accelerator.Base.{
  ℕ, zero, suc, true, false, none, some, Bytes, List, [], ◌∷◌, codes, length, replicate,
  NulFree-replicate, ◌≡◌, ◌≢◌, refl, sym, ap, ◌∙◌, arith,
}
use tangle_accelerator.Exec.{done, done-inj}
use tangle_accelerator.Env.Memory.{Memory, memory_env, empty_memory, uuid_text}
use tangle_accelerator.Env.Memory.Lawful.{memory_redis, memory_uuid}
use tangle_accelerator.Env.Memory.Tree.{text, object, member, encode, memory_json, memory_laws}
use tangle_accelerator.Cache.{cache_set, cache_get}
use tangle_accelerator.Core.Query.{objects_of, ta_get_txn_objects_with_txn_hash}
use tangle_accelerator.Serializer.Mam.Channel.{
  register_mam_channel_req_deserialize, register_mam_channel_res_serialize,
  register_mam_channel_res_deserialize,
}
use tangle_accelerator.Mam.{MamLib, MamEncryptKey, no_mam_keys, loaded, msg_id_exist}
use tangle_accelerator.Mam.Channel.{
  Written, FindResult, announce_chid, rc_ok, search, collect_tags,
  create_channel_fetch_all_transactions,
}
use tangle_accelerator.Mam.Ends.{Ends, not_full}
use tangle_accelerator.Mam.Receive.{ta_register_mam_channel}
use tangle_accelerator.Mam.Api.{api_register_mam_channel}
use tangle_accelerator.Examples.Queries.{alive, stern_iota, two_texts, text_0, text_1}
use tangle_accelerator.Mam

-- The transaction with the header of a key: the first two keys were used by the two transactions there are.
abbrev header_text : ℕ → Bytes
header_text zero = text_0
header_text (suc zero) = text_1
header_text n = n ∷ []

-- An object's state is the number of the key that is next, which is the ID of a header.
abbrev toy_mam : MamLib Memory Bytes
toy_mam = record {
  Api = ℕ;
  Psks = List Bytes;
  NtruPks = List Bytes;
  NtruSks = List Bytes;
  no_psks = [];
  no_ntru_pks = [];
  no_ntru_sks = [];
  psk_add = λ ks id k. some (k ∷ ks);
  ntru_pk_add = λ ks k. some (k ∷ ks);
  ntru_sk_add = λ ks k. some (k ∷ ks);
  add_psks = λ a ks. some a;
  trytes_to_trits = λ s. s;
  trits_to_trytes = λ s. s;
  ascii_to_trytes = λ s. s;
  trytes_to_ascii = λ s. s;
  init = λ seed. some 0;
  load = λ path w. (loaded 0, w);
  save = λ a path w. (false, w);
  destroy = λ a. false;
  channel_create = λ d a. (some (codes "C"), a);
  channel_ids = λ a. codes "C" ∷ [];
  endpoint_ids = λ a n. [];
  mss_next = λ n a. suc a;
  write_header = λ c ps ks b a. (some (a ∷ [], header_text a ∷ []), a);
  write_packet = λ id p b a. (some b, a);
  announce_channel = λ c d ps ks b a. (some b, a);
  bundle_read = λ b a. (none, a);
  add_trusted_channel = λ c a. some a;
  trusted_channels = λ a. [];
  flex_trits_to_trytes = λ room s n k. s;
  num_flex_trits_tag = 81;
  tag_stack = replicate 28 0;
  tag_cursor_stack = replicate 28 0;
  tag_of = λ x. elim x [ none ↦ [] | some s ↦ s ];
}

abbrev no_objects : {Q : Type 0} → Q → Memory → (FindResult × List Bytes) × Memory
no_objects q w = ((rc_ok, []), w)

-- Of four keys, the third is the first that is not used, and one is left.
abbrev third_key : Written Bytes
third_key = record {
  chid = codes "C";
  msg_id = 2 ∷ [];
  bundle = (2 ∷ []) ∷ [];
  operation = announce_chid;
}

fetched :
    (create_channel_fetch_all_transactions stern_iota two_texts toy_mam no_objects 2 false [] []
      (0, empty_memory)).0
    ≡ done (codes "C", text_1 ∷ text_0 ∷ [])
unfolding create_channel_fetch_all_transactions ta_get_txn_objects_with_txn_hash objects_of
    collect_tags msg_id_exist
fetched = refl

-- Of four keys, two are used.
two_left :
    Ends stern_iota two_texts toy_mam no_objects 2
      (no_mam_keys toy_mam)
      0
      false
      []
      (0, empty_memory)
two_left = not_full λ a p q.
    let same : (codes "C", text_1 ∷ text_0 ∷ []) ≡ a = done-inj (sym fetched ∙ p) in
    let count : 2 ≡ length a.1 = ap (λ x. length x.1) same in absurd (omega (arith, count, q))

search-Ends_example :
    (search stern_iota two_texts toy_mam no_objects 1 2 false
      (no_mam_keys toy_mam)
      []
      (0, empty_memory)).0
    ≢ done none
search-Ends_example =
    Mam.Ends.search-Ends stern_iota two_texts toy_mam no_objects 2 (no_mam_keys toy_mam) 0 1 false
      [] (0, empty_memory) (omega arith) two_left

abbrev seed : Bytes
seed = replicate 81 b'S'

abbrev seed_text : Bytes
seed_text = encode (member object (codes "seed") (text seed)) []

abbrev user_answer : Bytes
user_answer = encode (member object (codes "user-id") (text (uuid_text 0))) []

api_register_mam_channel-get_example :
    (uuid : Bytes) × (register_mam_channel_res_deserialize memory_json (some user_answer) true
      ≡ done uuid)
    × ((cache_get memory_env true
          (some uuid)
          (api_register_mam_channel memory_env true memory_json 600
            (some seed_text)
            empty_memory).1).0
        ≡ done seed)
api_register_mam_channel-get_example =
    Mam.Api.api_register_mam_channel-get memory_laws memory_redis alive memory_uuid 600 seed_text
      seed user_answer empty_memory (unfold register_mam_channel_req_deserialize in refl)
      (NulFree-replicate 81 b'S' (omega arith)) refl refl
      (unfold api_register_mam_channel register_mam_channel_req_deserialize ta_register_mam_channel
          cache_set register_mam_channel_res_serialize in
        refl)
