-- ===== src/Examples.antt =====
-- The theorems at concrete inputs: a world in memory, short texts, small bundles.
mod Network
mod Options
mod Queries
mod Texts
mod Mam
mod Lifecycle
mod Device
use tangle_accelerator.Base.{
  ℕ, suc, ◌+◌, ◌<◌, true, false, none, some, Bytes, [], ◌∷◌, ◌++◌, length, replicate, get_elem?,
  ◌*◌, ◌%◌, ◌^◌, codes, c_str, NulFree, bytes_eq, bytes_eq_iff, ◌≡◌, ◌≢◌, ◌↔◌, refl, arith,
}
use tangle_accelerator.Errors.{Status, cache_failed_response, ok, code, ta_error_to_string}
use tangle_accelerator.Exec.{Outcome, done, fail}
use tangle_accelerator.Env.Memory.{Memory, update, memory_env, empty_memory, uuid_text}
use tangle_accelerator.Env.Memory.Lawful.{memory_redis, memory_lock, memory_uuid, impossible}
use tangle_accelerator.Cache.{
  cache_list_push, cache_list_at, cache_list_pop, cache_list_exist, cache_set, cache_get,
}
use tangle_accelerator.Cache.Steps.{IsAlive}
use tangle_accelerator.Cache.Exist.{mem_bytes, SameView}
use tangle_accelerator.Cache.Lists.{NulsAtEnd}
use tangle_accelerator.Core.Buffer.{
  TaCache, FetchRes, mam_bufreq_not_exist, mam_bufreq_sent, mam_bufreq_unsent,
  ta_fetch_txn_with_uuid, ta_fetch_mam_with_uuid, push_txn_to_buffer,
}
use tangle_accelerator.Core
use tangle_accelerator.Cache
use tangle_accelerator.Errors
use tangle_accelerator.Utils
use tangle_accelerator.Utils.TryteByteConv.{bytes_to_trytes, trytes_to_bytes}
use tangle_accelerator.Utils.Djb2.{hash_algo_djb2}
use tangle_accelerator.Utils.FillNines.{fill_nines, returns}
use tangle_accelerator.Core.Buffer.Fetch.{Taken, AreLists, AreUuids}

abbrev alive : IsAlive memory_redis
alive c w = refl

abbrev config : TaCache
config = record {
  buffer_list_name = codes "buff";
  complete_list_name = codes "comp";
  mam_buffer_list_name = codes "mam_buff";
  mam_complete_list_name = codes "mam_comp";
  timeout = 600;
}

abbrev first_id : Bytes
first_id = replicate 36 b'1'

abbrev second_id : Bytes
second_id = replicate 36 b'2'

-- A transaction of three bytes, which stands for itself.
abbrev txn : Bytes
txn = codes "TXN"

abbrev fresh : FetchRes Bytes
fresh = record { status = mam_bufreq_not_exist; bundle = []; mam_result = none }

-- Two requests were sent, the second one later; both bundles are stored.
abbrev sent_world : Memory
sent_world = record empty_memory {
  lists =
      update
        (update (update empty_memory.lists (codes "comp") (second_id ∷ first_id ∷ [])) first_id
          (txn ∷ []))
        second_id (txn ∷ []);
}

-- One request waits.
abbrev waiting_world : Memory
waiting_world = record empty_memory {
  lists = update empty_memory.lists (codes "buff") (first_id ∷ []);
}

distinct : (a b : Bytes) → bytes_eq a b ≡ false → a ≢ b
distinct a b h p = impossible (cc ((bytes_eq_iff a b).1 p))

first_ok : NulFree first_id
first_ok = omega arith

comp_ok : NulFree (codes "comp")
comp_ok = omega arith

buff_ok : NulFree (codes "buff")
buff_ok = omega arith

first-ne-comp : first_id ≢ codes "comp"
first-ne-comp = distinct _ _ refl

abbrev Fetchable : Memory → Type 0
Fetchable =
    AreLists memory_redis alive memory_lock 3 some [] (λ t. t) config first_id first_ok comp_ok
      buff_ok refl first-ne-comp fresh

abbrev fetch_first : Memory → Outcome (FetchRes Bytes) × Memory
fetch_first = ta_fetch_txn_with_uuid memory_env true 3 some [] config first_id fresh

waiting : Fetchable waiting_world
waiting = record {
  taken = refl;
  buffer_list = refl;
  buffer_uuids = omega arith;
  complete_list = refl;
  complete_uuids = tt;
}

sent : Fetchable sent_world
sent = record {
  taken = refl;
  buffer_list = refl;
  buffer_uuids = tt;
  complete_list = refl;
  complete_uuids = omega arith;
}

none_left : Fetchable empty_memory
none_left = record {
  taken = refl;
  buffer_list = refl;
  buffer_uuids = tt;
  complete_list = refl;
  complete_uuids = tt;
}

ta_fetch_txn_with_uuid_unsent_example :
    ((fetch_first waiting_world).0 ≡ done (record fresh { status = mam_bufreq_unsent }))
    × SameView memory_redis waiting_world (fetch_first waiting_world).1
ta_fetch_txn_with_uuid_unsent_example =
    Core.Buffer.Fetch.ta_fetch_txn_with_uuid_unsent memory_redis alive memory_lock 3 some []
      (λ t. t) config first_id first_ok comp_ok buff_ok refl first-ne-comp fresh waiting_world
      waiting refl

ta_fetch_mam_with_uuid-held_example :
    (ta_fetch_mam_with_uuid memory_env true 3 some [] config first_id fresh sent_world).1.held ≡ 0
ta_fetch_mam_with_uuid-held_example =
    Core.Buffer.Locks.ta_fetch_mam_with_uuid-held memory_lock true 3 some [] config first_id fresh
      sent_world

ta_fetch_txn_with_uuid-held_example : (fetch_first waiting_world).1.held ≡ 0
ta_fetch_txn_with_uuid-held_example =
    Core.Buffer.Locks.ta_fetch_txn_with_uuid-held memory_lock true 3 some [] config first_id fresh
      waiting_world (record fresh { status = mam_bufreq_unsent })
      ta_fetch_txn_with_uuid_unsent_example.0

-- The complete list holds an entry that is longer than a UUID.
abbrev broken_world : Memory
broken_world = record empty_memory {
  lists = update empty_memory.lists (codes "comp") (replicate 40 b'x' ∷ []);
}

ta_fetch_txn_with_uuid_leaks_example :
    ((fetch_first broken_world).0 ≡ fail cache_failed_response)
    × ((fetch_first broken_world).1.held ≡ 1)
ta_fetch_txn_with_uuid_leaks_example =
    Core.Buffer.Locks.ta_fetch_txn_with_uuid_leaks memory_lock true 3 some [] config first_id fresh
      broken_world cache_failed_response refl in_buff in_comp
  where
    in_buff :
        (cache_list_exist memory_env true []
          (some (codes "buff"))
          (some first_id)
          36
          (memory_env.tryrdlock broken_world).1).0
        ≡ done false
    in_buff = unfold cache_list_exist in refl

    in_comp :
        (cache_list_exist memory_env true []
          (some (codes "comp"))
          (some first_id)
          36
          (cache_list_exist memory_env true []
            (some (codes "buff"))
            (some first_id)
            36
            (memory_env.tryrdlock broken_world).1).1).0
        ≡ fail cache_failed_response
    in_comp = unfold cache_list_exist in refl

abbrev key : Bytes
key = codes "key"

key_ok : NulFree key
key_ok = omega arith

abbrev pushed_txn : Memory
pushed_txn =
    (cache_list_push memory_env true (some key) (length key) (some txn) (length txn) empty_memory).1

cache_list_pop-push_example :
    ((cache_list_pop memory_env true (some key) pushed_txn).0 ≡ done txn)
    × SameView memory_redis empty_memory (cache_list_pop memory_env true (some key) pushed_txn).1
cache_list_pop-push_example =
    Cache.Lists.cache_list_pop-push memory_redis alive key txn key_ok empty_memory refl
      (omega arith)

cache_list_exist-eq_example :
    (w' : Memory) × (cache_list_exist memory_env true []
        (some (codes "comp"))
        (some first_id)
        36
        sent_world
      ≡ (done true, w'))
    × SameView memory_redis sent_world w'
cache_list_exist-eq_example =
    Cache.Exist.cache_list_exist-eq memory_redis alive (codes "comp") first_id comp_ok [] sent_world
      refl (omega arith)

-- The key has a value.
abbrev full_world : Memory
full_world = record empty_memory { strs = update empty_memory.strs key (some (codes "old")) }

trytes_to_bytes-bytes_to_trytes_example :
    trytes_to_bytes 3 (bytes_to_trytes (255 ∷ 0 ∷ [])) 4 (7 ∷ 7 ∷ []) ≡ some (255 ∷ 0 ∷ [])
trytes_to_bytes-bytes_to_trytes_example =
    Utils.TryteByteConv.RoundTrip.trytes_to_bytes-bytes_to_trytes (255 ∷ 0 ∷ []) (7 ∷ 7 ∷ []) 3
      (omega arith) (omega arith) refl (omega arith)

trytes_to_bytes_diverges_example : trytes_to_bytes 5 (codes "AB") 65536 (codes "x") ≡ none
trytes_to_bytes_diverges_example =
    Utils.TryteByteConv.RoundTrip.trytes_to_bytes_diverges 5 (codes "AB") 65536 (codes "x")
      (omega arith)

code-eq_iff_example : (code Status.oom ≡ code Status.null) ↔ (Status.oom ≡ Status.null)
code-eq_iff_example = Errors.Codes.code-eq_iff Status.oom Status.null

message-eq_iff_example :
    (ta_error_to_string Status.oom ≡ ta_error_to_string Status.null) ↔ (Status.oom ≡ Status.null)
message-eq_iff_example = Errors.Codes.message-eq_iff Status.oom Status.null

fill_nines-padded_example :
    (b : Bytes) × (fill_nines (some (replicate 28 1)) (some (codes "TAG")) 27 ≡ returns ok (some b))
    × (c_str b ≡ codes "TAG" ++ replicate 24 b'9')
    × (length (c_str b) ≡ 27)
    × (length b ≡ 28)
fill_nines-padded_example =
    Utils.FillNines.fill_nines-padded (replicate 28 1) (codes "TAG") (omega arith) (omega arith)
      (omega arith)

ta_fetch_txn_with_uuid_drops_head_example :
    (mem_bytes first_id ((fetch_first sent_world).1.lists (codes "comp")) ≡ true)
    × ((fetch_first sent_world).1.lists first_id ≡ [])
    × (mem_bytes second_id ((fetch_first sent_world).1.lists (codes "comp")) ≡ false)
    × ((fetch_first sent_world).1.lists second_id ≡ txn ∷ [])
ta_fetch_txn_with_uuid_drops_head_example =
    Core.Buffer.Fetch.ta_fetch_txn_with_uuid_drops_head memory_redis alive memory_lock 3 some []
      (λ t. t) config first_id first_ok comp_ok buff_ok refl first-ne-comp fresh sent_world txn
      second_id [] (first_id ∷ []) sent refl refl refl refl (distinct _ _ refl) (distinct _ _ refl)
      refl refl ((omega arith, omega arith, refl), tt)

cache_list_at-push_example :
    ((cache_list_push memory_env true (some key) 3 (some txn) 3 empty_memory).0 ≡ done tt)
    × (((cache_list_at memory_env true (some key) 0 3 pushed_txn).0 ≡ done txn) ↔ NulsAtEnd txn)
    × ((i : ℕ) → get_elem? (pushed_txn.lists key) (suc i) ≡ none)
cache_list_at-push_example =
    Cache.Lists.cache_list_at-push memory_redis alive key txn key_ok empty_memory refl

ta_fetch_txn_with_uuid_absent_example :
    ((fetch_first empty_memory).0 ≡ done fresh)
    × SameView memory_redis empty_memory (fetch_first empty_memory).1
ta_fetch_txn_with_uuid_absent_example =
    Core.Buffer.Fetch.ta_fetch_txn_with_uuid_absent memory_redis alive memory_lock 3 some []
      (λ t. t) config first_id first_ok comp_ok buff_ok refl first-ne-comp fresh empty_memory
      none_left refl refl

hash_algo_djb2-eq-horner_example :
    hash_algo_djb2 (codes "ab") ≡ ((5381 * 33 + 97) * 33 + 98) % 2 ^ 32
hash_algo_djb2-eq-horner_example = Utils.Djb2.hash_algo_djb2-eq-horner (codes "ab") (omega arith)
