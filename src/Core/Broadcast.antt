-- ===== src/Core/Broadcast.antt =====
-- accelerator/core/periodical_task.c: broadcast_buffered_txn, broadcast_buffered_send_mam_request and
-- health_track, the thread that sends what the clients buffered.
pub mod Health
pub mod Move
pub mod Rounds
pub mod Send
use tangle_accelerator.Base.{
  ℕ, zero, suc, ◌+◌, Bool, true, false, Option, none, some, Bytes, List, [], ◌∷◌, ◌++◌, ◌==◌, ltb,
  length, drop, replicate, ◌-◌, map, c_str, if◌then◌else◌,
}
use tangle_accelerator.Errors.{
  Status, ok, cclient_failed_response, cache_lock_failure, core_node_unsync,
}
use tangle_accelerator.Exec.{Outcome, done, fail, Exec, ◌>>=◌, ◌>>◌, continue, pure, raise}
use tangle_accelerator.Env.{Env, Cjson}
use tangle_accelerator.Env.Iota.{Iota}
use tangle_accelerator.Cache.{
  cache_del, cache_get, cache_set, cache_list_push, cache_list_at, cache_list_peek, cache_list_size,
  cache_list_pop,
}
use tangle_accelerator.Core.Buffer.{TaCache, uuid_len}
use tangle_accelerator.Core.Node.{Service, ta_get_node_status, ta_update_full_node_connection}
use tangle_accelerator.Core.Attach.{SendConfig, ta_send_trytes}

-- The array `uuid` behind cache_list_pop, which writes the text and a NUL over it.
abbrev pub written_over : Bytes → Bytes → Bytes
written_over text uuid = text ++ 0 ∷ drop (length text + 1) uuid

-- What a loop returns when the fuel, a bound on its rounds, is used up is no value of the program.
pub data Loop (A : Type 0) : Type 0 where
  ended : A → Loop A
  running : Loop A

module _ (e : Env) (state : Bool) where
  -- `if (pthread_rwlock_trywrlock(core->cache.rwlock))`
  abbrev pub lock : Exec e.World Unit
  lock w =
      let (failed, w') = e.trywrlock w in (if failed then fail cache_lock_failure else done tt, w')

  abbrev pub release : Exec e.World Unit
  release w =
      let (failed, w') = e.unlock w in (if failed then fail cache_lock_failure else done tt, w')

  -- From the write lock on, in both functions: the UUID goes from one list to the other.
  unfoldable pub move_uuid : Bytes → Bytes → Bytes → Exec e.World Unit
  move_uuid from to uuid = do
    text ← cache_list_pop e state (some from)
    cache_list_push e state (some to) (length to) (some (written_over text uuid)) uuid_len
    release

  -- The array of `size` bytes, all 0 at first, that an entry was read into.
  abbrev pub zeroed : ℕ → Bytes → Bytes
  zeroed size raw = raw ++ replicate (size - length raw) 0

  -- The loop over the stored transactions from `i` on.
  unfoldable pub read_raw : ℕ → Bytes → ℕ → ℕ → Exec e.World (List Bytes)
  read_raw size uuid zero i = pure []
  read_raw size uuid (suc rounds) i = do
    raw ← cache_list_at e state (some uuid) i size
    more ← read_raw size uuid rounds (i + 1)
    pure (zeroed size raw ∷ more)

  -- The loop that stores the sent transactions.
  unfoldable pub store_each : ℕ → Bytes → List Bytes → Exec e.World Unit
  store_each size uuid [] = pure tt
  store_each size uuid (txn ∷ txns) =
      cache_list_push e state (some uuid) uuid_len (some txn) size >> store_each size uuid txns

  module _ (size : ℕ) (i : Iota e.World) (conf : SendConfig) where
    abbrev pub told : Option (List Bytes) → Outcome (List Bytes)
    told none = fail cclient_failed_response
    told (some trytes) = done trytes

    abbrev pub fetch_trytes : List Bytes → Exec e.World (List Bytes)
    fetch_trytes sent w =
        let (r, w') = i.get_trytes (map (λ t. i.hash (i.of_trits t)) sent) w in (told r, w')

    -- A round for the UUID at the head of the buffer list.
    unfoldable pub send_txn : TaCache → Bytes → Exec e.World Unit
    unfolding read_raw store_each move_uuid
    send_txn cache uuid = do
      len ← cache_list_size e state (some uuid)
      raw ← read_raw size uuid len 0
      sent ← ta_send_trytes i conf raw
      trytes ← fetch_trytes sent
      cache_del e state (some uuid)
      store_each size uuid trytes
      lock
      move_uuid cache.buffer_list_name cache.complete_list_name uuid

    -- A round: `false` where the buffer is empty.
    abbrev pub unless_empty : Bytes → ℕ → (Bytes → Exec e.World Unit) → Exec e.World Bool
    unless_empty name zero send = pure false
    unless_empty name (suc n) send = do
      uuid ← cache_list_peek e state (some name) (uuid_len + 1)
      send (c_str uuid)
      pure true

    unfoldable pub txn_round : TaCache → Exec e.World Bool
    unfolding send_txn
    txn_round cache = do
      len ← cache_list_size e state (some cache.buffer_list_name)
      unless_empty cache.buffer_list_name len (send_txn cache)

    abbrev pub after_round :
        Outcome Bool × e.World
        → Loop (Outcome (Unit {0})) × e.World
        → Loop (Outcome (Unit {0})) × e.World
    after_round (fail s, w) rest = (ended (fail s), w)
    after_round (done false, w) rest = (ended (done tt), w)
    after_round (done true, w) rest = rest

    -- The loop around either round. `running` stands for a thread that has not come back after `fuel` rounds.
    unfoldable pub rounds : ℕ → Exec e.World Bool → e.World → Loop (Outcome (Unit {0})) × e.World
    rounds zero round w = (running, w)
    rounds (suc fuel) round w =
        let rest = rounds fuel round (round w).1 in after_round (round w) rest

    unfoldable pub broadcast_buffered_txn :
        ℕ → TaCache → e.World → Loop (Outcome (Unit {0})) × e.World
    unfolding txn_round rounds
    broadcast_buffered_txn fuel cache w = rounds fuel (txn_round cache) w

    -- send_mam_message_req_deserialize, ta_send_mam_message and send_mam_message_res_serialize in one: the
    -- request's text to the response's.
    module _ (send_mam : Bytes → Exec e.World Bytes) where
      unfoldable pub send_mam_request : TaCache → Bytes → Exec e.World Unit
      unfolding move_uuid
      send_mam_request cache uuid = do
        json ← cache_get e state (some uuid)
        answer ← send_mam json
        lock
        cache_del e state (some uuid)
        cache_set e state (some uuid) uuid_len (some answer) (length answer) cache.timeout
        move_uuid cache.mam_buffer_list_name cache.mam_complete_list_name uuid

      unfoldable pub mam_round : TaCache → Exec e.World Bool
      unfolding send_mam_request
      mam_round cache = do
        len ← cache_list_size e state (some cache.mam_buffer_list_name)
        unless_empty cache.mam_buffer_list_name len (send_mam_request cache)

      unfoldable pub broadcast_buffered_send_mam_request :
          ℕ → TaCache → e.World → Loop (Outcome (Unit {0})) × e.World
      unfolding mam_round rounds
      broadcast_buffered_send_mam_request fuel cache w = rounds fuel (mam_round cache) w

  -- One eviction of health_track, with the lock held: the head of the complete list is popped and the
  -- bundle under the UUID in `uuid` deleted, whether or not the pop wrote there.
  abbrev pub popped_over : Bytes → Outcome Bytes → Bytes
  popped_over uuid (done text) = written_over text uuid
  popped_over uuid (fail s) = uuid

  abbrev pub evict_locked : TaCache → Bytes → e.World → Bytes × e.World
  evict_locked cache uuid w =
      let (r, w1) = cache_list_pop e state (some cache.complete_list_name) w in
      let (r', w2) = cache_del e state (some (c_str (popped_over uuid r))) w1 in
      (popped_over uuid r, (e.unlock w2).1)

  -- The eviction loop; `space` is cache_occupied_space.
  unfoldable pub evict :
      ℕ → (e.World → ℕ × e.World) → ℕ → TaCache → Bytes → e.World → Loop Bytes × e.World
  evict zero space capacity cache uuid w = (running, w)
  evict (suc fuel) space capacity cache uuid w =
      let (occupied, w1) = space w in
      let (failed, w2) = e.trywrlock w1 in
      let (uuid', w3) = evict_locked cache uuid w2 in
      let rest = evict fuel space capacity cache uuid' w3 in
      if ltb capacity occupied then if failed then (ended uuid, w2) else rest else (ended uuid, w1)
