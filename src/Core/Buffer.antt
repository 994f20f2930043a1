-- ===== src/Core/Buffer.antt =====
-- accelerator/core/core.c: push_txn_to_buffer, ta_fetch_txn_with_uuid and ta_fetch_mam_with_uuid, the
-- client's side of the request buffers that are kept in the cache.
pub mod Locks
pub mod Push
pub mod Fetch
use tangle_accelerator.Base.{
  ℕ, zero, suc, ◌+◌, Bool, true, false, Option, none, some, Bytes, List, [], ◌∷◌, ◌++◌, length,
}
use tangle_accelerator.Errors.{Status, null, cache_lock_failure}
use tangle_accelerator.Exec.{Outcome, done, fail, Exec, ◌>>=◌, ◌>>◌, continue, pure, raise}
use tangle_accelerator.Env.{Env}
use tangle_accelerator.Cache.{
  cache_del, cache_get, cache_list_push, cache_list_at, cache_list_size, cache_list_exist,
  cache_list_pop,
}

-- UUID_STR_LEN - 1 of libuuid
abbrev pub uuid_len : ℕ
uuid_len = 36

-- The part of ta_cache_t (accelerator/config.h) that these functions read.
pub record TaCache : Type 0 where
  pub buffer_list_name : Bytes
  pub complete_list_name : Bytes
  pub mam_buffer_list_name : Bytes
  pub mam_complete_list_name : Bytes
  pub timeout : ℕ

-- accelerator/core/response/ta_fetch_buffered_request_status.h
pub data BufferedStatus : Type 0 where
  mam_bufreq_unsent mam_bufreq_not_exist mam_bufreq_sent : BufferedStatus

-- ta_fetch_buffered_request_status_res_t over the type of transactions
pub record FetchRes (T : Type 0) : Type 0 where
  pub status : BufferedStatus
  pub bundle : List T
  pub mam_result : Option Bytes

-- `state` is the cache's static variable, `txn_size` NUM_FLEX_TRITS_SERIALIZED_TRANSACTION of the IOTA
-- library, and `stack` what the uninitialised array of redis_list_exist holds.
module _ (e : Env) (state : Bool) (txn_size : ℕ) where
  -- The loop of push_txn_to_buffer over the transactions.
  unfoldable pub push_each : Bytes → List Bytes → Exec e.World Unit
  push_each uuid [] = pure tt
  push_each uuid (txn ∷ txns) =
      cache_list_push e state (some uuid) uuid_len (some txn) txn_size >> push_each uuid txns

  -- `if (!uuid[0])`: then nothing is pushed, and the status stays SC_OK.
  abbrev pub push_under : TaCache → List Bytes → Bytes → Exec e.World Unit
  push_under cache raw [] = pure tt
  push_under cache raw (zero ∷ uuid) = pure tt
  push_under cache raw (suc c ∷ uuid) =
      let name = cache.buffer_list_name in
      push_each (suc c ∷ uuid) raw
      >> cache_list_push e state (some name) (length name) (some (suc c ∷ uuid)) uuid_len

  -- The flag says whether `uuid` points to memory. The text is written also where the push fails.
  unfoldable pub push_txn_to_buffer :
      TaCache → List Bytes → Bool → e.World → Outcome (Unit {0}) × Bytes × e.World
  push_txn_to_buffer cache raw false w = (fail null, [], w)
  push_txn_to_buffer cache raw true w =
      let (uuid, w1) = e.new_uuid w in
      let (ret, w2) = push_under cache raw uuid w1 in (ret, uuid, w2)

  -- A failure to unlock is only logged.
  abbrev pub release : {A : Type 0} → Outcome A × e.World → Outcome A × e.World
  release (r, w) = (r, (e.unlock w).1)

  module _ {T : Type 0} (deserialize : Bytes → Option T) (stack : Bytes) where
    -- bundle_transactions_add fails on a transaction that could not be made.
    abbrev pub add : List T → Option T → Exec e.World (List T)
    add bundle none = raise null
    add bundle (some txn) = pure (bundle ++ txn ∷ [])

    -- The loop over the stored transactions from `i` on.
    unfoldable pub read_txns : Bytes → ℕ → ℕ → List T → Exec e.World (List T)
    read_txns uuid zero i bundle = pure bundle
    read_txns uuid (suc rounds) i bundle = do
      raw ← cache_list_at e state (some uuid) i txn_size
      bundle' ← add bundle (deserialize raw)
      read_txns uuid rounds (i + 1) bundle'

    -- From the unlock on, with `len` transactions stored.
    pub take_sent : TaCache → Bytes → ℕ → FetchRes T → Exec e.World (FetchRes T)
    take_sent cache uuid len res = do
      bundle ← read_txns uuid len 0 res.bundle
      cache_del e state (some uuid)
      cache_list_pop e state (some cache.complete_list_name)
      pure (record res { status = mam_bufreq_sent; bundle = bundle })

    -- With the size of the stored bundle; an error leaves with the lock held.
    abbrev pub sized_sent : TaCache → Bytes → FetchRes T → Outcome ℕ → Exec e.World (FetchRes T)
    sized_sent cache uuid res (fail s) w = (fail s, w)
    sized_sent cache uuid res (done len) w = take_sent cache uuid len res (e.unlock w).1

    -- With the answer about the complete list; an error leaves with the lock held.
    abbrev pub after_complete :
        TaCache → Bytes → FetchRes T → Outcome Bool → Exec e.World (FetchRes T)
    after_complete cache uuid res (fail s) w = (fail s, w)
    after_complete cache uuid res (done false) w = release (done res, w)
    after_complete cache uuid res (done true) w =
        let (len, w') = cache_list_size e state (some uuid) w in sized_sent cache uuid res len w'

    -- With the answer about the buffer list.
    abbrev pub after_buffer :
        TaCache → Bytes → FetchRes T → Outcome Bool → Exec e.World (FetchRes T)
    after_buffer cache uuid res (fail s) w = release (fail s, w)
    after_buffer cache uuid res (done true) w =
        release (done (record res { status = mam_bufreq_unsent }), w)
    after_buffer cache uuid res (done false) w =
        let (sent, w') =
          cache_list_exist e state stack (some cache.complete_list_name) (some uuid) uuid_len w in
        after_complete cache uuid res sent w'

    abbrev pub fetch_locked :
        TaCache → Bytes → FetchRes T → Bool × e.World → Outcome (FetchRes T) × e.World
    fetch_locked cache uuid res (true, w) = (fail cache_lock_failure, w)
    fetch_locked cache uuid res (false, w) =
        let (unsent, w') =
          cache_list_exist e state stack (some cache.buffer_list_name) (some uuid) uuid_len w in
        after_buffer cache uuid res unsent w'

    unfoldable pub ta_fetch_txn_with_uuid : TaCache → Bytes → FetchRes T → Exec e.World (FetchRes T)
    unfolding take_sent
    ta_fetch_txn_with_uuid cache uuid res w = fetch_locked cache uuid res (e.tryrdlock w)

    -- The same for a MAM request, whose result is one string under its UUID.
    pub take_mam : TaCache → Bytes → FetchRes T → Exec e.World (FetchRes T)
    take_mam cache uuid res = do
      result ← cache_get e state (some uuid)
      cache_del e state (some uuid)
      cache_list_pop e state (some cache.mam_complete_list_name)
      pure (record res { status = mam_bufreq_sent; mam_result = some result })

    abbrev pub after_mam_complete :
        TaCache → Bytes → FetchRes T → Outcome Bool → Exec e.World (FetchRes T)
    after_mam_complete cache uuid res (fail s) w = release (fail s, w)
    after_mam_complete cache uuid res (done false) w = release (done res, w)
    after_mam_complete cache uuid res (done true) w = take_mam cache uuid res (e.unlock w).1

    abbrev pub after_mam_buffer :
        TaCache → Bytes → FetchRes T → Outcome Bool → Exec e.World (FetchRes T)
    after_mam_buffer cache uuid res (fail s) w = release (fail s, w)
    after_mam_buffer cache uuid res (done true) w =
        release (done (record res { status = mam_bufreq_unsent }), w)
    after_mam_buffer cache uuid res (done false) w =
        let (sent, w') =
          cache_list_exist e state stack (some cache.mam_complete_list_name) (some uuid) uuid_len
            w in
        after_mam_complete cache uuid res sent w'

    abbrev pub fetch_mam_locked :
        TaCache → Bytes → FetchRes T → Bool × e.World → Outcome (FetchRes T) × e.World
    fetch_mam_locked cache uuid res (true, w) = (fail cache_lock_failure, w)
    fetch_mam_locked cache uuid res (false, w) =
        let (unsent, w') =
          cache_list_exist e state stack (some cache.mam_buffer_list_name) (some uuid) uuid_len w in
        after_mam_buffer cache uuid res unsent w'

    unfoldable pub ta_fetch_mam_with_uuid : TaCache → Bytes → FetchRes T → Exec e.World (FetchRes T)
    unfolding take_mam
    ta_fetch_mam_with_uuid cache uuid res w = fetch_mam_locked cache uuid res (e.tryrdlock w)
