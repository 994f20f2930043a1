-- ===== src/Cache/Steps.antt =====
-- utils/cache/backend_redis.c, while the server answers: one equation for each public function, by
-- which the callers' proofs step. Keys are C strings, and sizes are those of the whole strings.
use tangle_accelerator.Base.{
  ℕ, ◌≤◌, true, none, some, Bytes, [], length, take-length, get_elem?, NulFree, c_str_lem,
  strncpy-length, ◌≡◌, refl, le→leb,
}
use tangle_accelerator.Errors.{Status, cache_failed_response}
use tangle_accelerator.Exec.{done, fail}
use tangle_accelerator.Env.{Command, Env, del, get, set_nx, lpush, lindex, llen, lpop}
use tangle_accelerator.Env.Laws.{RedisLaws, exists}
use tangle_accelerator.Cache.{
  cache_del, cache_get, cache_set, cache_list_push, cache_list_at, cache_list_peek, cache_list_size,
  cache_list_pop, redis_list_at, expiry,
}

-- The server refuses nothing.
abbrev pub IsAlive : {e : Env} → RedisLaws e → Type 0
IsAlive {e} r = (c : Command) (w : e.World) → r.answers c w ≡ true

module _ {e : Env} (r : RedisLaws e) (alive : IsAlive r) where
  open r use {strings, items}

  -- The world after a command.
  abbrev pub after : Command → e.World → e.World
  after c w = (e.redis c w).1

  module _ (k : Bytes) (w : e.World) where
    pub push-eq :
        (v : Bytes)
        → strings w k ≡ none
        → cache_list_push e true (some k) (length k) (some v) (length v) w
          ≡ (done tt, after (lpush k v) w)
    unfolding cache_list_push
    push-eq v s = rw (take-length k, take-length v) (rw (r.lpush_reply k v w (alive _ _) s))

    pub push_sized-eq :
        (v : Bytes) (key_size value_size : ℕ)
        → key_size ≡ length k
        → value_size ≡ length v
        → strings w k ≡ none
        → cache_list_push e true (some k) key_size (some v) value_size w
          ≡ (done tt, after (lpush k v) w)
    push_sized-eq v key_size value_size hk hv s = rw (hk, hv) (push-eq v s)

  module _ (k : Bytes) (n : NulFree k) (w : e.World) where
    pub size-eq :
        strings w k ≡ none
        → cache_list_size e true (some k) w ≡ (done (length (items w k)), after (llen k) w)
    unfolding cache_list_size
    size-eq s = rw (c_str_lem k n) (rw (r.llen_reply k w (alive _ _) s))

    pub list_at-eq :
        (i len : ℕ) (v : Bytes)
        → strings w k ≡ none
        → get_elem? (items w k) i ≡ some v
        → NulFree v
        → length v ≤ len
        → redis_list_at e (some k) i len w ≡ (done v, after (lindex k i) w)
    unfolding redis_list_at
    list_at-eq i len v s h nv le = rw (c_str_lem k n) (
        rw (r.lindex_reply k i w (alive _ _) s)
          (rw h (rw (le→leb _ _ le) (rw (strncpy-length v nv)))))

    pub at-eq :
        (i len : ℕ) (v : Bytes)
        → strings w k ≡ none
        → get_elem? (items w k) i ≡ some v
        → NulFree v
        → length v ≤ len
        → cache_list_at e true (some k) i len w ≡ (done v, after (lindex k i) w)
    unfolding cache_list_at
    at-eq i len v s h nv le = list_at-eq i len v s h nv le

    pub peek-eq :
        (len : ℕ) (v : Bytes)
        → strings w k ≡ none
        → get_elem? (items w k) 0 ≡ some v
        → NulFree v
        → length v ≤ len
        → cache_list_peek e true (some k) len w ≡ (done v, after (lindex k 0) w)
    unfolding cache_list_peek
    peek-eq len v s h nv le = rw (c_str_lem k n) (
        rw (r.lindex_reply k 0 w (alive _ _) s)
          (rw h (rw (le→leb _ _ le) (rw (strncpy-length v nv)))))

    pub pop-eq :
        (v : Bytes)
        → strings w k ≡ none
        → get_elem? (items w k) 0 ≡ some v
        → NulFree v
        → cache_list_pop e true (some k) w ≡ (done v, after (lpop k) w)
    unfolding cache_list_pop
    pop-eq v s h nv =
        rw (c_str_lem k n) (rw (r.lpop_reply k w (alive _ _) s) (rw h (rw (strncpy-length v nv))))

    pub del-eq :
        exists (strings w k) (items w k) ≡ 1
        → cache_del e true (some k) w ≡ (done tt, after (del k) w)
    unfolding cache_del
    del-eq h = rw (c_str_lem k n) (rw (r.del_reply k w (alive _ _)) (rw h))

    pub get-eq :
        (v : Bytes)
        → items w k ≡ []
        → strings w k ≡ some v
        → NulFree v
        → cache_get e true (some k) w ≡ (done v, after (get k) w)
    unfolding cache_get
    get-eq v h s nv =
        rw (c_str_lem k n) (rw (r.get_reply k w (alive _ _) h) (rw s (rw (c_str_lem v nv))))

    pub get_missing :
        items w k ≡ []
        → strings w k ≡ none
        → (s : Status) × (cache_get e true (some k) w ≡ (fail s, after (get k) w))
    unfolding cache_get
    get_missing h s =
        (cache_failed_response, rw (c_str_lem k n) (rw (r.get_reply k w (alive _ _) h) (rw s refl)))

    pub set-eq :
        (v : Bytes) (timeout : ℕ)
        → cache_set e true (some k) (length k) (some v) (length v) timeout w
          ≡ (done tt, after (set_nx k v (expiry timeout)) w)
    unfolding cache_set
    set-eq v timeout = rw (take-length k, take-length v)
