-- ===== src/Cache.antt =====
-- utils/cache/backend_redis.c: the cache as commands to a redis server.
pub mod Steps
pub mod Space
pub mod Exist
pub mod Held
pub mod Lists
use tangle_accelerator.Base.{
  ℕ, zero, suc, ◌+◌, Bool, true, false, ◌||◌, Option, none, some, Bytes, ◌∷◌, ◌++◌, leb, ◌==◌,
  if◌then◌else◌, length, take, drop, c_str, strncpy, mem_eq,
}
use tangle_accelerator.Errors.{Status, ok, null, cache_failed_response, cache_off}
use tangle_accelerator.Env.{
  Reply, Env, del, get, set_nx, lpush, lindex, llen, lpop, string, integer, error,
}
use tangle_accelerator.Exec.{Outcome, done, fail, Exec}

-- `reply->integer`, which is 0 in a reply of another type
abbrev pub integer_of : Reply → ℕ
integer_of (integer n) = n
integer_of _ = 0

-- `*res = strdup(reply->str)`
abbrev pub got : Reply → Outcome Bytes
got (string s) = done (c_str s)
got _ = fail cache_failed_response

abbrev pub pushed : Reply → Outcome (Unit {0})
pushed error = fail cache_failed_response
pushed _ = done tt

-- What is written to `res` in front of the terminating NUL, if the reply fits in.
abbrev pub fetched : Reply → ℕ → Outcome Bytes
fetched (string s) res_len =
    if leb (length s) res_len then done (strncpy (length s) s) else fail cache_failed_response
fetched _ res_len = fail cache_failed_response

-- LPOP does not look at the room in `res`.
abbrev pub popped : Reply → Outcome Bytes
popped (string s) = done (strncpy (length s) s)
popped _ = fail cache_failed_response

-- The lengths are taken to fit into an int, as the source says.
abbrev pub sized : Reply → Outcome ℕ
sized error = fail cache_failed_response
sized r = done (integer_of r)

-- One round of the loop of redis_list_exist: `buf` is the array `res` with what earlier rounds left
-- there, `ret` and `exist` are the variables.
abbrev pub compare_item :
    Bytes
    → ℕ
    → Outcome Bytes
    → Bytes
    → Status
    → Bool
    → record { buf : Bytes; ret : Status; exist : Bool }
compare_item value value_len (done s) buf ret exist =
    let now = s ++ 0 ∷ drop (length s + 1) buf in
    record { buf = now; ret = ret; exist = exist || mem_eq value_len value now }
compare_item value value_len (fail _) buf ret exist = record {
  buf = buf;
  ret = cache_failed_response;
  exist = exist;
}

abbrev pub exist_result : Status → Bool → Outcome Bool
exist_result ok exist = done exist
exist_result ret exist = fail ret

abbrev pub known_size : Outcome ℕ → ℕ × Status
known_size (done len) = (len, ok)
known_size (fail _) = (0, cache_failed_response)

-- `EX timeout`; a timeout that is not positive is 0 here.
abbrev pub expiry : ℕ → Option ℕ
expiry timeout = if timeout == 0 then none else some timeout

-- Pointer arguments are an `Option`, `none` for NULL; the connection is not NULL.
module _ (e : Env) where
  redis_del : Option Bytes → Exec e.World Unit
  redis_del none w = (fail null, w)
  redis_del (some key) w =
      let (reply, w') = e.redis (del (c_str key)) w in
      (if integer_of reply == 0 then fail cache_failed_response else done tt, w')

  redis_get : Option Bytes → Exec e.World Bytes
  redis_get none w = (fail null, w)
  redis_get (some key) w = let (reply, w') = e.redis (get (c_str key)) w in (got reply, w')

  -- The reply does not change the status.
  redis_set : Option Bytes → ℕ → Option Bytes → ℕ → ℕ → Exec e.World Unit
  redis_set none key_size value value_size timeout w = (fail null, w)
  redis_set (some key) key_size none value_size timeout w = (fail null, w)
  redis_set (some key) key_size (some value) value_size timeout w =
      let (reply, w') =
        e.redis (set_nx (take key_size key) (take value_size value) (expiry timeout)) w in
      (done tt, w')

  redis_list_push : Option Bytes → ℕ → Option Bytes → ℕ → Exec e.World Unit
  redis_list_push none key_size value value_size w = (fail null, w)
  redis_list_push (some key) key_size none value_size w = (fail null, w)
  redis_list_push (some key) key_size (some value) value_size w =
      let (reply, w') = e.redis (lpush (take key_size key) (take value_size value)) w in
      (pushed reply, w')

  unfoldable pub redis_list_at : Option Bytes → ℕ → ℕ → Exec e.World Bytes
  redis_list_at none index res_len w = (fail null, w)
  redis_list_at (some key) index res_len w =
      let (reply, w') = e.redis (lindex (c_str key) index) w in (fetched reply res_len, w')

  redis_list_peek : Option Bytes → ℕ → Exec e.World Bytes
  redis_list_peek none res_len w = (fail null, w)
  redis_list_peek (some key) res_len w =
      let (reply, w') = e.redis (lindex (c_str key) 0) w in (fetched reply res_len, w')

  redis_list_size : Option Bytes → Exec e.World ℕ
  redis_list_size none w = (fail null, w)
  redis_list_size (some key) w = let (reply, w') = e.redis (llen (c_str key)) w in (sized reply, w')

  -- The rounds from `i` on; `rounds` are left.
  unfoldable pub exist_loop :
      Bytes → Bytes → ℕ → ℕ → ℕ → Bytes → Status → Bool → e.World → Status × Bool × e.World
  exist_loop key value value_len zero i buf ret exist w = (ret, exist, w)
  exist_loop key value value_len (suc rounds) i buf ret exist w =
      let (item, w') = redis_list_at (some key) i value_len w in
      let next = compare_item value value_len item buf ret exist in
      exist_loop key value value_len rounds (i + 1) next.buf next.ret next.exist w'

  -- `stack` is what the uninitialised array `res` holds.
  redis_list_exist : Bytes → Option Bytes → Option Bytes → ℕ → Exec e.World Bool
  redis_list_exist stack none value value_len w = (fail null, w)
  redis_list_exist stack (some key) none value_len w = (fail null, w)
  redis_list_exist stack (some key) (some value) value_len w =
      let (size, w1) = redis_list_size (some key) w in
      let (len, ret) = known_size size in
      let (ret', exist, w2) = exist_loop key value value_len len 0 stack ret false w1 in
      (exist_result ret' exist, w2)

  redis_list_pop : Option Bytes → Exec e.World Bytes
  redis_list_pop none w = (fail null, w)
  redis_list_pop (some key) w = let (reply, w') = e.redis (lpop (c_str key)) w in (popped reply, w')

  -- `if (!state) return SC_CACHE_OFF;`
  abbrev when_on : {A : Type 0} → Bool → Exec e.World A → Exec e.World A
  when_on true m w = m w
  when_on false m w = (fail cache_off, w)

  -- The public functions. `state` is the static variable that cache_init sets.
  module _ (state : Bool) where
    unfoldable pub cache_del : Option Bytes → Exec e.World Unit
    unfolding redis_del
    cache_del key = when_on state (redis_del key)

    unfoldable pub cache_get : Option Bytes → Exec e.World Bytes
    unfolding redis_get
    cache_get key = when_on state (redis_get key)

    unfoldable pub cache_set : Option Bytes → ℕ → Option Bytes → ℕ → ℕ → Exec e.World Unit
    unfolding redis_set
    cache_set key key_size value value_size timeout =
        when_on state (redis_set key key_size value value_size timeout)

    unfoldable pub cache_list_push : Option Bytes → ℕ → Option Bytes → ℕ → Exec e.World Unit
    unfolding redis_list_push
    cache_list_push key key_size value value_size =
        when_on state (redis_list_push key key_size value value_size)

    unfoldable pub cache_list_at : Option Bytes → ℕ → ℕ → Exec e.World Bytes
    unfolding redis_list_at
    cache_list_at key index res_len = when_on state (redis_list_at key index res_len)

    unfoldable pub cache_list_peek : Option Bytes → ℕ → Exec e.World Bytes
    unfolding redis_list_peek
    cache_list_peek key res_len = when_on state (redis_list_peek key res_len)

    unfoldable pub cache_list_size : Option Bytes → Exec e.World ℕ
    unfolding redis_list_size
    cache_list_size key = when_on state (redis_list_size key)

    unfoldable pub cache_list_exist : Bytes → Option Bytes → Option Bytes → ℕ → Exec e.World Bool
    unfolding redis_list_exist exist_loop redis_list_at redis_list_size
    cache_list_exist stack key value value_len =
        when_on state (redis_list_exist stack key value value_len)

    unfoldable pub cache_list_pop : Option Bytes → Exec e.World Bytes
    unfolding redis_list_pop
    cache_list_pop key = when_on state (redis_list_pop key)
